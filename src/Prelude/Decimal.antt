-- ===== src/Prelude/Decimal.antt =====
-- `str(n)`, `int(text)` and `text.split(c)`, as Python does them.
pub mod ReadBack
use qms_bakery.Prelude.Tests.{leb, ◌==◌, if◌then◌else◌}
use Prim.Native.Nat.{ℕ, zero, suc, ◌+◌, ◌-◌, ◌*◌, ◌/◌, ◌%◌}
use mathlib.Core.Bool.{Bool, true, false, not, ◌&&◌}
use mathlib.Core.Option.{Option, none, some}
use mathlib.Core.List.{List, [], ◌∷◌}
use qms_bakery.Prelude.Int.{ℤ, pos, negsuc}
use qms_bakery.Prelude.Text.{Text, strip}

abbrev pub digit : ℕ → ℕ
digit n = 48 + n % 10

-- The decimal digits of a number, the last first; the fuel bounds how many there are.
unfoldable pub reversed_digits : ℕ → ℕ → Text
reversed_digits zero n = []
reversed_digits (suc fuel) n =
    let rest = reversed_digits fuel (n / 10) in digit n ∷ (if n / 10 == 0 then [] else rest)

abbrev pub onto : Text → Text → Text
onto [] acc = acc
onto (c ∷ s) acc = onto s (c ∷ acc)

-- `str(n)`: `n + 1` rounds are enough, since a tenth is smaller.
unfoldable pub decimal : ℕ → Text
unfolding reversed_digits
decimal n = onto (reversed_digits (n + 1) n) []

abbrev pub is_digit : ℕ → Bool
is_digit c = leb b'0' c && leb c b'9'

-- The digits of `int`: an underscore may stand between two of them. `wants` tells that a digit has to
-- follow, and `acc` is the value so far.
unfoldable pub read_digits : Bool → ℕ → Text → Option ℕ
read_digits wants acc [] = if wants then none else some acc
read_digits wants acc (c ∷ s) =
    let next = read_digits false (acc * 10 + (c - 48)) s in
    let gap = read_digits true acc s in
    if is_digit c then next else if (c == b'_') && not wants then gap else none

abbrev pub to_pos : Option ℕ → Option ℤ
to_pos none = none
to_pos (some n) = some (pos n)

abbrev negated : ℕ → ℤ
negated zero = pos 0
negated (suc n) = negsuc n

abbrev pub to_neg : Option ℕ → Option ℤ
to_neg none = none
to_neg (some n) = some (negated n)

abbrev pub read_signed : Text → Option ℤ
read_signed [] = none
read_signed (c ∷ s) =
    if c == b'-'
    then to_neg (read_digits true 0 s)
    else if c == b'+'
    then to_pos (read_digits true 0 s)
    else to_pos (read_digits true 0 (c ∷ s))

-- `int(text)`, of ASCII digits; none where it raises ValueError.
unfoldable pub int_of : Text → Option ℤ
int_of s = read_signed (strip s)

abbrev pub onto_head : ℕ → List Text → List Text
onto_head c [] = (c ∷ []) ∷ []
onto_head c (p ∷ ps) = (c ∷ p) ∷ ps

-- `text.split(c)`, for one character
unfoldable pub split_on : ℕ → Text → List Text
split_on d [] = [] ∷ []
split_on d (c ∷ s) = let rest = split_on d s in if c == d then [] ∷ rest else onto_head c rest
