-- ===== src/Prelude/Decimal/ReadBack.antt =====
-- `int(str(n))` is n.
use Prim.Native.Nat.{ℕ, zero, suc, ◌+◌, ◌-◌, ◌*◌, ◌/◌, ◌≤◌, ◌<◌}
use mathlib.Core.Path.{◌≡◌, refl, ap, ◌∙◌}
use mathlib.Core.Logic.{inl, inr}
use mathlib.Core.Bool.{Bool, true, false}
use mathlib.Core.Option.{some}
use mathlib.Core.List.{[], ◌∷◌, reverse}
use native.Mathlib.Omega.{arith}
use qms_bakery.Prelude.Tests.{◌==◌, Bool-cases}
use qms_bakery.Prelude.Lists.{All, All-append}
use mathlib.Core.List.{reverse-reverse, reverse-cons}
use qms_bakery.Prelude.Int.{pos}
use qms_bakery.Prelude.Text.{Text, is_space, lstrip, strip}
use qms_bakery.Prelude.Decimal.{
  read_digits, read_signed, int_of, to_pos, decimal, reversed_digits, onto, digit,
}

-- A text of digits.
abbrev pub AllDigits : Text → Type 0
AllDigits s = All (λ c. (48 ≤ c) × (c ≤ 57)) s

read_digit :
    (wants : Bool) (acc c : ℕ) (s : Text)
    → 48 ≤ c
    → c ≤ 57
    → read_digits wants acc (c ∷ s) ≡ read_digits false (acc * 10 + (c - 48)) s
unfolding read_digits
read_digit wants acc c s lo hi = ground arith

-- The digits of a number are read back, whatever follows them.
read-digits :
    (fuel n : ℕ) (rest : Text)
    → n < fuel
    → read_digits true 0 (onto (reversed_digits fuel n) rest) ≡ read_digits false n rest
unfolding reversed_digits
read-digits zero n rest h = absurd (omega arith)
read-digits (suc fuel) n rest h = elim (Bool-cases (n / 10 == 0)) [
  | inl last ↦ rw last (
      read_digit true 0 (digit n) rest (omega arith) (omega arith)
      ∙ ap (λ k. read_digits false k rest) (ground arith))
  | inr more ↦ rw more (
      read-digits fuel (n / 10) (digit n ∷ rest) (ground arith)
      ∙ read_digit false (n / 10) (digit n) rest (omega arith) (omega arith)
      ∙ ap (λ k. read_digits false k rest) (omega arith))
]

AllDigits-onto : (s rest : Text) → AllDigits s → AllDigits rest → AllDigits (onto s rest)
AllDigits-onto [] rest hs hr = hr
AllDigits-onto (c ∷ s) rest hs hr = AllDigits-onto s (c ∷ rest) hs.1 (hs.0, hr)

AllDigits-reversed_digits : (fuel n : ℕ) → AllDigits (reversed_digits fuel n)
unfolding reversed_digits
AllDigits-reversed_digits zero n = tt
AllDigits-reversed_digits (suc fuel) n = elim (Bool-cases (n / 10 == 0)) [
  | inl last ↦ rw last ((omega arith, omega arith), tt)
  | inr more ↦ rw more ((omega arith, omega arith), AllDigits-reversed_digits fuel (n / 10))
]

pub AllDigits-decimal : (n : ℕ) → AllDigits (decimal n)
unfolding decimal
AllDigits-decimal n =
    AllDigits-onto (reversed_digits (n + 1) n) [] (AllDigits-reversed_digits (n + 1) n) tt

-- Nothing is stripped off digits.
lstrip-AllDigits : (s : Text) → AllDigits s → lstrip s ≡ s
unfolding lstrip is_space
lstrip-AllDigits [] h = refl
lstrip-AllDigits (c ∷ s) h = ground arith

AllDigits-reverse : (s : Text) → AllDigits s → AllDigits (reverse s)
AllDigits-reverse [] h = tt
AllDigits-reverse (c ∷ s) h =
    rw (reverse-cons c s) (All-append _ (reverse s) (c ∷ []) (AllDigits-reverse s h.1) (h.0, tt))

strip-AllDigits : (s : Text) → AllDigits s → strip s ≡ s
unfolding strip
strip-AllDigits s h =
    rw (lstrip-AllDigits s h, lstrip-AllDigits (reverse s) (AllDigits-reverse s h))
      (reverse-reverse s)

read_signed-AllDigits : (s : Text) → AllDigits s → read_signed s ≡ to_pos (read_digits true 0 s)
unfolding read_digits
read_signed-AllDigits [] h = refl
read_signed-AllDigits (c ∷ s) h = ground arith

-- `int(str(n))` is n: the fuel of `decimal` is enough for every digit.
pub int_of-decimal : (n : ℕ) → int_of (decimal n) ≡ some (pos n)
unfolding int_of decimal read_digits
int_of-decimal n = rw (strip-AllDigits (decimal n) (AllDigits-decimal n)) (
    read_signed-AllDigits (decimal n) (AllDigits-decimal n)
    ∙ ap to_pos (read-digits (n + 1) n [] (omega arith)))
