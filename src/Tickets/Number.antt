-- ===== src/Tickets/Number.antt =====
-- app/services/tickets.py, `generate_ticket_number`: QMS-YYYY-NNNNN, from the greatest number of
-- the year in the order of texts.
pub mod Next
use qms_bakery.Prelude.{
  ℕ, ◌+◌, ◌-◌, ◌*◌, ◌/◌, Bool, true, false, ◌&&◌, ◌||◌, Option, none, some, List, [], ◌∷◌, ◌++◌,
  ◌≡◌, refl, ltb, ◌==◌, if◌then◌else◌, keep,
}
use qms_bakery.Prelude.Text.{Text, codes, starts_with}
use qms_bakery.Prelude.Decimal.{digit, decimal}

-- `f"{n:05d}"`
pub pad5 : ℕ → Text
unfolding decimal
pad5 n =
    let long = decimal n in
    if ltb n 100000
    then digit (n / 10000) ∷ digit (n / 1000) ∷ digit (n / 100) ∷ digit (n / 10) ∷ digit n ∷ []
    else long

-- `f"QMS-{year}-"`
pub prefix : ℕ → Text
unfolding decimal
prefix year = codes "QMS-" ++ decimal year ++ codes "-"

abbrev pub ticket_number : ℕ → ℕ → Text
ticket_number year seq = prefix year ++ pad5 seq

-- The database's order of texts.
abbrev pub text_lt : Text → Text → Bool
text_lt s [] = false
text_lt [] (b ∷ t) = true
text_lt (a ∷ s) (b ∷ t) = ltb a b || ((a == b) && text_lt s t)

-- `ORDER BY ticket_number DESC LIMIT 1`
abbrev pub greatest : List Text → Option Text
greatest [] = none
greatest (n ∷ ns) = elim (greatest ns) [
  | none ↦ some n
  | some m ↦ if text_lt n m then some m else some n
]

-- `last.split("-")[-1]`
abbrev last_part : Text → Text → Text
last_part acc [] = acc
last_part acc (c ∷ s) = last_part (if c == b'-' then [] else acc ++ c ∷ []) s

-- `int(digits)`
abbrev parse_int : ℕ → Text → ℕ
parse_int acc [] = acc
parse_int acc (c ∷ s) = parse_int (acc * 10 + (c - 48)) s

-- `int(last.split("-")[-1])`
abbrev pub sequence_of : Text → ℕ
sequence_of last = parse_int 0 (last_part [] last)

abbrev pub next_seq : Option Text → ℕ
next_seq none = 1
next_seq (some last) = sequence_of last + 1

-- `generate_ticket_number`, over the numbers in the table.
unfoldable pub generate_ticket_number : ℕ → List Text → Text
unfolding pad5 prefix
generate_ticket_number year numbers =
    let mine = keep (λ n. starts_with n (prefix year)) numbers in
    prefix year ++ pad5 (next_seq (greatest mine))

first_of_year : generate_ticket_number 2026 (codes "QMS-2025-00009" ∷ []) ≡ codes "QMS-2026-00001"
unfolding generate_ticket_number
first_of_year = refl

second :
    generate_ticket_number 2026 (codes "QMS-2026-00009" ∷ codes "QMS-2026-00003" ∷ [])
    ≡ codes "QMS-2026-00010"
unfolding generate_ticket_number
second = refl

after_99999 :
    generate_ticket_number 2026 (codes "QMS-2026-99999" ∷ codes "QMS-2026-100000" ∷ [])
    ≡ codes "QMS-2026-100000"
unfolding generate_ticket_number
after_99999 = refl
