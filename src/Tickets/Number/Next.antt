-- ===== src/Tickets/Number/Next.antt =====
-- The number that `generate_ticket_number` chooses, against the rows of the year.
use qms_bakery.Prelude.{
  ℕ, ◌+◌, ◌≡◌, ◌⊎◌, refl, ap, inl, inr, true, false, ◌||◌, none, some, List, [], ◌∷◌, ◌++◌, All,
  keep, ==_refl, arith, Bool-cases,
}
use qms_bakery.Prelude.Text.{Text, starts_with}
use qms_bakery.Tickets.Number.{
  prefix, ticket_number, text_lt, greatest, sequence_of, next_seq, generate_ticket_number,
}

text_lt_between : (s t u : Text) → text_lt s u ≡ true → (text_lt s t || text_lt t u) ≡ true
text_lt_between s t [] h = absurd (ground arith)
text_lt_between [] [] (c ∷ u) h = refl
text_lt_between [] (b ∷ t) (c ∷ u) h = refl
text_lt_between (a ∷ s) [] (c ∷ u) h = ground arith
text_lt_between (a ∷ s) (b ∷ t) (c ∷ u) h = ground (arith, text_lt_between s t u)

-- A row that is there, and that no row exceeds in the order of texts.
abbrev pub IsGreatest : Text → List Text → Type 0
IsGreatest m ns =
    ((before : List Text) × (after : List Text) × (ns ≡ before ++ m ∷ after))
    × All (λ n. text_lt m n ≡ false) ns

text_lt_irrefl : (s : Text) → text_lt s s ≡ false
text_lt_irrefl [] = refl
text_lt_irrefl (a ∷ s) = ground (arith, text_lt_irrefl s, ==_refl a)

text_lt_asym : (s t : Text) → text_lt s t ≡ true → text_lt t s ≡ false
text_lt_asym s [] h = absurd (ground arith)
text_lt_asym [] (b ∷ t) h = refl
text_lt_asym (a ∷ s) (b ∷ t) h = ground (arith, text_lt_asym s t)

exceeds :
    (n m : Text) (ns : List Text)
    → text_lt n m ≡ false
    → All (λ k. text_lt m k ≡ false) ns
    → All (λ k. text_lt n k ≡ false) ns
exceeds n m [] h all = tt
exceeds n m (k ∷ ns) h all = (
  elim (Bool-cases (text_lt n k)) [
    | inr not_less ↦ not_less
    | inl less ↦ absurd (ground (arith, h, all.0, text_lt_between n m k less))
  ],
  exceeds n m ns h all.1,
)

greatest_cases :
    (ns : List Text)
    → ((ns ≡ []) × (greatest ns ≡ none)) ⊎ ((m : Text) × (greatest ns ≡ some m) × IsGreatest m ns)
greatest_cases [] = inl (refl, refl)
greatest_cases (n ∷ ns) = elim (greatest_cases ns) [
  | inl (empty, absent) ↦ inr (n, rw absent refl, (([], ns, refl), (text_lt_irrefl n, rw empty tt)))
  | inr (m, found, ((before, after, split), top)) ↦ elim (Bool-cases (text_lt n m)) [
    | inl less ↦ inr (
      m,
      rw (found, less) refl,
      ((n ∷ before, after, ap (λ (l : List Text). n ∷ l) split), (text_lt_asym n m less, top)),
    )
    | inr more ↦
        inr
          (n, rw (found, more) refl, (([], ns, refl), (text_lt_irrefl n, exceeds n m ns more top)))
  ]
]

-- The next number of a year: its first, where no row has one, and else one above the greatest row's.
abbrev pub IsNext : ℕ → List Text → Text → Type 0
IsNext year numbers s =
    let mine = keep (λ n. starts_with n (prefix year)) numbers in
    (mine ≡ []) × (s ≡ ticket_number year 1)
    ⊎ ((last : Text) × IsGreatest last mine × (s ≡ ticket_number year (sequence_of last + 1)))

pub generate_ticket_number-IsNext :
    (year : ℕ) (numbers : List Text) → IsNext year numbers (generate_ticket_number year numbers)
unfolding generate_ticket_number
generate_ticket_number-IsNext year numbers =
    let mine = keep (λ n. starts_with n (prefix year)) numbers in
    elim (greatest_cases mine) [
      | inl (none_yet, found) ↦ inl (none_yet, ap (λ o. ticket_number year (next_seq o)) found)
      | inr (last, found, top) ↦ inr (last, top, ap (λ o. ticket_number year (next_seq o)) found)
    ]
