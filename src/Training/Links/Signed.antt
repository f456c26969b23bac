-- ===== src/Training/Links/Signed.antt =====
-- The tokens that `verify_token` accepts.
use qms_bakery.Prelude.{
  ℕ, ◌≡◌, refl, sym, ap, ◌∙◌, inl, inr, Bool, true, false, not, Option, none, some, List, [], ◌∷◌,
  ◌++◌, ◌==◌, if◌then◌else◌, arith, Bool-cases, ==_iff, Option-cases,
}
use qms_bakery.Prelude.Int.{ℤ}
use qms_bakery.Prelude.Text.{Text, text_eq, text_eq_iff}
use qms_bakery.Prelude.Decimal.{int_of, split_on, onto_head}
use qms_bakery.World.{Env}
use qms_bakery.Training.Links.{
  valid, invalid, type_error, bad_expiry, bad_signature, expired, verify_token, verify_parts,
  check_signature, check_expiry, body_of, is_ascii, has_expired,
}

-- `sep.join(parts)`
join_on : ℕ → List Text → Text
join_on d [] = []
join_on d (p ∷ []) = p
join_on d (p ∷ q ∷ ps) = p ++ (d ∷ join_on d (q ∷ ps))

join_on-onto_head : (d c : ℕ) (ps : List Text) → join_on d (onto_head c ps) ≡ c ∷ join_on d ps
unfolding join_on
join_on-onto_head d c [] = refl
join_on-onto_head d c (p ∷ []) = refl
join_on-onto_head d c (p ∷ q ∷ ps) = refl

join_on-part :
    (d : ℕ) (ps : List Text) (q : Text) (qs : List Text)
    → ps ≡ q ∷ qs
    → join_on d ([] ∷ ps) ≡ d ∷ join_on d ps
unfolding join_on
join_on-part d ps q qs e = rw (e, join_on) refl

split_on_cons : (d : ℕ) (s : Text) → (q : Text) × (qs : List Text) × (split_on d s ≡ q ∷ qs)
unfolding split_on
split_on_cons d [] = ([], [], refl)
split_on_cons d (c ∷ s) = elim (Bool-cases (c == d)) [
  | inl at_mark ↦ rw at_mark ([], split_on d s, refl)
  | inr other ↦ let (q, qs, e) = split_on_cons d s in rw (other, e) (c ∷ q, qs, refl)
]

join_on-split_on : (d : ℕ) (s : Text) → join_on d (split_on d s) ≡ s
unfolding split_on join_on
join_on-split_on d [] = refl
join_on-split_on d (c ∷ s) = elim (Bool-cases (c == d)) [
  | inl at_mark ↦
      let (q, qs, e) = split_on_cons d s in
      rw (at_mark, split_on)
        (join_on-part d (split_on d s) q qs e
          ∙ ap (λ (t : Text). d ∷ t) (join_on-split_on d s)
          ∙ ap (λ (k : ℕ). k ∷ s) (sym ((==_iff c d).0 at_mark)))
  | inr other ↦
      rw (other, split_on)
        (join_on-onto_head d c (split_on d s) ∙ ap (λ (t : Text). c ∷ t) (join_on-split_on d s))
]

-- The parts of an accepted token.
abbrev pub Signed : Env → List Text → Text → Type 0
Signed env ps id =
    (exp : Text) × (e : ℤ) × (ps ≡ id ∷ exp ∷ env.sign (body_of id e) ∷ [])
    × (int_of exp ≡ some e)
    × (has_expired env e ≡ false)

-- The three tests of `check_signature`.
tests_passed :
    (ascii same past : Bool) (key id : Text)
    → (if not ascii
        then type_error
        else if not same
        then invalid bad_signature
        else if past
        then invalid expired
        else valid key)
      ≡ valid id
    → (same ≡ true) × (past ≡ false) × (key ≡ id)
tests_passed ascii same past key id h = ground arith

check_signature-Signed :
    (env : Env) (key id exp sig : Text) (e : ℤ)
    → int_of exp ≡ some e
    → check_signature env key e sig ≡ valid id
    → Signed env (key ∷ exp ∷ sig ∷ []) id
unfolding check_signature
check_signature-Signed env key id exp sig e read h =
    let (same, live, keys) =
      tests_passed (is_ascii sig) (text_eq (env.sign (body_of key e)) sig) (has_expired env e) key
        id h in
    (
      exp,
      e,
      ap (λ (s : Text). key ∷ exp ∷ s ∷ []) (sym ((text_eq_iff _ _).0 same))
          ∙ ap (λ (k : Text). k ∷ exp ∷ env.sign (body_of k e) ∷ []) keys,
      read,
      live,
    )

not_valid : {id : Text} → invalid bad_expiry ≡ valid id → ⊥
not_valid h = cc

no_expiry :
    (env : Env) (key exp sig id : Text)
    → int_of exp ≡ none
    → check_expiry env key (int_of exp) sig ≡ valid id
    → ⊥
no_expiry env key exp sig id bad h =
    not_valid (ap (λ (o : Option ℤ). check_expiry env key o sig) (sym bad) ∙ h)

verify_parts-Signed :
    (env : Env) (ps : List Text) (id : Text) → verify_parts env ps ≡ valid id → Signed env ps id
unfolding verify_parts
verify_parts-Signed env [] id h = cc
verify_parts-Signed env (a ∷ []) id h = cc
verify_parts-Signed env (a ∷ b ∷ []) id h = cc
verify_parts-Signed env (key ∷ exp ∷ sig ∷ []) id h = elim (Option-cases (int_of exp)) [
  | inl bad ↦ absurd (no_expiry env key exp sig id bad h)
  | inr (e, read) ↦
      check_signature-Signed env key id exp sig e read
        (ap (λ (o : Option ℤ). check_expiry env key o sig) (sym read) ∙ h)
]
verify_parts-Signed env (a ∷ b ∷ c ∷ d ∷ r) id h = cc

-- No text is accepted but one that the program signed: an accepted token is the key that is returned,
-- an expiry that has not come, and the signature of the two, joined by dots.
pub verify_token-Signed :
    (env : Env) (token id : Text)
    → verify_token env token ≡ valid id
    → (exp : Text) × (e : ℤ) × (token ≡ id ++ (b'.' ∷ (exp ++ (b'.' ∷ env.sign (body_of id e)))))
      × (int_of exp ≡ some e)
      × (has_expired env e ≡ false)
unfolding verify_token join_on
verify_token-Signed env token id h =
    let (exp, e, parts, read, live) = verify_parts-Signed env (split_on b'.' token) id h in
    (exp, e, sym (join_on-split_on b'.' token) ∙ ap (join_on b'.') parts, read, live)
