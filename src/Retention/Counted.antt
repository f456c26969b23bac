-- ===== src/Retention/Counted.antt =====
-- The numbers of a sweep against the tables before and after it.
use qms_bakery.Prelude.{
  ℕ, suc, ◌+◌, ap, length, count_if, arith, ◌≡◌, refl, ◌∙◌, inl, inr, Bool, not, ◌&&◌, List, [],
  ◌∷◌, map, keep, find, ◌==◌, Bool-cases, Option-cases,
}
use qms_bakery.Models.Training.{Trainee}
use qms_bakery.World.{Env, World, now, Result, ok, err}
use qms_bakery.Audit.{record_entry}
use qms_bakery.Gdpr.Subjects.{redact_trainee, Redaction}
use qms_bakery.Retention.{
  RetentionConfig, SweepSummary, dormant_months_of, redact_all, is_expired, is_dormant,
  has_live_cert,
}

-- The numbers of a sweep, counted from the tables before and after it.
abbrev pub Counted : Env → RetentionConfig → World → Result SweepSummary → World → Type 0
Counted env cfg w (err e) w' = ⊥
Counted env cfg w (ok t) w' =
    (w'.enrolments ≡ keep (λ e. not (is_expired (now env) e)) w.enrolments)
    × (t.expired_enrolments_dropped + length w'.enrolments ≡ length w.enrolments)
    × (t.trainees_redacted
        ≡ count_if
            (λ (u : Trainee).
              is_dormant (now env) (dormant_months_of cfg) u && not (has_live_cert (now env) w u))
            w.trainees)

pub keep_both :
    {A : Type 0} (p : A → Bool) (xs : List A)
    → length (keep p xs) + length (keep (λ x. not (p x)) xs) ≡ length xs
keep_both p [] = refl
keep_both p (x ∷ xs) = elim (Bool-cases (p x)) [
  | inl hit ↦ rw hit (omega (arith, keep_both p xs))
  | inr miss ↦ rw miss (omega (arith, keep_both p xs))
]

pub length-map-keep :
    {A B : Type 0} (f : A → B) (p : A → Bool) (xs : List A)
    → length (map f (keep p xs)) ≡ count_if p xs
length-map-keep f p [] = refl
length-map-keep f p (x ∷ xs) = elim (Bool-cases (p x)) [
  | inl hit ↦ rw hit (ap suc (length-map-keep f p xs))
  | inr miss ↦ rw miss (length-map-keep f p xs)
]

redact_trainee-enrolments :
    (env : Env) (id : ℕ) (w : World) → (redact_trainee env id w).1.enrolments ≡ w.enrolments
unfolding redact_trainee record_entry
redact_trainee-enrolments env id w = elim (Option-cases (find (λ t. t.id == id) w.trainees)) [
  | inl missing ↦ rw (missing, redact_trainee) refl
  | inr (t, found) ↦ rw (found, redact_trainee) refl
]

pub redact_all-enrolments :
    (env : Env) (ids : List ℕ) (w : World) → (redact_all env ids w).1.enrolments ≡ w.enrolments
unfolding redact_all
redact_all-enrolments env [] w = refl
redact_all-enrolments env (id ∷ ids) w =
    go (redact_trainee env id w) (redact_trainee-enrolments env id w)
      (λ v. redact_all-enrolments env ids v)
  where
    go :
        (p : Result Redaction × World)
        → p.1.enrolments ≡ w.enrolments
        → ((v : World) → (redact_all env ids v).1.enrolments ≡ v.enrolments)
        → (let rest = redact_all env ids p.1 in
            elim p.0 as (λ r. Result (Unit {0}) × World) [
              | ok done ↦ rest
              | err e ↦ (err e, p.1)
            ]).1.enrolments
          ≡ w.enrolments
    go (ok done, v) s next = next v ∙ s
    go (err e, v) s next = s
