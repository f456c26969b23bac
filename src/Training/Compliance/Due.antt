-- ===== src/Training/Compliance/Due.antt =====
-- The loop of `trainees_due_for_course` against its declarative reading.
use qms_bakery.Prelude.{
  ℕ, ◌≡◌, refl, ap, Bool, false, ◌&&◌, List, [], ◌∷◌, keep, any, All, ◌==◌, arith, Bool-cases, inl,
  inr, elem,
}
use qms_bakery.Models.Training.{Trainee, TrainingCourse, TrainingAssignment}
use qms_bakery.World.{Env, World}
use qms_bakery.Training.Queries.{
  assignment_matches, is_due_for_recert, trainees_due_for_course, scan, loop,
}

-- No two rows have one key.
abbrev pub DistinctIds : List Trainee → Type 0
DistinctIds [] = Unit
DistinctIds (t ∷ ts) = (any (λ u. u.id == t.id) ts ≡ false) × DistinctIds ts

-- The trainee matches an assignment of the course and is due.
abbrev pub is_candidate : Env → TrainingCourse → World → Trainee → Bool
is_candidate env course w t =
    any (λ a. assignment_matches a t) course.assignments && is_due_for_recert env t course w

scan-unseen :
    (env : Env) (course : TrainingCourse) (w : World) (seen : List ℕ) (t : Trainee)
    (assignments : List TrainingAssignment)
    → elem t.id seen ≡ false
    → scan env course w seen t assignments
      ≡ (any (λ a. assignment_matches a t) assignments && is_due_for_recert env t course w)
scan-unseen env course w seen t [] unseen = refl
scan-unseen env course w seen t (a ∷ more) unseen =
    ground (arith, scan-unseen env course w seen t more unseen)

abbrev Unseen : List ℕ → List Trainee → Type 0
Unseen seen ts = All (λ t. elem t.id seen ≡ false) ts

Unseen-cons :
    (seen : List ℕ) (t : Trainee) (ts : List Trainee)
    → any (λ u. u.id == t.id) ts ≡ false
    → Unseen seen ts
    → Unseen (t.id ∷ seen) ts
Unseen-cons seen t [] apart h = tt
Unseen-cons seen t (u ∷ ts) apart h =
    (ground (arith, h.0), Unseen-cons seen t ts (ground arith) h.1)

loop-keep :
    (env : Env) (course : TrainingCourse) (w : World) (seen : List ℕ) (ts : List Trainee)
    → DistinctIds ts
    → Unseen seen ts
    → loop env course w seen ts ≡ keep (is_candidate env course w) ts
loop-keep env course w seen [] distinct unseen = refl
loop-keep env course w seen (t ∷ ts) distinct unseen =
    let same = scan-unseen env course w seen t course.assignments unseen.0 in
    elim (Bool-cases (is_candidate env course w t)) [
      | inl due ↦
          rw (same, due)
            (ap (λ (l : List Trainee). t ∷ l)
              (loop-keep env course w (t.id ∷ seen) ts distinct.1
                (Unseen-cons seen t ts distinct.0 unseen.1)))
      | inr not_due ↦ rw (same, not_due) (loop-keep env course w seen ts distinct.1 unseen.1)
    ]

any-keep :
    (id : ℕ) (p : Trainee → Bool) (ts : List Trainee)
    → any (λ u. u.id == id) ts ≡ false
    → any (λ u. u.id == id) (keep p ts) ≡ false
any-keep id p [] h = refl
any-keep id p (t ∷ ts) h = ground (arith, any-keep id p ts)

DistinctIds-keep :
    (p : Trainee → Bool) (ts : List Trainee) → DistinctIds ts → DistinctIds (keep p ts)
DistinctIds-keep p [] h = tt
DistinctIds-keep p (t ∷ ts) h = elim (Bool-cases (p t)) [
  | inl yes_p ↦ rw yes_p (any-keep t.id p ts h.0, DistinctIds-keep p ts h.1)
  | inr no_p ↦ rw no_p (DistinctIds-keep p ts h.1)
]

Unseen-none : (ts : List Trainee) → Unseen [] ts
Unseen-none [] = tt
Unseen-none (t ∷ ts) = (refl, Unseen-none ts)

-- `trainees_due_for_course` yields, in the order of the table, exactly the active trainees who
-- match an assignment of the course and are due; the keys of the trainees are distinct.
pub trainees_due_for_course-keep :
    (env : Env) (course : TrainingCourse) (w : World)
    → DistinctIds w.trainees
    → trainees_due_for_course env course w
      ≡ keep (is_candidate env course w) (keep (λ t. t.is_active) w.trainees)
unfolding trainees_due_for_course
trainees_due_for_course-keep env course w distinct =
    loop-keep env course w [] (keep (λ t. t.is_active) w.trainees)
      (DistinctIds-keep (λ t. t.is_active) w.trainees distinct)
      (Unseen-none (keep (λ t. t.is_active) w.trainees))
