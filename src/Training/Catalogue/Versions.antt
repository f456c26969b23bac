-- ===== src/Training/Catalogue/Versions.antt =====
-- Versions of a course, and the distinct phones of trainees.
use qms_bakery.Prelude.{
  ℕ, ◌+◌, ◌≡◌, ◌≢◌, refl, ap, inl, inr, Bool, true, false, ◌&&◌, ◌||◌, some, List, [], ◌∷◌, ◌++◌,
  map, any, keep, if◌then◌else◌, ◌==◌, arith, Bool-cases,
}
use qms_bakery.Prelude.Text.{Text, text_eq, is_blank}
use qms_bakery.Models.Training.{Trainee, TrainingCourse, TrainingCourseVersion}
use qms_bakery.World.{Env, World, ok}
use qms_bakery.Audit.{record_entry}
use qms_bakery.Training.Queries.{active_version, highest}
use qms_bakery.Training.Catalogue.{
  add_course_version, new_version, retire, top_version, NewVersion, create_trainee, NewTrainee,
  new_trainee, number_taken, trimmed,
}

-- The rows that `active_version` chooses from.
abbrev pub active_of : ℕ → List TrainingCourseVersion → List TrainingCourseVersion
active_of course vs = keep (λ v. (v.course_id == course) && v.is_active) vs

active_of-retire :
    (course : ℕ) (v : TrainingCourseVersion) (vs : List TrainingCourseVersion)
    → v.course_id ≡ course
    → v.is_active ≡ true
    → active_of course (map (retire course) vs ++ v ∷ []) ≡ v ∷ []
active_of-retire course v [] same active = ground arith
active_of-retire course v (u ∷ vs) same active =
    ground (arith, active_of-retire course v vs same active)

active_of-other :
    (course other : ℕ) (v : TrainingCourseVersion) (vs : List TrainingCourseVersion)
    → v.course_id ≡ course
    → other ≢ course
    → active_of other (map (retire course) vs ++ v ∷ []) ≡ active_of other vs
active_of-other course other v [] same apart = ground arith
active_of-other course other v (u ∷ vs) same apart = elim (Bool-cases (u.course_id == course)) [
  | inl mine ↦
      let hidden : (u.course_id == other) ≡ false = ground arith in
      rw (mine, hidden) (active_of-other course other v vs same apart)
  | inr theirs ↦ rw theirs (
      ap
        (λ (l : List TrainingCourseVersion).
          if (u.course_id == other) && u.is_active then u ∷ l else l)
        (active_of-other course other v vs same apart))
]

-- A new version has the next number, is from then on the course's one active version, and leaves
-- the active versions of every other course as they were.
pub add_course_version-active :
    (env : Env) (course : TrainingCourse) (n : NewVersion) (w : World) (other : ℕ)
    → other ≢ course.id
    → let (r, w') = add_course_version env course n w in
      (v : TrainingCourseVersion) × (r ≡ ok v)
      × (v.version ≡ 1 + top_version course.id w.versions)
      × (active_of course.id w'.versions ≡ v ∷ [])
      × (active_version course.id w' ≡ some v)
      × (active_of other w'.versions ≡ active_of other w.versions)
unfolding add_course_version active_version record_entry
add_course_version-active env course n w other apart =
    let v = new_version env course.id n (1 + top_version course.id w.versions) w.next_id in
    let chosen = active_of-retire course.id v w.versions refl refl in
    (
      v,
      refl,
      refl,
      chosen,
      ap highest chosen,
      active_of-other course.id other v w.versions refl apart,
    )

-- No two trainees have one phone.
abbrev pub DistinctPhones : List Trainee → Type 0
DistinctPhones [] = Unit
DistinctPhones (t ∷ ts) =
    (any (text_eq t.phone) (map (λ (u : Trainee). u.phone) ts) ≡ false) × DistinctPhones ts

pub text_eq-sym : (s t : Text) → text_eq s t ≡ text_eq t s
text_eq-sym [] [] = refl
text_eq-sym [] (b ∷ t) = refl
text_eq-sym (a ∷ s) [] = refl
text_eq-sym (a ∷ s) (b ∷ t) = ground (arith, text_eq-sym s t)

any-snoc :
    (p : Text → Bool) (ts : List Trainee) (t : Trainee)
    → any p (map (λ (u : Trainee). u.phone) ts) ≡ false
    → p t.phone ≡ false
    → any p (map (λ (u : Trainee). u.phone) (ts ++ t ∷ [])) ≡ false
any-snoc p [] t h hp = ground arith
any-snoc p (u ∷ ts) t h hp = ground (arith, any-snoc p ts t)

DistinctPhones-snoc :
    (ts : List Trainee) (t : Trainee)
    → DistinctPhones ts
    → any (text_eq t.phone) (map (λ (u : Trainee). u.phone) ts) ≡ false
    → DistinctPhones (ts ++ t ∷ [])
DistinctPhones-snoc [] t h free = (refl, tt)
DistinctPhones-snoc (u ∷ ts) t h free = (
  any-snoc (text_eq u.phone) ts t h.0 (ground (arith, text_eq-sym u.phone t.phone)),
  DistinctPhones-snoc ts t h.1 (ground arith),
)

-- `create_trainee` keeps the phones of the trainees distinct.
pub create_trainee-DistinctPhones :
    (env : Env) (n : NewTrainee) (w : World)
    → DistinctPhones w.trainees
    → DistinctPhones (create_trainee env n w).1.trainees
unfolding create_trainee record_entry
create_trainee-DistinctPhones env n w h =
    elim (Bool-cases (is_blank n.phone || is_blank n.full_name || is_blank n.role_code)) [
      | inl blank ↦ rw (blank, create_trainee) h
      | inr filled ↦
          elim (Bool-cases (any (text_eq n.phone) (map (λ (t : Trainee). t.phone) w.trainees))) [
            | inl taken ↦ rw (filled, taken, create_trainee) h
            | inr free ↦ elim (Bool-cases (number_taken (trimmed n.employee_number) w)) [
              | inl used ↦ rw (filled, free, used, create_trainee) h
              | inr unused ↦
                  rw (filled, free, unused, create_trainee)
                    (DistinctPhones-snoc w.trainees (new_trainee env n w.next_id) h free)
            ]
          ]
    ]
