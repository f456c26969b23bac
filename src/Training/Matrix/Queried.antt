-- ===== src/Training/Matrix/Queried.antt =====
-- The matrix against the queries for each trainee and course.
use qms_bakery.Prelude.{
  ℕ, ◌≡◌, refl, Bool, true, false, not, List, [], ◌∷◌, map, keep, any, elem, All, All-keep, arith,
}
use qms_bakery.Models.Training.{Trainee, TrainingCourse}
use qms_bakery.World.{Env, World}
use qms_bakery.Training.Compliance.{is_blocking}
use qms_bakery.Training.Matrix.{
  loaded_cell, ids_of, course_ids, shown_trainees, shown_courses, Cell, MatrixFilter, grid, column,
  is_cleared, visible, matrix_of, matrix_for, build_compliance_matrix,
}
use qms_bakery.Training.Matrix.Cells.{queried_cell, loaded_cell-queried_cell}

-- Two functions that agree on the courses and trainees of a grid make one matrix.
module _ (f g : TrainingCourse → Trainee → Cell) (ks is : List ℕ)
    (agree : (c : TrainingCourse) (t : Trainee)
      → elem t.id is ≡ true
      → elem c.id ks ≡ true
      → f c t ≡ g c t) where
  abbrev Courses : List TrainingCourse → Type 0
  Courses cs = All (λ c. elem c.id ks ≡ true) cs

  abbrev Trainees : List Trainee → Type 0
  Trainees ts = All (λ t. elem t.id is ≡ true) ts

  column-agree :
      (c : TrainingCourse) (ts : List Trainee)
      → elem c.id ks ≡ true
      → Trainees ts
      → column f c ts ≡ column g c ts
  column-agree c [] ic it = refl
  column-agree c (t ∷ ts) ic it = rw (agree c t it.0 ic, column-agree c ts ic it.1) refl

  grid-agree :
      (cs : List TrainingCourse) (ts : List Trainee)
      → Courses cs
      → Trainees ts
      → grid f cs ts ≡ grid g cs ts
  grid-agree [] ts ic it = refl
  grid-agree (c ∷ cs) ts ic it = rw (column-agree c ts ic.0 it, grid-agree cs ts ic.1 it) refl

  blocks-agree :
      (cs : List TrainingCourse) (t : Trainee)
      → Courses cs
      → elem t.id is ≡ true
      → any (λ c. is_blocking (f c t).state) cs ≡ any (λ c. is_blocking (g c t).state) cs
  blocks-agree [] t ic it = refl
  blocks-agree (c ∷ cs) t ic it = rw (agree c t it ic.0, blocks-agree cs t ic.1 it) refl

  cleared-agree :
      (cs : List TrainingCourse) (ts : List Trainee)
      → Courses cs
      → Trainees ts
      → map {B = ℕ × Bool} (λ (t : Trainee). (t.id, is_cleared f cs t)) ts
        ≡ map {B = ℕ × Bool} (λ (t : Trainee). (t.id, is_cleared g cs t)) ts
  cleared-agree cs [] ic it = refl
  cleared-agree cs (t ∷ ts) ic it = rw (blocks-agree cs t ic it.0, cleared-agree cs ts ic it.1) refl

  keep-agree :
      (cs : List TrainingCourse) (ts : List Trainee)
      → Courses cs
      → Trainees ts
      → keep (λ t. not (is_cleared f cs t)) ts ≡ keep (λ t. not (is_cleared g cs t)) ts
  keep-agree cs [] ic it = refl
  keep-agree cs (t ∷ ts) ic it = rw (blocks-agree cs t ic it.0, keep-agree cs ts ic it.1) refl

  visible-agree :
      (b : Bool) (cs : List TrainingCourse) (ts : List Trainee)
      → Courses cs
      → Trainees ts
      → visible b f cs ts ≡ visible b g cs ts
  visible-agree true cs ts ic it = keep-agree cs ts ic it
  visible-agree false cs ts ic it = refl

  Trainees-visible :
      (b : Bool) (cs : List TrainingCourse) (ts : List Trainee)
      → Trainees ts
      → Trainees (visible b g cs ts)
  Trainees-visible false cs ts it = it
  Trainees-visible true cs ts it = All-keep _ (λ t. not (is_cleared g cs t)) ts it

  matrix_of-agree :
      (cs : List TrainingCourse) (ts : List Trainee)
      → Courses cs
      → Trainees ts
      → matrix_of f cs ts ≡ matrix_of g cs ts
  unfolding matrix_of
  matrix_of-agree cs ts ic it = rw (grid-agree cs ts ic it, cleared-agree cs ts ic it) refl

  matrix_for-agree :
      (b : Bool) (cs : List TrainingCourse) (ts : List Trainee)
      → Courses cs
      → Trainees ts
      → matrix_for b f cs ts ≡ matrix_for b g cs ts
  matrix_for-agree b cs [] ic it = refl
  matrix_for-agree b [] (t ∷ ts) ic it = refl
  matrix_for-agree b (c ∷ cs) (t ∷ ts) ic it = rw (visible-agree b (c ∷ cs) (t ∷ ts) ic it) (
      matrix_of-agree (c ∷ cs) (visible b g (c ∷ cs) (t ∷ ts)) ic
        (Trainees-visible b (c ∷ cs) (t ∷ ts) it))

more_ids :
    (x : ℕ) (is : List ℕ) (ts : List Trainee)
    → All (λ t. elem t.id is ≡ true) ts
    → All (λ t. elem t.id (x ∷ is) ≡ true) ts
more_ids x is [] h = tt
more_ids x is (t ∷ ts) h = (ground arith, more_ids x is ts h.1)

own_ids : (ts : List Trainee) → All (λ t. elem t.id (ids_of ts) ≡ true) ts
own_ids [] = tt
own_ids (t ∷ ts) = (ground arith, more_ids t.id (ids_of ts) ts (own_ids ts))

more_course_ids :
    (x : ℕ) (ks : List ℕ) (cs : List TrainingCourse)
    → All (λ c. elem c.id ks ≡ true) cs
    → All (λ c. elem c.id (x ∷ ks) ≡ true) cs
more_course_ids x ks [] h = tt
more_course_ids x ks (c ∷ cs) h = (ground arith, more_course_ids x ks cs h.1)

own_course_ids : (cs : List TrainingCourse) → All (λ c. elem c.id (course_ids cs) ≡ true) cs
own_course_ids [] = tt
own_course_ids (c ∷ cs) =
    (ground arith, more_course_ids c.id (course_ids cs) cs (own_course_ids cs))

-- The matrix from the five bulk queries is the one that the naive loop makes, which asks
-- `latest_certification` and `has_open_enrolment` for each trainee and course.
pub build_compliance_matrix-queried :
    (env : Env) (f : MatrixFilter) (w : World)
    → build_compliance_matrix env f w
      ≡ matrix_for f.blocked_only (queried_cell env w) (shown_courses w) (shown_trainees f w)
unfolding build_compliance_matrix
build_compliance_matrix-queried env f w =
    let cs = shown_courses w in
    let ts = shown_trainees f w in
    matrix_for-agree (loaded_cell env w cs ts) (queried_cell env w) (course_ids cs) (ids_of ts)
      (loaded_cell-queried_cell env w cs ts) f.blocked_only cs ts (own_course_ids cs) (own_ids ts)
