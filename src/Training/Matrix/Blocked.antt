-- ===== src/Training/Matrix/Blocked.antt =====
-- The option `blocked_only`.
use qms_bakery.Prelude.{
  ℕ, ◌≡◌, refl, sym, ap, ◌∙◌, ◌⊎◌, inl, inr, Bool, true, false, not, ◌||◌, List, [], ◌∷◌, ◌++◌, map,
  keep, any, count_if, length, All, arith, Bool-cases,
}
use qms_bakery.Models.Training.{Trainee, TrainingCourse}
use qms_bakery.World.{Env, World}
use qms_bakery.Training.Compliance.{
  ComplianceState, is_blocking, not_required, extra, valid, due_soon, in_flight, overdue,
}
use qms_bakery.Training.Matrix.{
  Cell, Matrix, MatrixFilter, grid, column, is_cleared, matrix_of, matrix_for, is_overdue,
  overdue_ids, count_distinct, shown_trainees, shown_courses, build_compliance_matrix, loaded_cell,
}

overdue_ids-append : (xs ys : List Cell) → overdue_ids (xs ++ ys) ≡ overdue_ids xs ++ overdue_ids ys
overdue_ids-append [] ys = refl
overdue_ids-append (x ∷ xs) ys = elim (Bool-cases (is_overdue x.state)) [
  | inl late ↦ rw (late, overdue_ids-append xs ys) refl
  | inr fine ↦ rw (fine, overdue_ids-append xs ys) refl
]

overdue-blocking : (s : ComplianceState) → is_overdue s ≡ true → is_blocking s ≡ true
overdue-blocking not_required h = cc
overdue-blocking extra h = cc
overdue-blocking valid h = cc
overdue-blocking due_soon h = cc
overdue-blocking in_flight h = cc
overdue-blocking overdue h = refl

module _ (f : TrainingCourse → Trainee → Cell) (blocks : Trainee → Bool) where
  -- A cell of the column that is overdue blocks its trainee.
  abbrev Blocks : TrainingCourse → Type 0
  Blocks c = (t : Trainee) → is_overdue (f c t).state ≡ true → blocks t ≡ true

  column-blocked :
      (c : TrainingCourse) (ts : List Trainee)
      → Blocks c
      → overdue_ids (column f c (keep blocks ts)) ≡ overdue_ids (column f c ts)
  column-blocked c [] h = refl
  column-blocked c (t ∷ ts) h = elim (Bool-cases (is_overdue (f c t).state)) [
    | inl late ↦ rw (h t late, late, column-blocked c ts h) refl
    | inr fine ↦ elim (Bool-cases (blocks t)) [
      | inl blocked ↦ rw (blocked, fine, column-blocked c ts h) refl
      | inr cleared ↦ rw (cleared, fine, column-blocked c ts h) refl
    ]
  ]

  grid-blocked :
      (cs : List TrainingCourse) (ts : List Trainee)
      → All Blocks cs
      → overdue_ids (grid f cs (keep blocks ts)) ≡ overdue_ids (grid f cs ts)
  grid-blocked [] ts h = refl
  grid-blocked (c ∷ cs) ts h =
      rw
        (
          overdue_ids-append (column f c (keep blocks ts)) (grid f cs (keep blocks ts)),
          overdue_ids-append (column f c ts) (grid f cs ts),
          column-blocked c ts h.0,
          grid-blocked cs ts h.1,
        )
        refl

module _ (f : TrainingCourse → Trainee → Cell) (cs : List TrainingCourse) where
  abbrev blocked_flags : List Trainee → List (ℕ × Bool)
  blocked_flags ts = map {B = ℕ × Bool} (λ (t : Trainee). (t.id, is_cleared f cs t)) ts

  count-blocked :
      (ts : List Trainee)
      → count_if
          (λ (p : ℕ × Bool). not p.1)
          (blocked_flags (keep (λ t. not (is_cleared f cs t)) ts))
        ≡ count_if (λ (p : ℕ × Bool). not p.1) (blocked_flags ts)
  count-blocked [] = refl
  count-blocked (t ∷ ts) = elim (Bool-cases (is_cleared f cs t)) [
    | inl free ↦ rw (free, count-blocked ts) refl
    | inr held ↦ rw (held, count-blocked ts) (rw held refl)
  ]

  length-blocked :
      (ts : List Trainee)
      → count_if (λ (p : ℕ × Bool). not p.1) (blocked_flags ts)
        ≡ length (keep (λ t. not (is_cleared f cs t)) ts)
  length-blocked [] = refl
  length-blocked (t ∷ ts) = elim (Bool-cases (is_cleared f cs t)) [
    | inl free ↦ rw (free, length-blocked ts) refl
    | inr held ↦ rw (held, length-blocked ts) refl
  ]

or_blocked : (b held : Bool) → not (not held) ≡ true → not (not (b || held)) ≡ true
or_blocked b held h = ground arith

Blocks-more :
    (f : TrainingCourse → Trainee → Cell) (c : TrainingCourse) (cs xs : List TrainingCourse)
    → All (Blocks f (λ t. not (is_cleared f cs t))) xs
    → All (Blocks f (λ t. not (is_cleared f (c ∷ cs) t))) xs
Blocks-more f c cs [] h = tt
Blocks-more f c cs (x ∷ xs) h = (
  λ t late.
      or_blocked (is_blocking (f c t).state) (any (λ k. is_blocking (f k t).state) cs) (h.0 t late),
  Blocks-more f c cs xs h.1,
)

-- Every course of a list blocks the trainees that are overdue in it.
courses-Blocks :
    (f : TrainingCourse → Trainee → Cell) (cs : List TrainingCourse)
    → All (Blocks f (λ t. not (is_cleared f cs t))) cs
courses-Blocks f [] = tt
courses-Blocks f (c ∷ cs) = (
  λ t late. rw (overdue-blocking (f c t).state late) refl,
  Blocks-more f c cs cs (courses-Blocks f cs),
)

-- What the option leaves of the numbers of a matrix.
abbrev pub Agrees : List TrainingCourse → Matrix → Matrix → Type 0
Agrees cs m n =
    (m.kpis.blocked ≡ n.kpis.blocked)
    × (m.kpis.overdue_courses ≡ n.kpis.overdue_courses)
    × ((cs ≡ []) ⊎ (length m.trainees ≡ m.kpis.blocked))

matrix_for-Agrees :
    (f : TrainingCourse → Trainee → Cell) (cs : List TrainingCourse) (ts : List Trainee)
    → Agrees cs (matrix_for true f cs ts) (matrix_for false f cs ts)
unfolding matrix_of
matrix_for-Agrees f cs [] = (refl, refl, inr refl)
matrix_for-Agrees f [] (t ∷ ts) = (refl, refl, inl refl)
matrix_for-Agrees f (c ∷ cs) (t ∷ ts) =
    let all = t ∷ ts in
    let ks = c ∷ cs in
    (
      count-blocked f ks all,
      ap count_distinct
          (grid-blocked f (λ u. not (is_cleared f ks u)) ks all (courses-Blocks f ks)),
      inr (sym (count-blocked f ks all ∙ length-blocked f ks all)),
    )

-- With `blocked_only` the dashboard shows the same numbers of blocked workers and of overdue courses
-- as without it, and, unless there is no active course, exactly as many trainees as are blocked.
pub blocked_only-Agrees :
    (env : Env) (f : MatrixFilter) (w : World)
    → Agrees
        (shown_courses w)
        (build_compliance_matrix env (record f { blocked_only = true }) w)
        (build_compliance_matrix env (record f { blocked_only = false }) w)
unfolding build_compliance_matrix shown_trainees
blocked_only-Agrees env f w =
    let cs = shown_courses w in
    let ts = shown_trainees f w in matrix_for-Agrees (loaded_cell env w cs ts) cs ts
