-- ===== src/Training/Csv/Faithful.antt =====
-- An import of courses against its plan.
use qms_bakery.Prelude.{
  ℕ, suc, ◌+◌, ◌≡◌, refl, sym, subst, ap, ◌∙◌, inl, inr, Bool, true, false, not, ◌||◌, Option, none,
  some, List, [], ◌∷◌, ◌++◌, find, ◌==◌, ==_refl, if◌then◌else◌, is_some, arith, Bool-cases,
  Option-cases,
}
use qms_bakery.Prelude.Text.{Text, text_eq}
use qms_bakery.Models.Training.{TrainingCourse}
use qms_bakery.World.{Env, World, Result, ok}
use qms_bakery.Training.Queries.{get_course_by_code}
use qms_bakery.Training.Csv.{Row, Float, ImportCounts}
use qms_bakery.Training.Csv.Courses.{
  CourseRowResult, CourseRowError, n_create, n_update, n_error, first_line, code_of, seen_after,
  row_errors, planned, plan_rows, plan_courses_import, create_from, update_from, apply_row,
  apply_rows, apply_courses_plan, active_in, description_in,
}
use qms_bakery.Prelude.Rows.{found_key}
use qms_bakery.Training.Csv.Versioned.{Tables, tables, Rewritten, Step, Written}
use qms_bakery.Training.Csv.Entered.{find-any, bind_ok, create_from_lem, update_from_lem, has_id}
use qms_bakery.Training.Csv.Agrees.{
  Agrees, Agrees-seen, Agrees-Steps, Steps-both, set_course-Steps, new_course-Steps, fine_row,
}

abbrev plus : ImportCounts → List CourseRowResult → ImportCounts
plus c rows = record {
  created = c.created + n_create rows;
  updated = c.updated + n_update rows;
  skipped = c.skipped + n_error rows;
}

-- The row is applied as the plan has it.
abbrev Applied :
    (Text → Option Float) → Env → World → List (Text × ℕ) → ℕ → Row → ImportCounts → World → Type 0
Applied float_of env w seen i raw c w1 =
    let r = planned i raw (row_errors float_of seen raw) w in
    let (out, w2) = apply_row float_of env r c w1 in
    (out ≡ ok (plus c (r ∷ [])))
    × Agrees (seen_after raw i seen) w w2
    × Step float_of r (tables w1) (tables w2)

pub add_if : (b : Bool) (a n : ℕ) → a + (if b then 1 else 0) + n ≡ a + (if b then suc n else n)
add_if b a n = ground arith

pub or_not : (b : Bool) → (not b || b) ≡ true
or_not b = ground arith

pub counts_eq :
    (c d : ImportCounts)
    → c.created ≡ d.created
    → c.updated ≡ d.updated
    → c.skipped ≡ d.skipped
    → c ≡ d
counts_eq c d a b e = cc

pub is_absent : {A : Type 0} (o : Option A) → is_some o ≡ false → o ≡ none
is_absent none h = refl
is_absent (some a) h = absurd (ground arith)

absent_now :
    (k : Text) (seen : List (Text × ℕ)) (w w1 : World)
    → Agrees seen w w1
    → first_line k seen ≡ none
    → get_course_by_code k w ≡ none
    → get_course_by_code k w1 ≡ none
absent_now k seen w w1 agrees first new = elim (agrees.0 k) [
  | inl before ↦ absurd (ground (arith, before, first))
  | inr same ↦ is_absent (get_course_by_code k w1) (
      find-any (λ c. text_eq c.code k) w1.courses
      ∙ same
      ∙ sym (find-any (λ c. text_eq c.code k) w.courses)
      ∙ ap is_some new)
]

found_has_id :
    (k : Text) (cs : List TrainingCourse) (d : TrainingCourse)
    → find (λ c. text_eq c.code k) cs ≡ some d
    → has_id d.id cs ≡ true
found_has_id k [] d h = absurd (ground arith)
found_has_id k (c ∷ cs) d h = elim (Bool-cases (text_eq c.code k)) [
  | inl here ↦ ground (arith, h, here, ==_refl d.id)
  | inr later ↦ ground (arith, found_has_id k cs d (ground (arith, h, later)))
]

-- The course that the plan has found is still there.
still_there :
    (k : Text) (seen : List (Text × ℕ)) (w w1 : World) (d : TrainingCourse)
    → Agrees seen w w1
    → get_course_by_code k w ≡ some d
    → (e : TrainingCourse) × (find (λ (c : TrainingCourse). c.id == d.id) w1.courses ≡ some e)
still_there k seen w w1 d agrees found =
    elim (Option-cases (find (λ (c : TrainingCourse). c.id == d.id) w1.courses)) [
      | inr there ↦ there
      | inl gone ↦ absurd (
          ground (
            arith,
            agrees.1 d.id,
            found_has_id k w.courses d found,
            find-any (λ (c : TrainingCourse). c.id == d.id) w1.courses,
            gone,
          ))
    ]

module _ (float_of : Text → Option Float) (env : Env) (w : World) where
  refused-Applied :
      (seen : List (Text × ℕ)) (i : ℕ) (raw : Row) (c : ImportCounts) (w1 : World)
      (e : CourseRowError) (es : List CourseRowError)
      → row_errors float_of seen raw ≡ e ∷ es
      → Agrees seen w w1
      → Applied float_of env w seen i raw c w1
  refused-Applied seen i raw c w1 e es bad agrees = rw bad (
    ap ok (counts_eq _ _ (omega arith) (omega arith) (omega arith)),
    Agrees-seen raw i seen w w1 agrees,
    inl (refl, refl),
  )

  created-Applied :
      (seen : List (Text × ℕ)) (i : ℕ) (raw : Row) (c : ImportCounts) (w1 : World)
      → row_errors float_of seen raw ≡ []
      → get_course_by_code (code_of raw) w ≡ none
      → Agrees seen w w1
      → Applied float_of env w seen i raw c w1
  created-Applied seen i raw c w1 fine new agrees =
      let (full, first) = fine_row float_of seen raw fine in
      let (d, made, named, table, added) =
        create_from_lem float_of env raw c w1
          (absent_now (code_of raw) seen w w1 agrees first new) in
      let w2 = (create_from float_of env raw c w1).1 in
      rw (fine, new)
        (
          made ∙ ap ok (counts_eq _ _ (omega arith) (omega arith) (omega arith)),
          Agrees-Steps raw i seen w w1 w2 full agrees (
              Steps-both (code_of raw) w1 (record w1 { courses = w1.courses ++ d ∷ [] }) w2
                (new_course-Steps (code_of raw) d w1 named)
                (set_course-Steps (code_of raw) d.id
                  (λ e. record e { is_active = active_in float_of raw })
                  (record w1 { courses = w1.courses ++ d ∷ [] }) w2 (λ e. refl) (λ e. refl) table)),
          inr (inl (refl, refl, added)),
        )

  updated-Applied :
      (seen : List (Text × ℕ)) (i : ℕ) (raw : Row) (c : ImportCounts) (w1 : World)
      (d : TrainingCourse)
      → row_errors float_of seen raw ≡ []
      → get_course_by_code (code_of raw) w ≡ some d
      → Agrees seen w w1
      → Applied float_of env w seen i raw c w1
  updated-Applied seen i raw c w1 d fine old agrees =
      let (full, first) = fine_row float_of seen raw fine in
      let (e, there) = still_there (code_of raw) seen w w1 d agrees old in
      let (made, table, rewritten) = update_from_lem float_of env raw c e w1 in
      let w2 = (update_from float_of env raw c (some e) w1).1 in
      rw (fine, old, there)
        (
          made ∙ ap ok (counts_eq _ _ (omega arith) (omega arith) (omega arith)),
          Agrees-Steps raw i seen w w1 w2 full agrees (
              set_course-Steps (code_of raw) e.id
                (λ g. record g {
                  description = description_in float_of raw;
                  is_active = active_in float_of raw;
                })
                w1 w2 (λ g. refl) (λ g. refl) table),
          inr (
              inr (
                refl,
                refl,
                (
                  d.id,
                  refl,
                  subst (λ id. Rewritten float_of raw id (tables w1) (tables w2))
                      (found_key (λ (x : TrainingCourse). x.id) d.id w1.courses e there) rewritten,
                ),
              )),
        )

  row-Applied :
      (seen : List (Text × ℕ)) (i : ℕ) (raw : Row) (c : ImportCounts) (w1 : World)
      (es : List CourseRowError)
      → row_errors float_of seen raw ≡ es
      → Agrees seen w w1
      → Applied float_of env w seen i raw c w1
  row-Applied seen i raw c w1 (e ∷ es) bad agrees = refused-Applied seen i raw c w1 e es bad agrees
  row-Applied seen i raw c w1 [] fine agrees =
      elim (Option-cases (get_course_by_code (code_of raw) w)) [
        | inl new ↦ created-Applied seen i raw c w1 fine new agrees
        | inr (d, old) ↦ updated-Applied seen i raw c w1 d fine old agrees
      ]

  plus-cons :
      (c : ImportCounts) (r : CourseRowResult) (rows : List CourseRowResult)
      → plus (plus c (r ∷ [])) rows ≡ plus c (r ∷ rows)
  plus-cons c r rows =
      counts_eq _ _ (add_if _ c.created (n_create rows)) (add_if _ c.updated (n_update rows))
        (add_if _ c.skipped (n_error rows))

  -- The rows are applied as the plan has them.
  abbrev AllApplied :
      ImportCounts → List CourseRowResult → Tables → Result ImportCounts × World → Type 0
  AllApplied c rows s q = (q.0 ≡ ok (plus c rows)) × Written float_of rows s (tables q.1)

  apply_rows-plan :
      (seen : List (Text × ℕ)) (i : ℕ) (rows : List Row) (c : ImportCounts) (w1 : World)
      → Agrees seen w w1
      → AllApplied c
          (plan_rows float_of w seen i rows)
          (tables w1)
          (apply_rows float_of env (plan_rows float_of w seen i rows) c w1)
  unfolding apply_rows plan_rows
  apply_rows-plan seen i [] c w1 agrees =
      (ap ok (counts_eq _ _ (omega arith) (omega arith) (omega arith)), refl)
  apply_rows-plan seen i (raw ∷ rows) c w1 agrees =
      let r = planned i raw (row_errors float_of seen raw) w in
      let rest = plan_rows float_of w (seen_after raw i seen) (suc i) rows in
      let (out, now_agrees, step) =
        row-Applied seen i raw c w1 (row_errors float_of seen raw) refl agrees in
      let w2 = (apply_row float_of env r c w1).1 in
      let (more, written) =
        apply_rows-plan (seen_after raw i seen) (suc i) rows (plus c (r ∷ [])) w2 now_agrees in
      subst (AllApplied c (r ∷ rest) (tables w1))
        (sym (
          bind_ok (apply_row float_of env r c) (apply_rows float_of env rest) (plus c (r ∷ [])) w1
            out))
        (more ∙ ap ok (plus-cons c r rest), (tables w2, step, written))

-- An import of courses that is applied to the tables for which it was planned does what the plan announced,
-- whatever the file says: it does not raise, counts as many created, updated and skipped rows as the plan
-- has rows to create, to update and with an error, and writes the rows one after the other. A row to create
-- adds one course with its code and description and a first version; a row to update gives the course that
-- the plan has found its description and state and one version more, the next and active one; a row with an
-- error writes nothing.
pub apply_courses_plan-plan_courses_import :
    (float_of : Text → Option Float) (env : Env) (file : Option (List Row)) (w : World)
    → let plan = plan_courses_import float_of file w in
      let (out, w') = apply_courses_plan float_of env plan w in
      (out
        ≡ ok (record { created = n_create plan; updated = n_update plan; skipped = n_error plan }))
      × Written float_of plan (tables w) (tables w')
unfolding apply_courses_plan plan_courses_import apply_rows
apply_courses_plan-plan_courses_import float_of env none w =
    (refl, (tables w, inl (refl, refl), refl))
apply_courses_plan-plan_courses_import float_of env (some rows) w =
    let (out, written) =
      apply_rows-plan float_of env w [] 2 rows (record { created = 0; updated = 0; skipped = 0 }) w
        (λ k. inr refl, λ id. or_not (has_id id w.courses)) in
    (out ∙ ap ok (counts_eq _ _ (omega arith) (omega arith) (omega arith)), written)
