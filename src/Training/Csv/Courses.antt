-- ===== src/Training/Csv/Courses.antt =====
-- app/services/training_csv.py: `plan_courses_import` and `apply_courses_plan`.
use qms_bakery.Prelude.{
  ℕ, suc, Bool, true, false, not, ◌&&◌, Option, none, some, List, [], ◌∷◌, ◌++◌, map, find,
  count_if, leb, ◌==◌, if◌then◌else◌,
}
use qms_bakery.Prelude.Int.{ℤ, pos, negsuc}
use qms_bakery.Prelude.Text.{Text, codes, text_eq, is_blank, strip, or_none}
use qms_bakery.Prelude.Decimal.{int_of}
use qms_bakery.Json.{Fields, end, field, str}
use qms_bakery.Models.Training.{TrainingCourse}
use qms_bakery.World.{Env, World, Session, pure, gets, modify, ◌>>=◌, ◌>>◌}
use qms_bakery.Training.Queries.{get_course_by_code}
use qms_bakery.Training.Catalogue.{NewVersion, create_course, add_course_version}
use qms_bakery.Training.Csv.{
  Row, column, or_text, is_true_word, Float, finite, not_finite, ImportAction, skip, create, update,
  ImportCounts,
}

pub data CourseRowError : Type 0 where
  file_not_utf8 code_required title_pl_required title_en_required : CourseRowError
  threshold_range threshold_text months_range months_text days_range days_text : CourseRowError
  duplicate_code : ℕ → CourseRowError

pub record CourseRowResult : Type 0 where
  pub line_no : ℕ
  pub raw : Row
  pub action : ImportAction
  pub errors : List CourseRowError
  pub matched_course_id : Option ℕ

abbrev pub no_errors : List CourseRowError → Bool
no_errors [] = true
no_errors (_ ∷ _) = false

abbrev is_create : ImportAction → Bool
is_create create = true
is_create _ = false

abbrev is_update : ImportAction → Bool
is_update update = true
is_update _ = false

-- `n_create`, `n_update` and `n_error`
abbrev pub n_create : List CourseRowResult → ℕ
n_create rows = count_if (λ (r : CourseRowResult). is_create r.action && no_errors r.errors) rows

abbrev pub n_update : List CourseRowResult → ℕ
n_update rows = count_if (λ (r : CourseRowResult). is_update r.action && no_errors r.errors) rows

abbrev pub n_error : List CourseRowResult → ℕ
n_error rows = count_if (λ (r : CourseRowResult). not (no_errors r.errors)) rows

-- `if test: errors.append(e)`
abbrev pub when : Bool → CourseRowError → List CourseRowError
when test e = if test then e ∷ [] else []

abbrev threshold_errors : Option Float → List CourseRowError
threshold_errors none = threshold_text ∷ []
threshold_errors (some not_finite) = threshold_range ∷ []
threshold_errors (some (finite (negsuc n))) = threshold_range ∷ []
threshold_errors (some (finite (pos n))) = when (not (leb n 1000)) threshold_range

-- An integer that has to lie from 1 to `top`.
abbrev number_errors : ℕ → CourseRowError → CourseRowError → Option ℤ → List CourseRowError
number_errors top range text none = text ∷ []
number_errors top range text (some (negsuc n)) = range ∷ []
number_errors top range text (some (pos n)) = when (not (leb 1 n && leb n top)) range

abbrev pub first_line : Text → List (Text × ℕ) → Option ℕ
first_line code [] = none
first_line code ((c, i) ∷ seen) =
    let rest = first_line code seen in if text_eq c code then some i else rest

abbrev pub duplicate_errors : Option ℕ → List CourseRowError
duplicate_errors none = []
duplicate_errors (some i) = duplicate_code i ∷ []

abbrev pub code_of : Row → Text
code_of raw = strip (column (codes "code") raw)

-- `seen_codes` after a row.
abbrev pub seen_after : Row → ℕ → List (Text × ℕ) → List (Text × ℕ)
seen_after raw i seen = if is_blank (code_of raw) then seen else seen ++ (code_of raw, i) ∷ []

abbrev matched : ℕ → Row → Option TrainingCourse → CourseRowResult
matched i raw none = record {
  line_no = i;
  raw = raw;
  action = create;
  errors = [];
  matched_course_id = none;
}
matched i raw (some c) = record {
  line_no = i;
  raw = raw;
  action = update;
  errors = [];
  matched_course_id = some c.id;
}

abbrev pub planned : ℕ → Row → List CourseRowError → World → CourseRowResult
planned i raw [] w = matched i raw (get_course_by_code (code_of raw) w)
planned i raw (e ∷ es) w = record {
  line_no = i;
  raw = raw;
  action = skip;
  errors = e ∷ es;
  matched_course_id = none;
}

-- Sets attributes of the row with a key.
abbrev pub set_course : ℕ → (TrainingCourse → TrainingCourse) → World → World
set_course id f w = record w { courses = map (λ d. if d.id == id then f d else d) w.courses }

module _ (float_of : Text → Option Float) where
  abbrev pub threshold_of : Row → Option Float
  threshold_of raw = float_of (or_text (column (codes "pass_threshold") raw) (codes "0.7"))

  abbrev pub months_of : Row → Option ℤ
  months_of raw = int_of (or_text (column (codes "validity_months") raw) (codes "12"))

  abbrev pub days_of : Row → Option ℤ
  days_of raw = int_of (or_text (column (codes "link_ttl_days") raw) (codes "7"))

  abbrev pub form_errors : Row → List CourseRowError
  form_errors raw =
      when (is_blank (code_of raw)) code_required
      ++ when (is_blank (strip (column (codes "title_pl") raw))) title_pl_required
      ++ when (is_blank (strip (column (codes "title_en") raw))) title_en_required
      ++ threshold_errors (threshold_of raw)
      ++ number_errors 120 months_range months_text (months_of raw)
      ++ number_errors 90 days_range days_text (days_of raw)

  unfoldable pub row_errors : List (Text × ℕ) → Row → List CourseRowError
  row_errors seen raw =
      form_errors raw
      ++ (if is_blank (code_of raw) then [] else duplicate_errors (first_line (code_of raw) seen))

  unfoldable pub plan_rows : World → List (Text × ℕ) → ℕ → List Row → List CourseRowResult
  plan_rows w seen i [] = []
  plan_rows w seen i (raw ∷ rows) =
      planned i raw (row_errors seen raw) w ∷ plan_rows w (seen_after raw i seen) (suc i) rows

  -- `plan_courses_import`, of the rows of the file, or of a file that is not UTF-8.
  unfoldable pub plan_courses_import : Option (List Row) → World → List CourseRowResult
  plan_courses_import none w =
      record {
        line_no = 0;
        raw = [];
        action = skip;
        errors = file_not_utf8 ∷ [];
        matched_course_id = none;
      }
      ∷ []
  plan_courses_import (some rows) w = plan_rows w [] 2 rows

  abbrev in_thousandths : Option Float → Option ℕ
  in_thousandths (some (finite (pos n))) = some n
  in_thousandths _ = none

  abbrev natural : Option ℤ → Option ℕ
  natural (some (pos n)) = some n
  natural _ = none

  abbrev two_texts : Text → Text → Fields
  two_texts pl en = field (codes "pl") (str pl) (field (codes "en") (str en) end)

  abbrev pub version_of : Row → NewVersion
  version_of raw = record {
    title =
        two_texts (strip (column (codes "title_pl") raw)) (strip (column (codes "title_en") raw));
    summary = some (
        two_texts (strip (column (codes "summary_pl") raw))
          (strip (column (codes "summary_en") raw)));
    pass_threshold = in_thousandths (threshold_of raw);
    validity_months = natural (months_of raw);
    link_ttl_days = natural (days_of raw);
    exam_time_limit_seconds = none;
  }

  abbrev pub active_in : Row → Bool
  active_in raw = is_true_word (or_text (column (codes "is_active") raw) (codes "true"))

  abbrev pub description_in : Row → Option Text
  description_in raw = or_none (strip (column (codes "description") raw))

  abbrev pub activate : Row → ImportCounts → TrainingCourse → Session ImportCounts
  activate raw c course = do
    modify (set_course course.id (λ d. record d { is_active = active_in raw }))
    pure (record c { created = suc c.created })

  abbrev pub with_version : Env → Row → ImportCounts → TrainingCourse → Session ImportCounts
  with_version env raw c course = do
    _ ← add_course_version env course (version_of raw)
    activate raw c course

  abbrev pub create_from : Env → Row → ImportCounts → Session ImportCounts
  create_from env raw c = do
    course ← create_course env (code_of raw) (description_in raw)
    with_version env raw c course

  abbrev pub update_from : Env → Row → ImportCounts → Option TrainingCourse → Session ImportCounts
  update_from env raw c none = pure (record c { skipped = suc c.skipped })
  update_from env raw c (some course) = do
    modify (
        set_course course.id
          (λ d. record d { description = description_in raw; is_active = active_in raw }))
    _ ← add_course_version env course (version_of raw)
    pure (record c { updated = suc c.updated })

  abbrev pub course_with : Option ℕ → World → Option TrainingCourse
  course_with none w = none
  course_with (some id) w = find (λ (d : TrainingCourse). d.id == id) w.courses

  abbrev pub apply_row : Env → CourseRowResult → ImportCounts → Session ImportCounts
  apply_row env r c =
      if not (no_errors r.errors)
      then pure (record c { skipped = suc c.skipped })
      else if is_create r.action
      then create_from env r.raw c
      else gets (course_with r.matched_course_id) >>= update_from env r.raw c

  unfoldable pub apply_rows : Env → List CourseRowResult → ImportCounts → Session ImportCounts
  apply_rows env [] c = pure c
  apply_rows env (r ∷ rows) c = apply_row env r c >>= apply_rows env rows

  -- `apply_courses_plan`
  unfoldable pub apply_courses_plan : Env → List CourseRowResult → Session ImportCounts
  apply_courses_plan env rows =
      apply_rows env rows (record { created = 0; updated = 0; skipped = 0 })
