-- ===== src/Training/Csv/Tests.antt =====
-- A file with a new course, the course of the school, and a row without a title; a file with a new trainee,
-- the trainee of the school, and two rows that are refused.
use qms_bakery.Prelude.{◌≡◌, refl, Option, none, some, List, [], ◌∷◌, if◌then◌else◌}
use qms_bakery.Prelude.Int.{pos}
use qms_bakery.Prelude.Text.{Text, codes, text_eq, strip, lstrip, is_space}
use qms_bakery.Prelude.Decimal.{int_of, read_digits}
use qms_bakery.Samples.{env}
use qms_bakery.World.{World, ok}
use qms_bakery.Training.Samples.{school, hygiene, jan}
use qms_bakery.Training.Csv.{Row, Float, finite, ImportCounts, is_true_word}
use qms_bakery.Training.Csv.Courses.{
  n_create, n_update, n_error, row_errors, plan_rows, plan_courses_import, apply_courses_plan,
}
use qms_bakery.Training.Csv.Trainees.{
  created_rows, updated_rows, refused_rows, trainee_errors, plan_trainees, plan_trainees_import,
}
use qms_bakery.Training.Csv.Enlist.{apply_trainees_plan}
use qms_bakery.Training.Csv.Versioned
use qms_bakery.Training.Csv.Versioned.{tables}
use qms_bakery.Training.Csv.Written.{Written}
use qms_bakery.Training.Csv.Joined.{apply_trainees_plan-plan_trainees_import}
use qms_bakery.Training.Csv.Faithful.{apply_courses_plan-plan_courses_import}

-- Reads the default threshold.
abbrev float_of : Text → Option Float
float_of s = if text_eq s (codes "0.7") then some (finite (pos 700)) else none

abbrev row : Text → Text → Row
row code title =
    (codes "code", code)
    ∷ (codes "title_pl", title)
    ∷ (codes "title_en", title)
    ∷ (codes "pass_threshold", [])
    ∷ []

abbrev file : List Row
file =
    row (codes "ALLERGENS") (codes "Allergens")
    ∷ row hygiene.code (codes "Hygiene")
    ∷ row (codes "FIRE") []
    ∷ row (codes "ALLERGENS") (codes "Allergens")
    ∷ []

abbrev announced : ImportCounts
announced =
    let plan = plan_courses_import float_of (some file) school in
    record { created = n_create plan; updated = n_update plan; skipped = n_error plan }

announced_lem : announced ≡ record { created = 1; updated = 1; skipped = 2 }
unfolding plan_courses_import plan_rows row_errors int_of read_digits strip lstrip is_space
announced_lem = refl

apply_courses_plan-plan_courses_import_example :
    let plan = plan_courses_import float_of (some file) school in
    let (out, w') = apply_courses_plan float_of env plan school in
    (out ≡ ok (record { created = n_create plan; updated = n_update plan; skipped = n_error plan }))
    × Versioned.Written float_of plan (tables school) (tables w')
apply_courses_plan-plan_courses_import_example =
    apply_courses_plan-plan_courses_import float_of env (some file) school

abbrev trainee_row : Text → Text → Text → Row
trainee_row number phone name =
    (codes "employee_number", number)
    ∷ (codes "phone", phone)
    ∷ (codes "full_name", name)
    ∷ (codes "role_code", codes "operator")
    ∷ []

-- The school, where Jan has a number.
abbrev staffed : World
staffed = record school { trainees = record jan { employee_number = some (codes "EMP-005") } ∷ [] }

abbrev crew : List Row
crew =
    trainee_row (codes "EMP-001") (codes "+447700000001") (codes "Anna")
    ∷ trainee_row (codes "EMP-005") (codes "+447700000005") (codes "Jan")
    ∷ trainee_row (codes "EMP-002") (codes "+48600100200") (codes "Ola")
    ∷ trainee_row (codes "EMP-001") (codes "+447700000002") (codes "Anna")
    ∷ []

abbrev crew_announced : ImportCounts
crew_announced =
    let plan = plan_trainees_import (some crew) staffed in
    record { created = created_rows plan; updated = updated_rows plan; skipped = refused_rows plan }

-- The phone that the second row frees is still refused to the third.
crew_announced_lem : crew_announced ≡ record { created = 1; updated = 1; skipped = 2 }
unfolding plan_trainees_import plan_trainees trainee_errors strip lstrip is_space is_true_word
crew_announced_lem = refl

apply_trainees_plan-plan_trainees_import_example :
    let plan = plan_trainees_import (some crew) staffed in
    let (out, w') = apply_trainees_plan env plan staffed in
    (out
      ≡ ok (record {
        created = created_rows plan;
        updated = updated_rows plan;
        skipped = refused_rows plan;
      }))
    × Written plan staffed.trainees w'.trainees
apply_trainees_plan-plan_trainees_import_example =
    apply_trainees_plan-plan_trainees_import env (some crew) staffed
