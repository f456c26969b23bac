-- ===== src/Training/Matrix/Tests.antt =====
-- The dashboard of the sample plant.
use qms_bakery.Prelude.{◌≡◌, none, some, [], ◌∷◌, true}
use qms_bakery.World.{World}
use qms_bakery.Training.Matrix.{
  MatrixFilter, build_compliance_matrix, matrix_for, shown_courses, shown_trainees,
}
use qms_bakery.Training.Matrix.Cells.{queried_cell}
use qms_bakery.Training.Matrix.Queried.{build_compliance_matrix-queried}
use qms_bakery.Samples.{env}
use qms_bakery.Training.Samples.{jan, school, link}

abbrev on_line_1 : MatrixFilter
on_line_1 = record {
  line_id = some 1;
  role_code = none;
  line_ids = [];
  role_codes = [];
  blocked_only = true;
}

-- Two trainees, of whom the first has an open link.
abbrev shift : World
shift = record school { trainees = jan ∷ record jan { id = 4 } ∷ []; enrolments = link ∷ [] }

build_compliance_matrix-queried_example :
    build_compliance_matrix env on_line_1 shift
    ≡ matrix_for true
        (queried_cell env shift)
        (shown_courses shift)
        (shown_trainees on_line_1 shift)
build_compliance_matrix-queried_example = build_compliance_matrix-queried env on_line_1 shift
