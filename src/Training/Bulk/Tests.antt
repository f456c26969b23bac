-- ===== src/Training/Bulk/Tests.antt =====
-- Links for two trainees, of whom one is not there.
use qms_bakery.Prelude.{none, some, [], ◌∷◌}
use qms_bakery.Training.Bulk.{plan_bulk_issue, apply_bulk_issue}
use qms_bakery.Training.Bulk.Planned.{Finished, apply_bulk_issue-plan}
use qms_bakery.Samples.{env}
use qms_bakery.Training.Samples.{hygiene, school}

apply_bulk_issue-plan_example : Finished (plan_bulk_issue env (5 ∷ 77 ∷ []) hygiene school) school (
    apply_bulk_issue env
      (plan_bulk_issue env (5 ∷ 77 ∷ []) hygiene school)
      hygiene
      none
      (some 1)
      school)
apply_bulk_issue-plan_example = apply_bulk_issue-plan env (5 ∷ 77 ∷ []) hygiene none (some 1) school
