-- ===== src/Training/Bulk.antt =====
-- app/services/training.py, `plan_bulk_issue` and `apply_bulk_issue`: links for a list of trainees.
pub mod Planned
mod Tests
use qms_bakery.Prelude.{
  ℕ, suc, ◌+◌, Bool, true, false, not, ◌&&◌, Option, none, some, List, [], ◌∷◌, ◌++◌, map, keep,
  find, count_if, ltb, ◌==◌, if◌then◌else◌,
}
use qms_bakery.Prelude.Text.{Text, codes}
use qms_bakery.Models.Training.{
  Trainee, TrainingCourse, TrainingCourseVersion, TrainingEnrolment, EnrolmentSource,
}
use qms_bakery.World.{Env, World, Result, ok, err}
use qms_bakery.Training.Queries.{active_version, find_trainee, is_open_for}
use qms_bakery.Training.Enrol.{enrol}

pub data BulkAction : Type 0 where
  issue skip_in_flight skip_no_version error : BulkAction

-- The text of a note: "", "course has no active version", "trainee … not found" or "active until …".
pub data BulkNote : Type 0 where
  no_note no_version : BulkNote
  not_found active_until : ℕ → BulkNote

pub record BulkIssueRow : Type 0 where
  pub trainee : Option Trainee
  pub action : BulkAction
  pub note : BulkNote

abbrev pub is_issue : BulkAction → Bool
is_issue issue = true
is_issue _ = false

abbrev pub is_skip : BulkAction → Bool
is_skip skip_in_flight = true
is_skip skip_no_version = true
is_skip _ = false

abbrev pub is_error : BulkAction → Bool
is_error error = true
is_error _ = false

-- `BulkIssuePlan.n_issue`, `n_skip` and `n_error`
abbrev pub n_issue : List BulkIssueRow → ℕ
n_issue rows = count_if (λ (r : BulkIssueRow). is_issue r.action) rows

abbrev pub n_skip : List BulkIssueRow → ℕ
n_skip rows = count_if (λ (r : BulkIssueRow). is_skip r.action) rows

abbrev pub n_error : List BulkIssueRow → ℕ
n_error rows = count_if (λ (r : BulkIssueRow). is_error r.action) rows

abbrev ends_last : TrainingEnrolment → Option TrainingEnrolment → TrainingEnrolment
ends_last e none = e
ends_last e (some d) = if ltb e.expires_at d.expires_at then d else e

-- `ORDER BY expires_at DESC LIMIT 1`
abbrev last_to_end : List TrainingEnrolment → Option TrainingEnrolment
last_to_end [] = none
last_to_end (e ∷ es) = some (ends_last e (last_to_end es))

-- The live enrolment of a trainee for the course.
unfoldable pub existing : Env → ℕ → ℕ → World → Option TrainingEnrolment
existing env trainee course w = last_to_end (keep (is_open_for env trainee course w) w.enrolments)

abbrev pub found_row : Trainee → Option TrainingEnrolment → BulkIssueRow
found_row t none = record { trainee = some t; action = issue; note = no_note }
found_row t (some e) = record {
  trainee = some t;
  action = skip_in_flight;
  note = active_until e.expires_at;
}

abbrev pub live_row : Env → ℕ → World → ℕ → Option Trainee → BulkIssueRow
live_row env course w id none = record { trainee = none; action = error; note = not_found id }
live_row env course w id (some t) = found_row t (existing env t.id course w)

abbrev pub stale_row : World → ℕ → BulkIssueRow
stale_row w id = record { trainee = find_trainee id w; action = skip_no_version; note = no_version }

abbrev pub rows_for : Env → List ℕ → ℕ → World → Option TrainingCourseVersion → List BulkIssueRow
rows_for env ids course w none = map (stale_row w) ids
rows_for env ids course w (some v) = map (λ id. live_row env course w id (find_trainee id w)) ids

-- `plan_bulk_issue`
unfoldable pub plan_bulk_issue : Env → List ℕ → TrainingCourse → World → List BulkIssueRow
plan_bulk_issue env ids course w = rows_for env ids course.id w (active_version course.id w)

-- The dict that `apply_bulk_issue` returns.
pub record BulkCounts : Type 0 where
  pub issued : ℕ
  pub skipped : ℕ
  pub errors : ℕ

abbrev pub bulk_ref : Env → Option ℕ → Text
bulk_ref env none = codes "bulk:unknown"
bulk_ref env (some user) = codes "bulk:" ++ env.uuid user

abbrev pub counted : Result TrainingEnrolment → BulkCounts → BulkCounts
counted (ok e) c = record c { issued = c.issued + 1 }
counted (err e) c = record c { errors = c.errors + 1 }

abbrev skipped_one : BulkCounts → BulkCounts
skipped_one c = record c { skipped = c.skipped + 1 }

abbrev pub issue_one :
    Env
    → TrainingCourse
    → Option Text
    → Option Text
    → Trainee
    → BulkCounts
    → World
    → BulkCounts × World
issue_one env course ref base t c w =
    let (r, w') = enrol env t course EnrolmentSource.manual ref base w in (counted r c, w')

abbrev pub apply_row :
    Env
    → TrainingCourse
    → Option Text
    → Option Text
    → BulkAction
    → Option Trainee
    → BulkCounts
    → World
    → BulkCounts × World
apply_row env course ref base issue (some t) c w = issue_one env course ref base t c w
apply_row env course ref base issue none c w = (skipped_one c, w)
apply_row env course ref base skip_in_flight t c w = (skipped_one c, w)
apply_row env course ref base skip_no_version t c w = (skipped_one c, w)
apply_row env course ref base error t c w = (skipped_one c, w)

unfoldable pub apply_rows :
    Env
    → TrainingCourse
    → Option Text
    → Option Text
    → List BulkIssueRow
    → BulkCounts
    → World
    → BulkCounts × World
apply_rows env course ref base [] c w = (c, w)
apply_rows env course ref base (r ∷ rs) c w =
    let (c', w') = apply_row env course ref base r.action r.trainee c w in
    apply_rows env course ref base rs c' w'

abbrev pub no_counts : BulkCounts
no_counts = record { issued = 0; skipped = 0; errors = 0 }

-- `apply_bulk_issue`
unfoldable pub apply_bulk_issue :
    Env → List BulkIssueRow → TrainingCourse → Option Text → Option ℕ → World → BulkCounts × World
apply_bulk_issue env rows course base by_user w =
    apply_rows env course (some (bulk_ref env by_user)) base rows no_counts w
