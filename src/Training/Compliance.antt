-- ===== src/Training/Compliance.antt =====
-- app/services/training.py, `compliance_state`, and who `trainees_due_for_course` selects.
pub mod Due
use qms_bakery.Prelude.{
  ◌≡◌, refl, ◌↔◌, Bool, true, false, not, ◌&&◌, ◌||◌, Option, none, some, if◌then◌else◌, arith, leb,
  ltb, Bool-cases, Option-cases, inl, inr,
}
use qms_bakery.Models.Training.{Trainee, TrainingCourse, TrainingCertification}
use qms_bakery.World.{Env, World, now}
use qms_bakery.Training.Queries.{
  is_past, in_lead_window, is_due_for_recert, has_open_enrolment, latest_certification,
}

pub data ComplianceState : Type 0 where
  not_required extra valid due_soon in_flight overdue : ComplianceState

-- `_BLOCKING_STATES`
abbrev pub is_blocking : ComplianceState → Bool
is_blocking overdue = true
is_blocking _ = false

abbrev required_state : Env → Option TrainingCertification → ComplianceState
required_state env none = overdue
required_state env (some c) =
    if is_past env c.valid_until then overdue else if in_lead_window env c then due_soon else valid

abbrev pub cert_valid : Env → Option TrainingCertification → Bool
cert_valid env none = false
cert_valid env (some c) = not (is_past env c.valid_until)

-- `compliance_state`
pub compliance_state : Env → Bool → Option TrainingCertification → Bool → ComplianceState
compliance_state env is_required cert has_in_flight =
    if has_in_flight
    then in_flight
    else if not is_required
    then (if cert_valid env cert then extra else not_required)
    else required_state env cert

-- The cell that wants a new link.
abbrev pub wants_link : ComplianceState → Bool
wants_link due_soon = true
wants_link overdue = true
wants_link _ = false

-- The scheduler and the dashboard agree: `is_due_for_recert` holds exactly where the cell of a
-- required course is DUE_SOON or OVERDUE.
pub is_due-compliance_state :
    (env : Env) (t : Trainee) (course : TrainingCourse) (w : World)
    → is_due_for_recert env t course w
      ≡ wants_link (
          compliance_state env true
            (latest_certification t.id course.id w)
            (has_open_enrolment env t.id course.id w))
unfolding is_due_for_recert compliance_state
is_due-compliance_state env t course w =
    elim (Bool-cases (has_open_enrolment env t.id course.id w)) [
      | inl opened ↦ rw opened refl
      | inr closed ↦ elim (Option-cases (latest_certification t.id course.id w)) [
        | inl none_yet ↦ rw (closed, none_yet) refl
        | inr (c, found) ↦ rw (closed, found) (ground arith)
      ]
    ]

-- A worker is kept from work by a required course exactly when no enrolment is open and no
-- certificate is still valid.
pub compliance_state-blocking :
    (env : Env) (cert : Option TrainingCertification) (has_in_flight : Bool)
    → is_blocking (compliance_state env true cert has_in_flight)
      ≡ (not has_in_flight && not (cert_valid env cert))
unfolding compliance_state
compliance_state-blocking env cert has_in_flight = ground arith
