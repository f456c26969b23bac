-- ===== src/Models/Training.antt =====
-- app/models/training.py
use qms_bakery.Prelude.{ℕ, Bool, true, false, Option, List}
use qms_bakery.Prelude.Text.{Text}
use qms_bakery.Json.{Fields}

pub data EnrolmentStatus : Type 0 where
  issued started submitted expired withdrawn : EnrolmentStatus

pub data EnrolmentSource : Type 0 where
  schedule trigger manual : EnrolmentSource

pub data NotificationChannel : Type 0 where
  sms email both : NotificationChannel

pub record Trainee : Type 0 where
  pub id : ℕ
  pub employee_number : Option Text
  pub phone : Text
  pub email : Option Text
  pub full_name : Text
  pub role_code : Text
  pub line_id : Option ℕ
  pub language : Text
  pub is_active : Bool
  pub notification_channel : NotificationChannel
  pub updated_at : ℕ

-- Null in a column matches any trainee.
pub record TrainingAssignment : Type 0 where
  pub role_code : Option Text
  pub line_id : Option ℕ

pub record TrainingAnswerOption : Type 0 where
  pub id : ℕ
  pub is_correct : Bool

pub record TrainingQuestion : Type 0 where
  pub id : ℕ
  pub options : List TrainingAnswerOption

pub record TrainingCourse : Type 0 where
  pub id : ℕ
  pub code : Text
  pub description : Option Text
  pub is_active : Bool
  pub assignments : List TrainingAssignment

-- `pass_threshold` is in thousandths: 700 for 0.7.
pub record TrainingCourseVersion : Type 0 where
  pub id : ℕ
  pub course_id : ℕ
  pub version : ℕ
  pub is_active : Bool
  pub title : Fields
  pub summary : Fields
  pub pass_threshold : ℕ
  pub validity_months : ℕ
  pub link_ttl_days : ℕ
  pub exam_time_limit_seconds : Option ℕ
  pub modules : ℕ
  pub questions : List TrainingQuestion

pub record TrainingEnrolment : Type 0 where
  pub id : ℕ
  pub trainee_id : ℕ
  pub course_version_id : ℕ
  pub magic_token : Text
  pub issued_at : ℕ
  pub expires_at : ℕ
  pub status : EnrolmentStatus
  pub source : EnrolmentSource
  pub source_ref : Option Text
  pub module_progress : ℕ
  pub reminder_3d_sent_at : Option ℕ
  pub reminder_7d_sent_at : Option ℕ
  pub reminder_final_sent_at : Option ℕ

-- One entry of the frozen response snapshot.
pub record Answer : Type 0 where
  pub question_id : ℕ
  pub selected_option_ids : List ℕ
  pub is_correct : Bool

-- `score` is the number of right answers; the snapshot's length is what divides it.
pub record TrainingAttempt : Type 0 where
  pub id : ℕ
  pub enrolment_id : ℕ
  pub started_at : ℕ
  pub submitted_at : Option ℕ
  pub score : Option ℕ
  pub passed : Option Bool
  pub payload : List Answer

pub record TrainingDeclaration : Type 0 where
  pub id : ℕ
  pub attempt_id : ℕ
  pub typed_name : Text
  pub signature_png : Option Text
  pub declaration_text : Text
  pub ip_address : Option Text
  pub user_agent : Option Text
  pub signed_at : ℕ

pub record TrainingCertification : Type 0 where
  pub id : ℕ
  pub trainee_id : ℕ
  pub course_id : ℕ
  pub course_version_id : ℕ
  pub attempt_id : ℕ
  pub declaration_id : ℕ
  pub valid_from : ℕ
  pub valid_until : ℕ
  pub revoked_at : Option ℕ

-- `status in (ISSUED, STARTED)`
abbrev pub in_open_states : EnrolmentStatus → Bool
in_open_states issued = true
in_open_states started = true
in_open_states _ = false
