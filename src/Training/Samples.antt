-- ===== src/Training/Samples.antt =====
-- A trainee, a course with one version, and a link at the sample plant.
use qms_bakery.Prelude.{true, false, none, some, [], ◌∷◌}
use qms_bakery.Prelude.Text.{codes}
use qms_bakery.Json.{end, field, str}
use qms_bakery.Models.Training.{
  Trainee, NotificationChannel, TrainingCourse, TrainingCourseVersion, TrainingEnrolment,
  EnrolmentSource, EnrolmentStatus,
}
use qms_bakery.World.{World}
use qms_bakery.Samples.{plant}

abbrev pub jan : Trainee
jan = record {
  id = 5;
  employee_number = none;
  phone = codes "+48600100200";
  email = none;
  full_name = codes "Jan";
  role_code = codes "operator";
  line_id = some 1;
  language = codes "pl";
  is_active = true;
  notification_channel = NotificationChannel.email;
  updated_at = 0;
}

abbrev pub hygiene : TrainingCourse
hygiene = record {
  id = 6;
  code = codes "HYG";
  description = none;
  is_active = true;
  assignments = record { role_code = some (codes "operator"); line_id = none } ∷ [];
}

abbrev pub first_version : TrainingCourseVersion
first_version = record {
  id = 7;
  course_id = 6;
  version = 1;
  is_active = true;
  title = field (codes "en") (str (codes "Hygiene")) end;
  summary = end;
  pass_threshold = 700;
  validity_months = 12;
  link_ttl_days = 7;
  exam_time_limit_seconds = none;
  modules = 1;
  questions =
      record {
        id = 8;
        options = record { id = 1; is_correct = true } ∷ record { id = 2; is_correct = false } ∷ [];
      }
      ∷ [];
}

abbrev pub school : World
school = record plant { trainees = jan ∷ []; courses = hygiene ∷ []; versions = first_version ∷ [] }

abbrev pub link : TrainingEnrolment
link = record {
  id = 9;
  trainee_id = 5;
  course_version_id = 7;
  magic_token = [];
  issued_at = 0;
  expires_at = 99999999999;
  status = EnrolmentStatus.issued;
  source = EnrolmentSource.manual;
  source_ref = none;
  module_progress = 0;
  reminder_3d_sent_at = none;
  reminder_7d_sent_at = none;
  reminder_final_sent_at = none;
}
