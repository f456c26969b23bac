-- ===== src/Training/Catalogue.antt =====
-- app/services/training.py: trainees, courses and their versions.
pub mod Versions
use qms_bakery.Prelude.{
  ℕ, suc, ◌+◌, Bool, true, false, not, ◌&&◌, ◌||◌, Option, none, some, List, [], ◌∷◌, ◌++◌, map,
  any, keep, ltb, ◌==◌, if◌then◌else◌, is_some, get_or,
}
use qms_bakery.Prelude.Text.{Text, codes, text_eq, option_text_eq, is_blank, strip, or_none}
use qms_bakery.Prelude.Int.{pos}
use qms_bakery.Json.{Json, Fields, end, field, str}
use qms_bakery.Models.Audit.{AuditAction, EntityType}
use qms_bakery.Models.Training.{Trainee, NotificationChannel, TrainingCourse, TrainingCourseVersion}
use qms_bakery.World.{
  Env, World, now, Session, Result, ok, err, Error, pure, gets, raise_if, modify, gen_uuid, ◌>>=◌,
  ◌>>◌,
}
use qms_bakery.Audit.{record_entry}
use qms_bakery.Training.Queries.{get_course_by_code}

-- The keyword arguments of `create_trainee`. The channel is one of the enumeration's values.
pub record NewTrainee : Type 0 where
  pub phone : Text
  pub full_name : Text
  pub role_code : Text
  pub line_id : Option ℕ
  pub language : Text
  pub email : Option Text
  pub notification_channel : NotificationChannel
  pub employee_number : Option Text

abbrev nonblank : Option Text → Option Text
nonblank none = none
nonblank (some t) = or_none t

-- `employee_number.strip() or None`, where it is truthy.
abbrev pub trimmed : Option Text → Option Text
trimmed none = none
trimmed (some t) = or_none (strip t)

abbrev pub number_taken : Option Text → World → Bool
number_taken none w = false
number_taken (some n) w = any (λ t. option_text_eq t.employee_number (some n)) w.trainees

abbrev pub new_trainee : Env → NewTrainee → ℕ → Trainee
new_trainee env n id = record {
  id = id;
  employee_number = trimmed n.employee_number;
  phone = n.phone;
  email = nonblank n.email;
  full_name = n.full_name;
  role_code = n.role_code;
  line_id = n.line_id;
  language = n.language;
  is_active = true;
  notification_channel = n.notification_channel;
  updated_at = now env;
}

-- `create_trainee`
unfoldable pub create_trainee : Env → NewTrainee → Session Trainee
create_trainee env n = do
  raise_if (is_blank n.phone || is_blank n.full_name || is_blank n.role_code) Error.required_fields
  phones ← gets (λ w. map (λ (t : Trainee). t.phone) w.trainees)
  raise_if (any (text_eq n.phone) phones) Error.phone_registered
  taken ← gets (number_taken (trimmed n.employee_number))
  raise_if taken Error.employee_number_registered
  id ← gen_uuid
  let t = new_trainee env n id
  modify (λ w. record w { trainees = w.trainees ++ t ∷ [] })
  modify (
      record_entry env EntityType.trainee (some id) AuditAction.create
        (field (codes "role_code") (str n.role_code) end) none)
  pure t

-- `create_course`
unfoldable pub create_course : Env → Text → Option Text → Session TrainingCourse
create_course env code description = do
  existing ← gets (get_course_by_code code)
  raise_if (is_some existing) Error.course_exists
  id ← gen_uuid
  let c : TrainingCourse = record {
    id = id;
    code = code;
    description = description;
    is_active = true;
    assignments = [];
  }
  modify (λ w. record w { courses = w.courses ++ c ∷ [] })
  modify (
      record_entry env EntityType.training_course (some id) AuditAction.create
        (field (codes "code") (str code) end) none)
  pure c

-- The optional arguments of `add_course_version`.
pub record NewVersion : Type 0 where
  pub title : Fields
  pub summary : Option Fields
  pub pass_threshold : Option ℕ
  pub validity_months : Option ℕ
  pub link_ttl_days : Option ℕ
  pub exam_time_limit_seconds : Option ℕ

-- `validity_months or 12`
abbrev months_or_12 : Option ℕ → ℕ
months_or_12 none = 12
months_or_12 (some ℕ.zero) = 12
months_or_12 (some (ℕ.suc n)) = suc n

abbrev no_summary : Fields
no_summary = field (codes "pl") (str []) (field (codes "en") (str []) end)

abbrev summary_or : Option Fields → Fields
summary_or none = no_summary
summary_or (some end) = no_summary
summary_or (some (field k v d)) = field k v d

-- `max((v.version for v in course.versions), default=0)`
abbrev pub top_version : ℕ → List TrainingCourseVersion → ℕ
top_version course [] = 0
top_version course (v ∷ vs) =
    let rest = top_version course vs in
    if v.course_id == course then (if ltb rest v.version then v.version else rest) else rest

abbrev pub retire : ℕ → TrainingCourseVersion → TrainingCourseVersion
retire course v = record v { is_active = if v.course_id == course then false else v.is_active }

abbrev pub new_version : Env → ℕ → NewVersion → ℕ → ℕ → TrainingCourseVersion
new_version env course n number id = record {
  id = id;
  course_id = course;
  version = number;
  is_active = true;
  title = n.title;
  summary = summary_or n.summary;
  pass_threshold = get_or n.pass_threshold env.config.default_pass_threshold;
  validity_months = months_or_12 n.validity_months;
  link_ttl_days = get_or n.link_ttl_days env.config.default_link_ttl_days;
  exam_time_limit_seconds = n.exam_time_limit_seconds;
  modules = 0;
  questions = [];
}

-- `add_course_version`
unfoldable pub add_course_version :
    Env → TrainingCourse → NewVersion → Session TrainingCourseVersion
add_course_version env course n = do
  number ← gets (λ w. 1 + top_version course.id w.versions)
  id ← gen_uuid
  let v = new_version env course.id n number id
  modify (λ w. record w { versions = map (retire course.id) w.versions ++ v ∷ [] })
  modify (
      record_entry env EntityType.training_course (some course.id) AuditAction.create_version
        (field (codes "version") (Json.num (pos number)) end) none)
  pure v
