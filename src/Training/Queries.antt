-- ===== src/Training/Queries.antt =====
-- What app/services/training.py and `TrainingCourse.active_version` ask of the tables.
use qms_bakery.Prelude.{
  ℕ, ◌-◌, Bool, true, false, not, ◌&&◌, Option, none, some, List, [], ◌∷◌, find, keep, any, ltb,
  leb, ◌==◌, if◌then◌else◌, is_none,
}
use qms_bakery.Prelude.Dates.{days}
use qms_bakery.Prelude.Text.{Text, text_eq}
use qms_bakery.Models.Training.{
  Trainee, TrainingAssignment, TrainingCourse, TrainingCourseVersion, TrainingEnrolment,
  TrainingCertification, in_open_states,
}
use qms_bakery.World.{Env, World, now}

-- `_is_past`
abbrev pub is_past : Env → ℕ → Bool
is_past env t = leb t (now env)

abbrev pub higher : TrainingCourseVersion → Option TrainingCourseVersion → TrainingCourseVersion
higher v none = v
higher v (some u) = if ltb v.version u.version then u else v

abbrev pub highest : List TrainingCourseVersion → Option TrainingCourseVersion
highest [] = none
highest (v ∷ vs) = some (higher v (highest vs))

-- `TrainingCourse.active_version`
unfoldable pub active_version : ℕ → World → Option TrainingCourseVersion
active_version course w = highest (keep (λ v. (v.course_id == course) && v.is_active) w.versions)

abbrev pub find_version : ℕ → World → Option TrainingCourseVersion
find_version id w = find (λ v. v.id == id) w.versions

abbrev pub find_trainee : ℕ → World → Option Trainee
find_trainee id w = find (λ t. t.id == id) w.trainees

-- `get_course_by_code`
abbrev pub get_course_by_code : Text → World → Option TrainingCourse
get_course_by_code code w = find (λ c. text_eq c.code code) w.courses

abbrev role_matches : Option Text → Text → Bool
role_matches none code = true
role_matches (some r) code = text_eq r code

abbrev line_matches : Option ℕ → Option ℕ → Bool
line_matches none line = true
line_matches (some l) none = false
line_matches (some l) (some m) = l == m

-- `_assignment_matches`
abbrev pub assignment_matches : TrainingAssignment → Trainee → Bool
assignment_matches a t =
    if not (role_matches a.role_code t.role_code) then false else line_matches a.line_id t.line_id

abbrev pub later : TrainingCertification → Option TrainingCertification → TrainingCertification
later c none = c
later c (some d) = if ltb d.valid_until c.valid_until then c else d

abbrev pub latest : List TrainingCertification → Option TrainingCertification
latest [] = none
latest (c ∷ cs) = some (later c (latest cs))

-- `latest_certification`; of rows that end at one moment, the last one.
unfoldable pub latest_certification : ℕ → ℕ → World → Option TrainingCertification
latest_certification trainee course w = latest (
    keep (λ c. (c.trainee_id == trainee) && (c.course_id == course) && is_none c.revoked_at)
      w.certifications)

-- The version of an enrolment belongs to the course.
abbrev pub of_course : ℕ → World → TrainingEnrolment → Bool
of_course course w e =
    any (λ v. (v.id == e.course_version_id) && (v.course_id == course)) w.versions

-- An enrolment that `has_open_enrolment` selects.
abbrev pub is_open_for : Env → ℕ → ℕ → World → TrainingEnrolment → Bool
is_open_for env trainee course w e =
    of_course course w e
    && (e.trainee_id == trainee)
    && in_open_states e.status
    && ltb (now env) e.expires_at

-- `has_open_enrolment`
unfoldable pub has_open_enrolment : Env → ℕ → ℕ → World → Bool
has_open_enrolment env trainee course w = any (is_open_for env trainee course w) w.enrolments

-- `cert.valid_until - timedelta(days=lead_days)`, at a moment past the year 1.
abbrev lead_start : Env → TrainingCertification → ℕ
lead_start env c = c.valid_until - days env.config.recert_lead_days

abbrev pub in_lead_window : Env → TrainingCertification → Bool
in_lead_window env c = is_past env (lead_start env c)

abbrev cert_due : Env → Option TrainingCertification → Bool
cert_due env none = true
cert_due env (some c) = in_lead_window env c

-- `is_due_for_recert`
unfoldable pub is_due_for_recert : Env → Trainee → TrainingCourse → World → Bool
is_due_for_recert env t course w =
    if has_open_enrolment env t.id course.id w
    then false
    else cert_due env (latest_certification t.id course.id w)

-- The inner loop of `trainees_due_for_course`: whether the trainee is appended.
abbrev pub scan : Env → TrainingCourse → World → List ℕ → Trainee → List TrainingAssignment → Bool
scan env course w seen t [] = false
scan env course w seen t (a ∷ more) =
    if not (assignment_matches a t)
    then scan env course w seen t more
    else if any (λ id. t.id == id) seen
    then scan env course w seen t more
    else is_due_for_recert env t course w

abbrev pub loop : Env → TrainingCourse → World → List ℕ → List Trainee → List Trainee
loop env course w seen [] = []
loop env course w seen (t ∷ ts) =
    if scan env course w seen t course.assignments
    then t ∷ loop env course w (t.id ∷ seen) ts
    else loop env course w seen ts

-- `trainees_due_for_course`, of a course that is in the table.
unfoldable pub trainees_due_for_course : Env → TrainingCourse → World → List Trainee
trainees_due_for_course env course w = loop env course w [] (keep (λ t. t.is_active) w.trainees)
