-- ===== src/Training/Exam.antt =====
-- app/services/training.py: attempts, scoring, declarations and certificates.
pub mod Scored
pub mod Declared
use qms_bakery.Prelude.{
  ℕ, ◌+◌, ◌*◌, ◌/◌, Bool, true, false, not, ◌&&◌, Option, none, some, List, [], ◌∷◌, ◌++◌, map, any,
  all, find, keep, count_if, length, elem, leb, ltb, ◌==◌, if◌then◌else◌, is_some, is_none,
}
use qms_bakery.Prelude.Dates.{instant}
use qms_bakery.Prelude.Text.{Text, codes, is_blank, strip}
use qms_bakery.Prelude.Int.{pos}
use qms_bakery.Json.{Json, Fields, end, field, str, uid, moment}
use qms_bakery.Models.Audit.{AuditAction, EntityType}
use qms_bakery.Models.Training.{
  TrainingQuestion, TrainingAnswerOption, TrainingCourseVersion, TrainingEnrolment, EnrolmentStatus,
  TrainingAttempt, TrainingDeclaration, TrainingCertification, Answer,
}
use qms_bakery.World.{
  Env, World, now, Session, Result, ok, err, Error, pure, gets, or_raise, raise, raise_if, modify,
  gen_uuid, ◌>>=◌, ◌>>◌,
}
use qms_bakery.Audit.{record_entry}
use qms_bakery.Training.Calendar.{add_months}
use qms_bakery.Training.Queries.{find_version}

abbrev pub find_attempt : ℕ → World → Option TrainingAttempt
find_attempt enrolment w = find (λ a. a.enrolment_id == enrolment) w.attempts

-- Writes a row back.
abbrev pub put_enrolment : TrainingEnrolment → World → World
put_enrolment e w = record w { enrolments = map (λ u. if u.id == e.id then e else u) w.enrolments }

abbrev pub put_attempt : TrainingAttempt → World → World
put_attempt a w = record w { attempts = map (λ u. if u.id == a.id then a else u) w.attempts }

abbrev pub set_status : EnrolmentStatus → TrainingEnrolment → TrainingEnrolment
set_status s e = record e { status = s }

abbrev pub new_attempt : Env → ℕ → ℕ → TrainingAttempt
new_attempt env enrolment id = record {
  id = id;
  enrolment_id = enrolment;
  started_at = now env;
  submitted_at = none;
  score = none;
  passed = none;
  payload = [];
}

-- `start_attempt`, where no attempt exists.
abbrev pub begin_attempt : Env → TrainingEnrolment → Session TrainingAttempt
begin_attempt env e = do
  modify (put_enrolment (set_status EnrolmentStatus.started e))
  id ← gen_uuid
  let a = new_attempt env e.id id
  modify (λ w. record w { attempts = w.attempts ++ a ∷ [] })
  modify (
      record_entry env EntityType.training_attempt (some id) AuditAction.training_attempt_started
        end none)
  pure a

abbrev pub or_begin : Env → TrainingEnrolment → Option TrainingAttempt → Session TrainingAttempt
or_begin env e none = begin_attempt env e
or_begin env e (some a) = pure a

-- `start_attempt`
unfoldable pub start_attempt : Env → TrainingEnrolment → Session TrainingAttempt
start_attempt env e w = or_begin env e (find_attempt e.id w) w

-- `{o.id for o in q.options if o.is_correct}`
abbrev pub correct_ids : List TrainingAnswerOption → List ℕ
correct_ids [] = []
correct_ids (o ∷ os) = if o.is_correct then o.id ∷ correct_ids os else correct_ids os

abbrev within : List ℕ → List ℕ → Bool
within xs ys = all (λ x. elem x ys) xs

-- `a == b` of two sets, written as lists.
abbrev pub set_eq : List ℕ → List ℕ → Bool
set_eq xs ys = within xs ys && within ys xs

-- `sorted(set(...))`
abbrev insert : ℕ → List ℕ → List ℕ
insert n [] = n ∷ []
insert n (m ∷ ms) = if n == m then m ∷ ms else if ltb n m then n ∷ m ∷ ms else m ∷ insert n ms

abbrev sorted_set : List ℕ → List ℕ
sorted_set [] = []
sorted_set (n ∷ ns) = insert n (sorted_set ns)

-- `answers.get(q.id, [])`
abbrev pub selected_for : ℕ → List (ℕ × List ℕ) → List ℕ
selected_for q [] = []
selected_for q ((k, ids) ∷ answers) = if k == q then ids else selected_for q answers

abbrev pub is_right : List (ℕ × List ℕ) → TrainingQuestion → Bool
is_right answers q =
    set_eq (selected_for q.id answers) (correct_ids q.options)
    && ltb 0 (length (correct_ids q.options))

abbrev graded : List (ℕ × List ℕ) → TrainingQuestion → Answer
graded answers q = record {
  question_id = q.id;
  selected_option_ids = sorted_set (selected_for q.id answers);
  is_correct = is_right answers q;
}

abbrev pub no_questions_in : List TrainingQuestion → Bool
no_questions_in [] = true
no_questions_in (q ∷ qs) = false

-- `score >= version.pass_threshold`, the score being `right / total`.
abbrev pub passes : ℕ → ℕ → ℕ → Bool
passes right total threshold = leb (threshold * total) (right * 1000)

abbrev pub submitted :
    Env → TrainingCourseVersion → List (ℕ × List ℕ) → TrainingAttempt → TrainingAttempt
submitted env v answers a =
    let right = count_if (is_right answers) v.questions in
    record a {
      submitted_at = some (now env);
      score = some right;
      passed = some (passes right (length v.questions) v.pass_threshold);
      payload = map (graded answers) v.questions;
    }

-- `round(score, 4)`, cut to thousandths
abbrev submitted_diff : ℕ → ℕ → ℕ → Fields
submitted_diff right total threshold =
    field (codes "score") (Json.num (pos (right * 1000 / total)))
      (field (codes "passed") (Json.bool (passes right total threshold)) end)

-- `submit_attempt`, once the attempt is there. The version is the enrolment's.
unfoldable pub grade :
    Env
    → TrainingEnrolment
    → TrainingCourseVersion
    → List (ℕ × List ℕ)
    → TrainingAttempt
    → Session TrainingAttempt
grade env e v answers a = do
  raise_if (is_some a.submitted_at) Error.already_submitted
  raise_if (no_questions_in v.questions) Error.no_questions
  modify (put_attempt (submitted env v answers a))
  modify (put_enrolment (set_status EnrolmentStatus.submitted e))
  modify (
      record_entry env EntityType.training_attempt (some a.id)
        AuditAction.training_attempt_submitted
        (submitted_diff (count_if (is_right answers) v.questions) (length v.questions)
          v.pass_threshold)
        none)
  pure (submitted env v answers a)

-- `submit_attempt`
unfoldable pub submit_attempt :
    Env → TrainingEnrolment → TrainingCourseVersion → List (ℕ × List ℕ) → Session TrainingAttempt
submit_attempt env e v answers = do a ← start_attempt env e; grade env e v answers a

-- The arguments of `record_declaration`.
pub record NewDeclaration : Type 0 where
  pub typed_name : Text
  pub declaration_text : Text
  pub signature_png : Option Text
  pub ip_address : Option Text
  pub user_agent : Option Text

abbrev pub new_declaration : Env → TrainingAttempt → NewDeclaration → ℕ → TrainingDeclaration
new_declaration env a n id = record {
  id = id;
  attempt_id = a.id;
  typed_name = strip n.typed_name;
  signature_png = n.signature_png;
  declaration_text = n.declaration_text;
  ip_address = n.ip_address;
  user_agent = n.user_agent;
  signed_at = now env;
}

abbrev pub new_certification :
    Env
    → TrainingEnrolment
    → TrainingCourseVersion
    → TrainingAttempt
    → ℕ
    → ℕ
    → TrainingCertification
new_certification env e v a decl id = record {
  id = id;
  trainee_id = e.trainee_id;
  course_id = v.course_id;
  course_version_id = v.id;
  attempt_id = a.id;
  declaration_id = decl;
  valid_from = now env;
  valid_until = instant (add_months env.clock v.validity_months);
  revoked_at = none;
}

abbrev pub certified_diff : TrainingCourseVersion → ℕ → Fields
certified_diff v valid_until = field (codes "course_id") (uid v.course_id) (
    field (codes "version") (Json.num (pos v.version))
      (field (codes "valid_until") (moment valid_until) end))

abbrev with_version :
    TrainingEnrolment
    → Option TrainingCourseVersion
    → Option (TrainingEnrolment × TrainingCourseVersion)
with_version e none = none
with_version e (some v) = some (e, v)

abbrev version_row :
    List TrainingCourseVersion
    → Option TrainingEnrolment
    → Option (TrainingEnrolment × TrainingCourseVersion)
version_row versions none = none
version_row versions (some e) = with_version e (find (λ v. v.id == e.course_version_id) versions)

-- The enrolment of an attempt, and its version.
unfoldable pub rows_of :
    ℕ
    → List TrainingEnrolment
    → List TrainingCourseVersion
    → Option (TrainingEnrolment × TrainingCourseVersion)
rows_of id enrolments versions = version_row versions (find (λ e. e.id == id) enrolments)

abbrev pub certify_for :
    Env
    → TrainingAttempt
    → ℕ
    → Option (TrainingEnrolment × TrainingCourseVersion)
    → Session (Unit {0})
certify_for env a decl rows = do
  (e, v) ← or_raise rows Error.row_missing
  id ← gen_uuid
  let c = new_certification env e v a decl id
  modify (λ w. record w { certifications = w.certifications ++ c ∷ [] })
  modify (
      record_entry env EntityType.training_certification (some id) AuditAction.training_certified
        (certified_diff v c.valid_until) none)

-- The certificate of `record_declaration`.
unfoldable pub certify : Env → TrainingAttempt → ℕ → Session (Unit {0})
certify env a decl w = certify_for env a decl (rows_of a.enrolment_id w.enrolments w.versions) w

abbrev pub has_passed : TrainingAttempt → Bool
has_passed a = elim a.passed [ none ↦ false | some p ↦ p ]

abbrev pub declared : TrainingAttempt → World → Bool
declared a w = any (λ d. d.attempt_id == a.id) w.declarations

abbrev declared_diff : NewDeclaration → Fields
declared_diff n =
    field (codes "typed_name") (str (strip n.typed_name))
      (field (codes "has_signature") (Json.bool (is_some n.signature_png)) end)

-- The session with the declaration in it.
unfoldable pub signed : Env → TrainingAttempt → NewDeclaration → World → World
signed env a n w =
    let id = w.next_id in
    record_entry env EntityType.training_declaration (some id) AuditAction.training_declared
      (declared_diff n) none
      (record w {
        next_id = id + 1;
        declarations = w.declarations ++ new_declaration env a n id ∷ [];
      })

-- The end of `record_declaration`: `if attempt.passed: ...`
unfoldable pub certify_if :
    Env → TrainingAttempt → TrainingDeclaration → Session TrainingDeclaration
certify_if env a d = if has_passed a then certify env a d.id >> pure d else pure d

-- `record_declaration`
unfoldable pub record_declaration :
    Env → TrainingAttempt → NewDeclaration → Session TrainingDeclaration
record_declaration env a n = do
  raise_if (is_none a.submitted_at) Error.not_submitted
  raise_if (is_blank (strip n.typed_name)) Error.typed_name_required
  existing ← gets (declared a)
  raise_if existing Error.already_declared
  id ← gets (λ (w : World). w.next_id)
  modify (signed env a n)
  certify_if env a (new_declaration env a n id)
