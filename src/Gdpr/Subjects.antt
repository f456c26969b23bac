-- ===== src/Gdpr/Subjects.antt =====
-- app/services/gdpr.py: `redact_trainee`, `redact_user` and `redact`.
use qms_bakery.Prelude.{
  ℕ, Bool, true, false, ◌&&◌, ◌||◌, Option, none, some, List, [], ◌∷◌, ◌++◌, map, elem, keep,
  count_if, take, find, ◌==◌, if◌then◌else◌, option_eq,
}
use qms_bakery.Prelude.Int.{pos}
use qms_bakery.Prelude.Text.{Text, codes, text_eq}
use qms_bakery.Json.{Json, Fields, end, field, str}
use qms_bakery.Models.Audit.{AuditLog, AuditAction, EntityType}
use qms_bakery.Models.Auth.{User}
use qms_bakery.Models.Training.{
  Trainee, TrainingEnrolment, TrainingAttempt, TrainingDeclaration, TrainingCertification,
}
use qms_bakery.World.{Env, World, Session, Error, pure, gets, or_raise, raise, modify, ◌>>=◌, ◌>>◌}
use qms_bakery.Audit.{record_entry}
use qms_bakery.Gdpr.{redact_audit_rows}

-- The rows that hang on a trainee, by their keys.
abbrev pub enrolment_ids : ℕ → World → List ℕ
enrolment_ids trainee w =
    map (λ (e : TrainingEnrolment). e.id) (keep (λ e. e.trainee_id == trainee) w.enrolments)

abbrev pub attempt_ids : ℕ → World → List ℕ
attempt_ids trainee w =
    map (λ (a : TrainingAttempt). a.id)
      (keep (λ a. elem a.enrolment_id (enrolment_ids trainee w)) w.attempts)

-- A declaration of the trainee.
abbrev pub is_theirs : ℕ → World → TrainingDeclaration → Bool
is_theirs trainee w d = elem d.attempt_id (attempt_ids trainee w)

abbrev declaration_ids : ℕ → World → List ℕ
declaration_ids trainee w =
    map (λ (d : TrainingDeclaration). d.id) (keep (is_theirs trainee w) w.declarations)

abbrev certification_ids : ℕ → World → List ℕ
certification_ids trainee w =
    map (λ (c : TrainingCertification). c.id) (keep (λ c. c.trainee_id == trainee) w.certifications)

abbrev among : Option ℕ → List ℕ → Bool
among none ids = false
among (some id) ids = elem id ids

-- The subjects whose audit rows are redacted, by the kind of the row.
abbrev pub subject_ids : ℕ → World → EntityType → List ℕ
subject_ids id w EntityType.trainee = id ∷ []
subject_ids id w EntityType.training_enrolment = enrolment_ids id w
subject_ids id w EntityType.training_attempt = attempt_ids id w
subject_ids id w EntityType.training_declaration = declaration_ids id w
subject_ids id w EntityType.training_certification = certification_ids id w
subject_ids id w _ = []

abbrev pub concerns_trainee : ℕ → World → AuditLog → Bool
concerns_trainee id w e = among e.entity_id (subject_ids id w e.entity_type)

abbrev pub audit_ids : (AuditLog → Bool) → World → List ℕ
audit_ids p w = map (λ (e : AuditLog). e.id) (keep p w.audit_log)

abbrev pub wipe_declaration : TrainingDeclaration → TrainingDeclaration
wipe_declaration d = record d {
  signature_png = none;
  ip_address = none;
  user_agent = none;
  typed_name = codes "[redacted]";
}

abbrev pub wipe_trainee : Env → Trainee → Trainee
wipe_trainee env t = record t {
  phone = codes "[redacted-" ++ take 8 (env.uuid t.id) ++ codes "]";
  full_name = codes "[redacted]";
  is_active = false;
}

-- Step 1: the rows without the personal data.
abbrev pub wiped : Env → ℕ → World → World
wiped env id w = record w {
  declarations = map (λ d. if is_theirs id w d then wipe_declaration d else d) w.declarations;
  trainees = map (λ t. if t.id == id then wipe_trainee env t else t) w.trainees;
}

-- Step 2: the marked and re-hashed trail.
abbrev pub redacted : Env → List ℕ → World → World
redacted env ids w = record w { audit_log = (redact_audit_rows env ids w.audit_log).1 }

abbrev redacted_count : Env → List ℕ → World → ℕ
redacted_count env ids w = (redact_audit_rows env ids w.audit_log).0

-- What a redaction returns: the numbers of audit rows and of declarations.
pub record Redaction : Type 0 where
  pub subject : ℕ
  pub audit_rows_redacted : ℕ
  pub declarations_redacted : ℕ

abbrev count_field : Text → ℕ → Fields → Fields
count_field name n rest = field name (Json.num (pos n)) rest

abbrev trainee_diff : ℕ → ℕ → Fields
trainee_diff rows declarations = field (codes "subject_kind") (str (codes "trainee")) (
    count_field (codes "audit_rows_redacted") rows
      (count_field (codes "declarations_redacted") declarations end))

abbrev pub trainee_rows : ℕ → World → List ℕ
trainee_rows id w = audit_ids (concerns_trainee id w) w

-- `redact_trainee`
unfoldable pub redact_trainee : Env → ℕ → Session Redaction
redact_trainee env id = do
  t ← or_raise (← gets (λ w. find (λ (t : Trainee). t.id == id) w.trainees)) Error.subject_not_found
  w ← gets (λ (w : World). w)
  let ids = trainee_rows id w
  let rows = redacted_count env ids w
  let declarations = count_if (is_theirs id w) w.declarations
  modify (wiped env id)
  modify (redacted env ids)
  modify (
      record_entry env EntityType.gdpr (some id) AuditAction.gdpr_redacted
        (trainee_diff rows declarations) none)
  pure (record { subject = id; audit_rows_redacted = rows; declarations_redacted = declarations })

abbrev user_diff : ℕ → Fields
user_diff rows = field (codes "subject_kind") (str (codes "user")) (
    count_field (codes "audit_rows_redacted") rows
      (field (codes "note") (str (codes "user row retained for employment-record obligation")) end))

abbrev is_user : EntityType → Bool
is_user EntityType.user = true
is_user _ = false

abbrev pub concerns_user : ℕ → AuditLog → Bool
concerns_user id e =
    option_eq e.user_id (some id) || (is_user e.entity_type && option_eq e.entity_id (some id))

-- `redact_user`
unfoldable pub redact_user : Env → ℕ → Session Redaction
redact_user env id = do
  u ← or_raise (← gets (λ w. find (λ (u : User). u.id == id) w.users)) Error.subject_not_found
  w ← gets (λ (w : World). w)
  let ids = audit_ids (concerns_user id) w
  let rows = redacted_count env ids w
  modify (redacted env ids)
  modify
      (record_entry env EntityType.gdpr (some id) AuditAction.gdpr_redacted (user_diff rows) none)
  pure (record { subject = id; audit_rows_redacted = rows; declarations_redacted = 0 })

-- `subject_spec.partition(":")`, or none where there is no colon.
abbrev partition : Text → Option (Text × Text)
partition [] = none
partition (c ∷ s) =
    if c == b':'
    then some ([], s)
    else elim (partition s) [ none ↦ none | some (kind, sid) ↦ some (c ∷ kind, sid) ]

-- The row's key whose UUID is the text: `db.session.get(...)`.
abbrev key_of : Env → Text → List ℕ → Option ℕ
key_of env sid ids = find (λ id. text_eq (env.uuid id) sid) ids

abbrev pub on_key : (ℕ → Session Redaction) → Option ℕ → Session Redaction
on_key f none = raise Error.subject_not_found
on_key f (some id) = f id

unfoldable pub redact_kind : Env → Text → Text → Session Redaction
redact_kind env kind sid w =
    if text_eq kind (codes "user")
    then on_key (redact_user env) (key_of env sid (map (λ (u : User). u.id) w.users)) w
    else if text_eq kind (codes "trainee")
    then on_key (redact_trainee env) (key_of env sid (map (λ (t : Trainee). t.id) w.trainees)) w
    else raise Error.unknown_subject w

abbrev pub redact_parts : Env → Option (Text × Text) → Session Redaction
redact_parts env none = raise Error.malformed_subject
redact_parts env (some (kind, sid)) = redact_kind env kind sid

-- `redact`
unfoldable pub redact : Env → Text → Session Redaction
redact env spec = redact_parts env (partition spec)
