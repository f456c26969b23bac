-- ===== src/Retention.antt =====
-- app/services/retention.py: the sweep that drops or redacts what has outlived its purpose.
pub mod Counted
pub mod Swept
pub mod Trail
mod Tests
use qms_bakery.Prelude.{
  ℕ, ◌+◌, ◌*◌, ◌-◌, Bool, true, false, not, ◌&&◌, ◌||◌, Option, none, some, List, [], ◌∷◌, ◌++◌,
  map, keep, any, elem, length, count_if, ltb, ◌==◌, if◌then◌else◌, is_none, is_some, get_or,
}
use qms_bakery.Prelude.Dates.{days}
use qms_bakery.Prelude.Int.{pos}
use qms_bakery.Prelude.Text.{Text, codes, starts_with}
use qms_bakery.Json.{Json, bool, num, obj, Fields, end, field}
use qms_bakery.Models.Audit.{AuditLog, AuditAction, EntityType}
use qms_bakery.Models.Training.{
  Trainee, TrainingEnrolment, TrainingAttempt, EnrolmentStatus, TrainingDeclaration,
  TrainingCertification,
}
use qms_bakery.World.{Env, World, now, Session, Result, ok, err, Error}
use qms_bakery.Audit.{record_entry}
use qms_bakery.Gdpr.Subjects.{redact_trainee}

-- The settings of `sweep`; None is a key that the configuration does not have.
pub record RetentionConfig : Type 0 where
  pub declaration_years : Option ℕ
  pub audit_years : Option ℕ
  pub dormant_months : Option ℕ

-- `summary`
pub record SweepSummary : Type 0 where
  pub dry_run : Bool
  pub expired_enrolments_dropped : ℕ
  pub declarations_pii_redacted : ℕ
  pub trainees_redacted : ℕ
  pub audit_rows_eligible : ℕ

abbrev is_ended : EnrolmentStatus → Bool
is_ended EnrolmentStatus.expired = true
is_ended EnrolmentStatus.withdrawn = true
is_ended _ = false

-- Step 1: an enrolment to drop.
abbrev pub is_expired : ℕ → TrainingEnrolment → Bool
is_expired now e = is_ended e.status && ltb e.expires_at (now - days 30)

-- Step 2: a certificate long past its end, and what a declaration still shows.
abbrev pub is_stale_cert : ℕ → ℕ → TrainingCertification → Bool
is_stale_cert now years c = ltb c.valid_until (now - days (365 * years))

abbrev pub shows_pii : TrainingDeclaration → Bool
shows_pii d = is_some d.signature_png || is_some d.ip_address || is_some d.user_agent

abbrev pub stale_certs : ℕ → ℕ → World → TrainingDeclaration → ℕ
stale_certs now years w d =
    count_if (λ c. (c.declaration_id == d.id) && is_stale_cert now years c) w.certifications

-- The rows of the join: a declaration comes as often as it has such a certificate.
abbrev pub stale_rows : ℕ → ℕ → World → List TrainingDeclaration → ℕ
stale_rows now years w [] = 0
stale_rows now years w (d ∷ ds) =
    (if shows_pii d then stale_certs now years w d else 0) + stale_rows now years w ds

abbrev pub strip_pii : TrainingDeclaration → TrainingDeclaration
strip_pii d = record d { signature_png = none; ip_address = none; user_agent = none }

abbrev pub is_stale : ℕ → ℕ → World → TrainingDeclaration → Bool
is_stale now years w d =
    any (λ c. (c.declaration_id == d.id) && is_stale_cert now years c) w.certifications

-- Step 3: a trainee to redact. `LIKE '[redacted%'` looks at the case of letters, as in PostgreSQL.
abbrev pub is_dormant : ℕ → ℕ → Trainee → Bool
is_dormant now months t =
    not t.is_active
    && ltb t.updated_at (now - days (30 * months))
    && not (starts_with t.full_name (codes "[redacted"))

abbrev pub has_live_cert : ℕ → World → Trainee → Bool
has_live_cert now w t =
    any (λ c. (c.trainee_id == t.id) && ltb now c.valid_until && is_none c.revoked_at)
      w.certifications

unfoldable pub redact_targets : ℕ → ℕ → World → List ℕ
redact_targets now months w =
    map (λ (t : Trainee). t.id)
      (keep (λ t. is_dormant now months t && not (has_live_cert now w t)) w.trainees)

-- Step 4: an audit row past the horizon.
abbrev pub is_eligible : ℕ → ℕ → AuditLog → Bool
is_eligible now years e = ltb e.occurred_at (now - days (365 * years))

abbrev pub declaration_years_of : RetentionConfig → ℕ
declaration_years_of c = get_or c.declaration_years 7

abbrev pub audit_years_of : RetentionConfig → ℕ
audit_years_of c = get_or c.audit_years 7

abbrev pub dormant_months_of : RetentionConfig → ℕ
dormant_months_of c = get_or c.dormant_months 24

abbrev pub has_attempt : World → TrainingEnrolment → Bool
has_attempt w e = any (λ (a : TrainingAttempt). a.enrolment_id == e.id) w.attempts

-- `db.session.delete(enrolment)`: an attempt of the enrolment would lose its key, which is not
-- nullable.
abbrev pub is_held : Env → World → Bool
is_held env w = any (λ e. is_expired (now env) e && has_attempt w e) w.enrolments

abbrev pub drop_enrolments : Env → World → World
drop_enrolments env w = record w {
  enrolments = keep (λ e. not (is_expired (now env) e)) w.enrolments;
}

abbrev pub strip_declarations : ℕ → ℕ → World → World
strip_declarations now years w = record w {
  declarations =
      map (λ d. if is_stale now years w d && shows_pii d then strip_pii d else d) w.declarations;
}

unfoldable pub redact_all : Env → List ℕ → Session (Unit {0})
redact_all env [] w = (ok tt, w)
redact_all env (id ∷ ids) w =
    let (r, w') = redact_trainee env id w in
    let rest = redact_all env ids w' in elim r [ ok done ↦ rest | err e ↦ (err e, w') ]

-- What is found, before anything is changed but the enrolments.
unfoldable pub summary_of : Env → Bool → RetentionConfig → World → SweepSummary
summary_of env dry cfg w = record {
  dry_run = dry;
  expired_enrolments_dropped = length (keep (is_expired (now env)) w.enrolments);
  declarations_pii_redacted = stale_rows (now env) (declaration_years_of cfg) w w.declarations;
  trainees_redacted = length (redact_targets (now env) (dormant_months_of cfg) w);
  audit_rows_eligible = count_if (is_eligible (now env) (audit_years_of cfg)) w.audit_log;
}

abbrev count_json : ℕ → Json
count_json n = num (pos (n * 1000))

abbrev summary_diff : SweepSummary → Fields
summary_diff s =
    field (codes "summary")
      (obj (
        field (codes "dry_run") (bool s.dry_run) (
          field (codes "expired_enrolments_dropped") (count_json s.expired_enrolments_dropped) (
            field (codes "declarations_pii_redacted") (count_json s.declarations_pii_redacted) (
              field (codes "trainees_redacted") (count_json s.trainees_redacted) (
                field (codes "audit_rows_eligible_for_partition_drop")
                  (count_json s.audit_rows_eligible) end))))))
      end

-- The count of step 4, made after the redactions.
abbrev pub recounted : Env → RetentionConfig → SweepSummary → World → SweepSummary
recounted env cfg s w = record s {
  audit_rows_eligible = count_if (is_eligible (now env) (audit_years_of cfg)) w.audit_log;
}

-- The end of the sweep: the count of step 4 and the audit entry, where no redaction raised.
unfoldable pub close_sweep :
    Env → RetentionConfig → SweepSummary → Result (Unit {0}) × World → Result SweepSummary × World
close_sweep env cfg s (err e, w) = (err e, w)
close_sweep env cfg s (ok done, w) =
    let counted = recounted env cfg s w in
    (
      ok counted,
      record_entry env EntityType.retention none AuditAction.gdpr_redacted (summary_diff counted)
          none w,
    )

-- The session after steps 1 and 2.
abbrev pub cleaned : Env → RetentionConfig → World → World
cleaned env cfg w = strip_declarations (now env) (declaration_years_of cfg) (drop_enrolments env w)

-- `sweep(dry_run=False)`
unfoldable pub sweep_for_good : Env → RetentionConfig → Session SweepSummary
sweep_for_good env cfg w =
    if is_held env w
    then (err Error.integrity_error, w)
    else close_sweep env cfg (summary_of env false cfg w)
        (redact_all env (redact_targets (now env) (dormant_months_of cfg) w) (cleaned env cfg w))

-- `sweep`
unfoldable pub sweep : Env → Bool → RetentionConfig → Session SweepSummary
sweep env true cfg w = (ok (summary_of env true cfg w), w)
sweep env false cfg w = sweep_for_good env cfg w
