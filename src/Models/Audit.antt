-- ===== src/Models/Audit.antt =====
-- app/models/audit.py and app/audit_actions.py
use qms_bakery.Prelude.{ℕ, Option}
use qms_bakery.Prelude.Text.{Text}
use qms_bakery.Json.{Fields}

-- `AuditAction`
pub data AuditAction : Type 0 where
  login_success login_2fa_success login_2fa_failure logout account_locked : AuditAction
  totp_enrolled denied create update toggle_active create_version : AuditAction
  status_change assigned comment submit record_ fire fire_dry_run : AuditAction
  dlq_requeue dlq_discard training_enrolled training_link_sent : AuditAction
  training_attempt_started training_attempt_submitted training_declared : AuditAction
  training_certified training_link_expired training_reminder_sent : AuditAction
  gdpr_dsar_exported gdpr_redacted : AuditAction

-- The values of `entity_type` that the services write.
pub data EntityType : Type 0 where
  user access ticket trigger ccp_measurement salsa_response trainee : EntityType
  training_course training_enrolment training_attempt training_declaration : EntityType
  training_certification gdpr dsar retention : EntityType

-- `AuditLog`. A checksum is the number that its hexadecimal digits write.
pub record AuditLog : Type 0 where
  pub id : ℕ
  pub occurred_at : ℕ
  pub user_id : Option ℕ
  pub entity_type : EntityType
  pub entity_id : Option ℕ
  pub action : AuditAction
  pub diff : Fields
  pub ip_address : Option Text
  pub user_agent : Option Text
  pub prev_checksum : ℕ
  pub checksum : ℕ

-- What `compute_checksum` serialises.
pub record Payload : Type 0 where
  pub occurred_at : ℕ
  pub user_id : Option ℕ
  pub entity_type : EntityType
  pub entity_id : Option ℕ
  pub action : AuditAction
  pub diff : Fields
  pub prev : ℕ

abbrev pub genesis_hash : ℕ
genesis_hash = 0

-- `payload` in `compute_checksum`: the dict that is serialised and hashed.
abbrev pub payload_of : AuditLog → Payload
payload_of e = record {
  occurred_at = e.occurred_at;
  user_id = e.user_id;
  entity_type = e.entity_type;
  entity_id = e.entity_id;
  action = e.action;
  diff = e.diff;
  prev = e.prev_checksum;
}

-- `AuditLog.compute_checksum`. `hash` is SHA-256 of the serialised payload.
abbrev pub compute_checksum : (Payload → ℕ) → AuditLog → ℕ
compute_checksum hash e = hash (payload_of e)
