-- ===== src/Audit.antt =====
-- app/services/audit.py: the hash chain of the audit trail.
pub mod Chain
pub mod Tamper
pub mod Order
mod Tests
use qms_bakery.Prelude.{
  ℕ, suc, ◌+◌, Bool, true, false, not, Option, none, some, List, [], ◌∷◌, ◌++◌, or_else, ◌==◌,
  if◌then◌else◌, take,
}
use qms_bakery.Prelude.Text.{Text, or_none}
use qms_bakery.Json.{Fields}
use qms_bakery.Models.Audit.{
  AuditLog, AuditAction, EntityType, Payload, compute_checksum, genesis_hash,
}
use qms_bakery.World.{Env, Request, World, now}

-- The newest row: `ORDER BY id DESC LIMIT 1`, over a table in the order of its keys.
abbrev pub last_row : List AuditLog → Option AuditLog
last_row [] = none
last_row (e ∷ []) = some e
last_row (e ∷ f ∷ log) = last_row (f ∷ log)

abbrev pub tail_checksum : List AuditLog → ℕ
tail_checksum log = elim (last_row log) [ none ↦ genesis_hash | some e ↦ e.checksum ]

abbrev pub next_key : List AuditLog → ℕ
next_key log = elim (last_row log) [ none ↦ 1 | some e ↦ suc e.id ]

-- `_request_metadata`
abbrev pub ip_of : Option Request → Option Text
ip_of none = none
ip_of (some r) = r.remote_addr

abbrev pub agent_of : Option Request → Option Text
agent_of none = none
agent_of (some r) = or_none (take 255 r.user_agent)

-- `_current_user_id`
abbrev pub current_user_id : Option Request → Option ℕ
current_user_id none = none
current_user_id (some r) = r.user

-- The `AuditLog(...)` of `record`, with its checksum computed.
pub new_entry :
    Env → EntityType → Option ℕ → AuditAction → Fields → Option ℕ → List AuditLog → AuditLog
new_entry env entity entity_id action diff user_id log =
    let e : AuditLog = record {
      id = next_key log;
      occurred_at = now env;
      user_id = or_else user_id (current_user_id env.request);
      entity_type = entity;
      entity_id = entity_id;
      action = action;
      diff = diff;
      ip_address = ip_of env.request;
      user_agent = agent_of env.request;
      prev_checksum = tail_checksum log;
      checksum = 0;
    } in
    record e { checksum = compute_checksum env.sha256 e }

-- `record`: appends one entry to the chain.
unfoldable pub record_entry :
    Env → EntityType → Option ℕ → AuditAction → Fields → Option ℕ → World → World
unfolding new_entry
record_entry env entity entity_id action diff user_id w = record w {
  audit_log = w.audit_log ++ new_entry env entity entity_id action diff user_id w.audit_log ∷ [];
}

-- The loop of `verify_chain`: the first row that does not fit, if any.
unfoldable pub verify_from : (Payload → ℕ) → ℕ → List AuditLog → Option ℕ
verify_from hash expected [] = none
verify_from hash expected (e ∷ log) =
    let rest = verify_from hash e.checksum log in
    if not (e.prev_checksum == expected)
    then some e.id
    else if not (compute_checksum hash e == e.checksum)
    then some e.id
    else rest

-- `verify_chain`: (True, None), or (False, id of the first bad row).
unfoldable pub verify_chain : Env → World → Bool × Option ℕ
unfolding verify_from
verify_chain env w = elim (verify_from env.sha256 genesis_hash w.audit_log) [
  | none ↦ (true, none)
  | some id ↦ (false, some id)
]
