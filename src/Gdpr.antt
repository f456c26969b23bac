-- ===== src/Gdpr.antt =====
-- app/services/gdpr.py: redaction of a data subject, and the re-hash of the audit chain.
pub mod Rehash
pub mod Subjects
pub mod Erasure
pub mod Ordered
mod Tests
use qms_bakery.Prelude.{
  ℕ, zero, suc, Bool, true, false, not, ◌&&◌, ◌||◌, Option, none, some, List, [], ◌∷◌, ◌++◌, map,
  elem, keep, count_if, length, find, ltb, leb, ◌==◌, if◌then◌else◌,
}
use qms_bakery.Prelude.Int.{pos}
use qms_bakery.Prelude.Text.{Text, codes}
use qms_bakery.Json.{Json, Fields, end, field}
use qms_bakery.Models.Audit.{
  AuditLog, AuditAction, EntityType, Payload, compute_checksum, genesis_hash,
}
use qms_bakery.Models.Training.{
  Trainee, TrainingEnrolment, TrainingAttempt, TrainingDeclaration, TrainingCertification,
}
use qms_bakery.World.{
  Env, World, now, Result, ok, err, Error, Session, ◌>>=◌, ◌>>◌, gets, or_raise, modify, pure,
}
use qms_bakery.Audit.{record_entry, tail_checksum}
use qms_bakery.Audit.Order.{starts_at, rows_before, rows_from}

-- `redaction_marker`
abbrev pub redaction_marker : Env → Fields
redaction_marker env =
    field (codes "redacted") (Json.bool true)
      (field (codes "redacted_at") (Json.moment (now env)) end)

-- `min(audit_ids)`
abbrev pub minimum : ℕ → List ℕ → ℕ
minimum a [] = a
minimum a (b ∷ bs) = if ltb b a then minimum b bs else minimum a bs

abbrev pub mark : Fields → List ℕ → AuditLog → AuditLog
mark marker ids e = record e { diff = if elem e.id ids then marker else e.diff }

-- The body of the loop of `_redact_audit_rows`: a listed row is marked, and every row is hashed anew.
abbrev pub relink : (Payload → ℕ) → Fields → List ℕ → ℕ → AuditLog → AuditLog
relink hash marker ids expected e =
    let linked = record (mark marker ids e) { prev_checksum = expected } in
    record linked { checksum = compute_checksum hash linked }

unfoldable pub rehash : (Payload → ℕ) → Fields → List ℕ → ℕ → List AuditLog → List AuditLog
rehash hash marker ids expected [] = []
rehash hash marker ids expected (e ∷ log) =
    relink hash marker ids expected e
    ∷ rehash hash marker ids (relink hash marker ids expected e).checksum log

-- `_redact_audit_rows`, with the new trail beside the count.
unfoldable pub redact_audit_rows : Env → List ℕ → List AuditLog → ℕ × List AuditLog
unfolding rehash
redact_audit_rows env [] log = (0, log)
redact_audit_rows env (id ∷ ids) log =
    let first = minimum id ids in
    let rows = rows_from first log in
    let preceding = rows_before first log in
    if starts_at first rows
    then (
      count_if (λ e. elem e.id (id ∷ ids)) rows,
      preceding
          ++ rehash env.sha256 (redaction_marker env) (id ∷ ids) (tail_checksum preceding) rows,
    )
    else (0, log)
