-- ===== src/Audit/Tests.antt =====
-- The audit trail at the sample plant.
use qms_bakery.Prelude.{◌≡◌, ◌⊎◌, refl, true, none, some, List, [], ◌∷◌, map, arith}
use qms_bakery.Json.{end}
use qms_bakery.Models.Audit.{AuditLog, AuditAction, EntityType, payload_of, genesis_hash}
use qms_bakery.World.{World, now}
use qms_bakery.Audit.{record_entry, verify_from, verify_chain}
use qms_bakery.Audit.Chain.{Recorded, record_entry_lem}
use qms_bakery.Audit.Tamper.{Collision, verify_chain-pins}
use qms_bakery.Audit.Order.{IsOrdered}
use qms_bakery.Samples.{env, plant, hash}

abbrev login : World → World
login w = record_entry env EntityType.user (some 1) AuditAction.login_success end none w

abbrev twice : World
twice = login (login plant)

twice-verify_chain : verify_chain env twice ≡ (true, none)
unfolding record_entry verify_chain now
twice-verify_chain = refl

record_entry_lem_example :
    (verify_chain env (login twice) ≡ (true, none))
    × Recorded env EntityType.user (some 1) AuditAction.login_success end none twice (login twice)
record_entry_lem_example =
    record_entry_lem env EntityType.user (some 1) AuditAction.login_success end none twice
      twice-verify_chain

verify_chain-pins_example :
    (map payload_of twice.audit_log ≡ map payload_of twice.audit_log) ⊎ Collision env.sha256
verify_chain-pins_example =
    verify_chain-pins env twice twice twice-verify_chain twice-verify_chain refl refl

twice-IsOrdered : IsOrdered twice
unfolding record_entry
twice-IsOrdered = omega arith

-- The second row claims another action.
abbrev forge : List AuditLog → List AuditLog
forge [] = []
forge (e ∷ []) = record e { occurred_at = 5 } ∷ []
forge (e ∷ f ∷ log) = e ∷ forge (f ∷ log)

forged-verify_from : verify_from hash genesis_hash (forge twice.audit_log) ≡ some 2
unfolding record_entry verify_from now
forged-verify_from = refl
