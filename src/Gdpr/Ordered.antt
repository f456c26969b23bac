-- ===== src/Gdpr/Ordered.antt =====
-- The keys of the trail under a redaction.
use qms_bakery.Prelude.{
  ℕ, suc, ◌≤◌, ◌≡◌, refl, sym, ap, ◌∙◌, subst, inl, inr, List, [], ◌∷◌, ◌++◌, map, find, ◌==◌,
  Bool-cases, Option-cases,
}
use mathlib.Core.List.{map-append}
use qms_bakery.Json.{Fields}
use qms_bakery.Models.Audit.{AuditLog, Payload}
use qms_bakery.World.{Env, World}
use qms_bakery.Audit.{tail_checksum}
use qms_bakery.Audit.Order.{
  Ascends, IsOrdered, starts_at, rows_before, rows_from, rows_split, record_entry-IsOrdered,
}
use qms_bakery.Gdpr.{redaction_marker, minimum, relink, rehash, redact_audit_rows}
use qms_bakery.Gdpr.Subjects.{redact_trainee, redacted, wiped, trainee_rows}

abbrev keys : List AuditLog → List ℕ
keys log = map (λ (e : AuditLog). e.id) log

abbrev KeysAscend : ℕ → List ℕ → Type 0
KeysAscend k [] = Unit
KeysAscend k (i ∷ is) = (k ≤ i) × KeysAscend (suc i) is

to_keys : (k : ℕ) (log : List AuditLog) → Ascends k log → KeysAscend k (keys log)
to_keys k [] h = tt
to_keys k (e ∷ log) h = (h.0, to_keys (suc e.id) log h.1)

of_keys : (k : ℕ) (log : List AuditLog) → KeysAscend k (keys log) → Ascends k log
of_keys k [] h = tt
of_keys k (e ∷ log) h = (h.0, of_keys (suc e.id) log h.1)

keys-rehash :
    (hash : Payload → ℕ) (marker : Fields) (ids : List ℕ) (p : ℕ) (log : List AuditLog)
    → keys (rehash hash marker ids p log) ≡ keys log
unfolding rehash
keys-rehash hash marker ids p [] = refl
keys-rehash hash marker ids p (e ∷ log) =
    ap (λ (is : List ℕ). e.id ∷ is)
      (keys-rehash hash marker ids (relink hash marker ids p e).checksum log)

keys-redact_audit_rows :
    (env : Env) (ids : List ℕ) (log : List AuditLog)
    → Ascends 1 log
    → keys (redact_audit_rows env ids log).1 ≡ keys log
unfolding redact_audit_rows
keys-redact_audit_rows env [] log h = refl
keys-redact_audit_rows env (id ∷ ids) log h =
    let first = minimum id ids in
    let rows = rows_from first log in
    let preceding = rows_before first log in
    elim (Bool-cases (starts_at first rows)) [
      | inr absent ↦ rw absent refl
      | inl found ↦
          rw (found, redact_audit_rows)
            (map-append _ preceding
                (rehash env.sha256 (redaction_marker env) (id ∷ ids) (tail_checksum preceding) rows)
              ∙ ap (λ (is : List ℕ). keys preceding ++ is)
                  (keys-rehash env.sha256 (redaction_marker env) (id ∷ ids)
                    (tail_checksum preceding) rows)
              ∙ sym (map-append _ preceding rows)
              ∙ ap keys (rows_split 1 first log h))
    ]

redact_audit_rows-Ascends :
    (env : Env) (ids : List ℕ) (log : List AuditLog)
    → Ascends 1 log
    → Ascends 1 (redact_audit_rows env ids log).1
redact_audit_rows-Ascends env ids log h =
    of_keys 1 (redact_audit_rows env ids log).1
      (subst (KeysAscend 1) (sym (keys-redact_audit_rows env ids log h)) (to_keys 1 log h))

pub redact_trainee-IsOrdered :
    (env : Env) (id : ℕ) (w : World) → IsOrdered w → IsOrdered (redact_trainee env id w).1
unfolding redact_trainee
redact_trainee-IsOrdered env id w h = elim (Option-cases (find (λ t. t.id == id) w.trainees)) [
  | inl missing ↦ rw (missing, redact_trainee) h
  | inr (t, found) ↦
      rw (found, redact_trainee)
        (record_entry-IsOrdered env _ _ _ _ _ (redacted env (trainee_rows id w) (wiped env id w))
          (redact_audit_rows-Ascends env (trainee_rows id w) w.audit_log h))
]
