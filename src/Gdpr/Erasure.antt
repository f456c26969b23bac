-- ===== src/Gdpr/Erasure.antt =====
-- What a redaction leaves.
use qms_bakery.Prelude.{
  ℕ, ◌≡◌, refl, inl, inr, Bool, true, false, Option, none, some, List, find, ◌==◌, Bool-cases,
  Option-cases, ◌⊎◌,
}
use qms_bakery.Prelude.Text.{Text, codes, text_eq}
use qms_bakery.Models.Audit.{AuditLog, AuditAction, EntityType}
use qms_bakery.Json.{Fields}
use qms_bakery.Models.Training.{TrainingDeclaration}
use qms_bakery.World.{Env, World, Result}
use qms_bakery.Audit.{record_entry, verify_chain}
use qms_bakery.Audit.Chain.{record_entry_lem, verify_chain→Verifies, Verifies→verify_chain}
use qms_bakery.Audit.Order.{IsOrdered}
use qms_bakery.Gdpr.{redaction_marker}
use qms_bakery.Gdpr.Rehash.{redact_audit_rows-Verifies}
use qms_bakery.Gdpr.Subjects.{
  redact, redact_parts, redact_kind, on_key, redact_user, redact_trainee, Redaction, audit_ids,
  wiped, redacted, is_theirs, concerns_user, trainee_rows,
}

pub entry-verify_chain :
    (env : Env) (entity : EntityType) (id : Option ℕ) (action : AuditAction) (diff : Fields)
    (by_user : Option ℕ) (w : World)
    → verify_chain env w ≡ (true, none)
    → verify_chain env (record_entry env entity id action diff by_user w) ≡ (true, none)
entry-verify_chain env entity id action diff by_user w h =
    (record_entry_lem env entity id action diff by_user w h).0

redacted-verify_chain :
    (env : Env) (ids : List ℕ) (w w' : World)
    → IsOrdered w
    → verify_chain env w ≡ (true, none)
    → w'.audit_log ≡ w.audit_log
    → verify_chain env (redacted env ids w') ≡ (true, none)
redacted-verify_chain env ids w w' ordered h same =
    Verifies→verify_chain env (redacted env ids w') (
      rw same
        (redact_audit_rows-Verifies env ids w.audit_log ordered (verify_chain→Verifies env w h)))

redact_user-verify_chain :
    (env : Env) (id : ℕ) (w : World)
    → IsOrdered w
    → verify_chain env w ≡ (true, none)
    → verify_chain env (redact_user env id w).1 ≡ (true, none)
unfolding redact_user
redact_user-verify_chain env id w ordered h = elim (Option-cases (find (λ u. u.id == id) w.users)) [
  | inl missing ↦ rw (missing, redact_user) h
  | inr (u, found) ↦
      rw (found, redact_user)
        (entry-verify_chain env _ _ _ _ _ (redacted env (audit_ids (concerns_user id) w) w)
          (redacted-verify_chain env (audit_ids (concerns_user id) w) w w ordered h refl))
]

pub redact_trainee-verify_chain :
    (env : Env) (id : ℕ) (w : World)
    → IsOrdered w
    → verify_chain env w ≡ (true, none)
    → verify_chain env (redact_trainee env id w).1 ≡ (true, none)
unfolding redact_trainee
redact_trainee-verify_chain env id w ordered h =
    elim (Option-cases (find (λ t. t.id == id) w.trainees)) [
      | inl missing ↦ rw (missing, redact_trainee) h
      | inr (t, found) ↦
          rw (found, redact_trainee)
            (entry-verify_chain env _ _ _ _ _ (redacted env (trainee_rows id w) (wiped env id w))
              (redacted-verify_chain env (trainee_rows id w) w (wiped env id w) ordered h refl))
    ]

on_key-verify_chain :
    (env : Env) (f : ℕ → World → Result Redaction × World) (key : Option ℕ) (w : World)
    → ((id : ℕ) → verify_chain env (f id w).1 ≡ (true, none))
    → verify_chain env w ≡ (true, none)
    → verify_chain env (on_key f key w).1 ≡ (true, none)
on_key-verify_chain env f none w hf h = h
on_key-verify_chain env f (some id) w hf h = hf id

redact_kind-verify_chain :
    (env : Env) (kind sid : Text) (w : World)
    → IsOrdered w
    → verify_chain env w ≡ (true, none)
    → verify_chain env (redact_kind env kind sid w).1 ≡ (true, none)
unfolding redact_kind
redact_kind-verify_chain env kind sid w ordered h =
    elim (Bool-cases (text_eq kind (codes "user"))) [
      | inl user ↦
          rw (user, redact_kind)
            (on_key-verify_chain env (redact_user env) _ w
              (λ id. redact_user-verify_chain env id w ordered h) h)
      | inr no_user ↦ elim (Bool-cases (text_eq kind (codes "trainee"))) [
        | inl trainee ↦
            rw (no_user, trainee, redact_kind)
              (on_key-verify_chain env (redact_trainee env) _ w
                (λ id. redact_trainee-verify_chain env id w ordered h) h)
        | inr no_trainee ↦ rw (no_user, no_trainee, redact_kind) h
      ]
    ]

redact_parts-verify_chain :
    (env : Env) (parts : Option (Text × Text)) (w : World)
    → IsOrdered w
    → verify_chain env w ≡ (true, none)
    → verify_chain env (redact_parts env parts w).1 ≡ (true, none)
redact_parts-verify_chain env none w ordered h = h
redact_parts-verify_chain env (some (kind, sid)) w ordered h =
    redact_kind-verify_chain env kind sid w ordered h

-- `redact` leaves a trail that `verify_chain` accepts, whatever subject is asked for and whether or
-- not it is found, if the trail verified before and its keys ascend.
pub redact-verify_chain :
    (env : Env) (spec : Text) (w : World)
    → IsOrdered w
    → verify_chain env w ≡ (true, none)
    → verify_chain env (redact env spec w).1 ≡ (true, none)
unfolding redact
redact-verify_chain env spec w ordered h = redact_parts-verify_chain env _ w ordered h

-- A row's diff is the marker, or the row is not about the subject.
abbrev pub Redacted : Env → (AuditLog → Bool) → AuditLog → Type 0
Redacted env p e = (p e ≡ false) ⊎ (e.diff ≡ redaction_marker env)

-- No declaration of the trainee shows a signature, an address or a browser.
abbrev pub Anonymous : ℕ → World → TrainingDeclaration → Type 0
Anonymous id w d =
    (is_theirs id w d ≡ false)
    ⊎ (d.signature_png ≡ none) × (d.ip_address ≡ none) × (d.user_agent ≡ none)
