-- ===== src/Retention/Trail.antt =====
-- The audit trail under the sweep.
use qms_bakery.Prelude.{ℕ, ◌≡◌, inl, inr, Bool, true, false, none, List, [], ◌∷◌, Bool-cases}
use qms_bakery.Models.Audit.{AuditAction, EntityType}
use qms_bakery.World.{Env, World, Result, ok, err}
use qms_bakery.Audit.{verify_chain}
use qms_bakery.Audit.Order.{IsOrdered, record_entry-IsOrdered}
use qms_bakery.Gdpr.Subjects.{redact_trainee, Redaction}
use qms_bakery.Gdpr.Ordered.{redact_trainee-IsOrdered}
use qms_bakery.Gdpr.Erasure.{redact_trainee-verify_chain, entry-verify_chain}
use qms_bakery.Retention.{
  RetentionConfig, SweepSummary, sweep, sweep_for_good, redact_all, close_sweep, cleaned, is_held,
}

-- The trail verifies and its keys ascend.
abbrev pub IsSound : Env → World → Type 0
IsSound env w = (verify_chain env w ≡ (true, none)) × IsOrdered w

redact_all-IsSound :
    (env : Env) (ids : List ℕ) (w : World) → IsSound env w → IsSound env (redact_all env ids w).1
unfolding redact_all
redact_all-IsSound env [] w h = h
redact_all-IsSound env (id ∷ ids) w h =
    go (redact_trainee env id w)
      (redact_trainee-verify_chain env id w h.1 h.0, redact_trainee-IsOrdered env id w h.1)
      (λ v. redact_all-IsSound env ids v)
  where
    go :
        (p : Result Redaction × World)
        → IsSound env p.1
        → ((v : World) → IsSound env v → IsSound env (redact_all env ids v).1)
        → IsSound env
            (let rest = redact_all env ids p.1 in
              elim p.0 as (λ r. Result (Unit {0}) × World) [
                | ok done ↦ rest
                | err e ↦ (err e, p.1)
              ]).1
    go (ok done, v) s next = next v s
    go (err e, v) s next = s

close_sweep-IsSound :
    (env : Env) (cfg : RetentionConfig) (s : SweepSummary) (p : Result (Unit {0}) × World)
    → IsSound env p.1
    → IsSound env (close_sweep env cfg s p).1
unfolding close_sweep
close_sweep-IsSound env cfg s (err e, w) h = h
close_sweep-IsSound env cfg s (ok done, w) h = (
  entry-verify_chain env EntityType.retention none AuditAction.gdpr_redacted _ none w h.0,
  record_entry-IsOrdered env EntityType.retention none AuditAction.gdpr_redacted _ none w h.1,
)

-- After a sweep, dry or not and whether or not it raises, `verify_chain` accepts the trail and its keys
-- ascend, if both held before: the redactions of any number of trainees are hashed anew.
pub sweep-IsSound :
    (env : Env) (dry : Bool) (cfg : RetentionConfig) (w : World)
    → verify_chain env w ≡ (true, none)
    → IsOrdered w
    → IsSound env (sweep env dry cfg w).1
unfolding sweep sweep_for_good verify_chain
sweep-IsSound env true cfg w h o = (h, o)
sweep-IsSound env false cfg w h o = elim (Bool-cases (is_held env w)) [
  | inl held ↦ rw (held, sweep) (h, o)
  | inr free ↦
      rw (free, sweep)
        (close_sweep-IsSound env cfg _ _ (redact_all-IsSound env _ (cleaned env cfg w) (h, o)))
]
