-- ===== src/Audit/Tamper.antt =====
-- What the hash chain pins down, and what it does not.
use qms_bakery.Prelude.{
  ℕ, ◌≡◌, ◌≢◌, refl, ap, ◌⊎◌, inl, inr, true, Option, none, List, [], ◌∷◌, arith, map, length,
}
use qms_bakery.Prelude.Text.{Text}
use native.Mathlib.Decide.{ℕ_discrete}
use qms_bakery.Json.{Fields}
use qms_bakery.Models.Audit.{AuditLog, Payload, payload_of, compute_checksum, genesis_hash}
use qms_bakery.World.{Env, World}
use qms_bakery.Audit.{tail_checksum, verify_from, verify_chain}
use qms_bakery.Audit.Chain.{Verifies, end_of, verify_chain→Verifies, tail_checksum-eq}

Fields-discrete : Discrete Fields
Fields-discrete = hlevel ℕ_discrete

Payload-discrete : Discrete Payload
Payload-discrete = hlevel (ℕ_discrete, Fields-discrete)

-- Two different payloads with one SHA-256.
pub record Collision (hash : Payload → ℕ) : Type 0 where
  pub left : Payload
  pub right : Payload
  pub differ : left ≢ right
  pub same : hash left ≡ hash right

module _ (hash : Payload → ℕ) where
  -- Two rows whose hashes agree hold the same payload, or are a collision.
  same_payload :
      (a b : AuditLog)
      → compute_checksum hash a ≡ compute_checksum hash b
      → (payload_of a ≡ payload_of b) ⊎ Collision hash
  same_payload a b h = elim (Payload-discrete (payload_of a) (payload_of b)) [
    | yes e ↦ inl e
    | no n ↦ inr (record { left = payload_of a; right = payload_of b; differ = n; same = h })
  ]

  -- Chains of one length with one end start from one checksum and hold the same payloads.
  chains_agree :
      (p q : ℕ) (xs ys : List AuditLog)
      → Verifies hash p xs
      → Verifies hash q ys
      → length xs ≡ length ys
      → end_of hash p xs ≡ end_of hash q ys
      → (p ≡ q) × (map payload_of xs ≡ map payload_of ys) ⊎ Collision hash
  chains_agree p q [] [] hx hy hl he = inl (he, refl)
  chains_agree p q [] (y ∷ ys) hx hy hl he = absurd (omega arith)
  chains_agree p q (x ∷ xs) [] hx hy hl he = absurd (omega arith)
  chains_agree p q (x ∷ xs) (y ∷ ys) hx hy hl he =
      elim (chains_agree x.checksum y.checksum xs ys hx.2 hy.2 (omega arith) he) [
        | inr c ↦ inr c
        | inl (same, rest) ↦ elim (same_payload x y (cc)) [
          | inr c ↦ inr c
          | inl e ↦ inl (cc (ap (λ (a : Payload). a.prev) e), cc)
        ]
      ]

-- Tamper evidence: two audit trails that `verify_chain` accepts, with as many rows and the same
-- last checksum, agree on every hashed column of every row, unless SHA-256 has a collision.
pub verify_chain-pins :
    (env : Env) (w w' : World)
    → verify_chain env w ≡ (true, none)
    → verify_chain env w' ≡ (true, none)
    → length w.audit_log ≡ length w'.audit_log
    → tail_checksum w.audit_log ≡ tail_checksum w'.audit_log
    → (map payload_of w.audit_log ≡ map payload_of w'.audit_log) ⊎ Collision env.sha256
verify_chain-pins env w w' h h' hl ht =
    elim (chains_agree env.sha256 genesis_hash genesis_hash w.audit_log w'.audit_log
      (verify_chain→Verifies env w h) (verify_chain→Verifies env w' h') hl
      (cc (tail_checksum-eq env.sha256 w.audit_log, tail_checksum-eq env.sha256 w'.audit_log))) [
        | inl (_, same) ↦ inl same
        | inr c ↦ inr c
      ]

-- A row with another peer address and another browser.
abbrev pub relabel : Option Text → Option Text → AuditLog → AuditLog
relabel ip agent e = record e { ip_address = ip; user_agent = agent }

verify_from-relabel :
    (hash : Payload → ℕ) (ip agent : Option Text) (p : ℕ) (log : List AuditLog)
    → verify_from hash p (map (relabel ip agent) log) ≡ verify_from hash p log
unfolding verify_from
verify_from-relabel hash ip agent p [] = refl
verify_from-relabel hash ip agent p (e ∷ log) =
    ground (arith, verify_from-relabel hash ip agent e.checksum log)

-- The addresses and browsers of the rows are not hashed: `verify_chain` answers the same whatever
-- is written over the columns `ip_address` and `user_agent` of every row.
pub verify_chain-relabel :
    (env : Env) (ip agent : Option Text) (w : World)
    → verify_chain env (record w { audit_log = map (relabel ip agent) w.audit_log })
      ≡ verify_chain env w
unfolding verify_chain
verify_chain-relabel env ip agent w =
    rw (verify_from-relabel env.sha256 ip agent genesis_hash w.audit_log, verify_chain)
