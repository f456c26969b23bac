-- ===== src/Audit/Chain.antt =====
-- The chain under a new entry, and rows that do not fit.
use qms_bakery.Prelude.{
  ℕ, suc, ap, or_else, ◌≡◌, ◌≢◌, refl, ◌⊎◌, inl, inr, true, Option, none, some, List, [], ◌∷◌, ◌++◌,
  arith, ◌==◌, Bool-cases,
}
use qms_bakery.Json.{Fields}
use qms_bakery.Models.Audit.{
  AuditLog, AuditAction, EntityType, Payload, compute_checksum, genesis_hash,
}
use qms_bakery.World.{Env, World, now}
use qms_bakery.Audit.{
  next_key, current_user_id, tail_checksum, new_entry, record_entry, verify_from, verify_chain,
}

-- Every row holds its predecessor's checksum, and its own is right.
abbrev pub Verifies : (Payload → ℕ) → ℕ → List AuditLog → Type 0
Verifies hash p [] = Unit
Verifies hash p (e ∷ log) =
    (e.prev_checksum ≡ p) × (compute_checksum hash e ≡ e.checksum) × Verifies hash e.checksum log

module _ (hash : Payload → ℕ) where
  pub verify_from→Verifies :
      (p : ℕ) (log : List AuditLog) → verify_from hash p log ≡ none → Verifies hash p log
  unfolding verify_from
  verify_from→Verifies p [] h = tt
  verify_from→Verifies p (e ∷ log) h = ground (arith, verify_from→Verifies e.checksum log)

  pub Verifies→verify_from :
      (p : ℕ) (log : List AuditLog) → Verifies hash p log → verify_from hash p log ≡ none
  unfolding verify_from
  Verifies→verify_from p [] h = refl
  Verifies→verify_from p (e ∷ log) h = ground (arith, Verifies→verify_from e.checksum log h.2)

  -- The checksum at the end of a chain that starts from `p`.
  abbrev pub end_of : ℕ → List AuditLog → ℕ
  end_of p [] = p
  end_of p (e ∷ log) = end_of e.checksum log

  pub Verifies-snoc :
      (p : ℕ) (log : List AuditLog) (e : AuditLog)
      → Verifies hash p log
      → e.prev_checksum ≡ end_of p log
      → compute_checksum hash e ≡ e.checksum
      → Verifies hash p (log ++ e ∷ [])
  Verifies-snoc p [] e h hp hc = (hp, hc, tt)
  Verifies-snoc p (f ∷ log) e h hp hc = (h.0, h.1, Verifies-snoc f.checksum log e h.2 hp hc)

  pub tail_checksum-eq : (log : List AuditLog) → tail_checksum log ≡ end_of genesis_hash log
  tail_checksum-eq [] = refl
  tail_checksum-eq (e ∷ []) = refl
  tail_checksum-eq (e ∷ f ∷ log) = tail_checksum-eq (f ∷ log)

-- The entry that `record` builds goes on from the end of the chain.
pub new_entry-Verifies :
    (env : Env) (entity : EntityType) (entity_id : Option ℕ) (action : AuditAction) (diff : Fields)
    (user_id : Option ℕ) (log : List AuditLog)
    → Verifies env.sha256 genesis_hash log
    → Verifies env.sha256 genesis_hash
        (log ++ new_entry env entity entity_id action diff user_id log ∷ [])
unfolding new_entry
new_entry-Verifies env entity entity_id action diff user_id log h =
    Verifies-snoc env.sha256 genesis_hash log _ h (tail_checksum-eq env.sha256 log) refl

pub verify_chain→Verifies :
    (env : Env) (w : World)
    → verify_chain env w ≡ (true, none)
    → Verifies env.sha256 genesis_hash w.audit_log
unfolding verify_chain
verify_chain→Verifies env w h =
    verify_from→Verifies env.sha256 genesis_hash w.audit_log (ground arith)

pub Verifies→verify_chain :
    (env : Env) (w : World)
    → Verifies env.sha256 genesis_hash w.audit_log
    → verify_chain env w ≡ (true, none)
unfolding verify_chain
Verifies→verify_chain env w h =
    rw (Verifies→verify_from env.sha256 genesis_hash w.audit_log h, verify_chain)

-- The key of an entry after a trail: the first key, or one above that of the last entry.
abbrev pub Follows : ℕ → List AuditLog → Type 0
Follows id log =
    (log ≡ []) × (id ≡ 1)
    ⊎ ((before : List AuditLog) × (last : AuditLog) × (log ≡ before ++ last ∷ [])
        × (id ≡ suc last.id))

next_key-Follows : (log : List AuditLog) → Follows (next_key log) log
next_key-Follows [] = inl (refl, refl)
next_key-Follows (e ∷ []) = inr ([], e, refl, refl)
next_key-Follows (e ∷ f ∷ log) = elim (next_key-Follows (f ∷ log)) [
  | inl (empty, first) ↦ absurd (ground arith)
  | inr (before, last, split, above) ↦
      inr (e ∷ before, last, ap (λ (l : List AuditLog). e ∷ l) split, above)
]

-- The one entry that a call has added to the trail.
abbrev pub Recorded :
    Env → EntityType → Option ℕ → AuditAction → Fields → Option ℕ → World → World → Type 0
Recorded env entity entity_id action diff user_id w w' =
    (e : AuditLog) × (w'.audit_log ≡ w.audit_log ++ e ∷ [])
    × (e.entity_type ≡ entity)
    × (e.entity_id ≡ entity_id)
    × (e.action ≡ action)
    × (e.diff ≡ diff)
    × (e.occurred_at ≡ now env)
    × (e.user_id ≡ or_else user_id (current_user_id env.request))
    × (e.prev_checksum ≡ end_of env.sha256 genesis_hash w.audit_log)
    × Follows e.id w.audit_log

-- A verified chain still verifies with one more entry, which holds the given action, subject and
-- diff, the given user or else the one of the request, the moment of the call, the checksum at the end of
-- the chain, and a key that is one above the last entry's (1 for the first).
pub record_entry_lem :
    (env : Env) (entity : EntityType) (entity_id : Option ℕ) (action : AuditAction) (diff : Fields)
    (user_id : Option ℕ) (w : World)
    → verify_chain env w ≡ (true, none)
    → let w' = record_entry env entity entity_id action diff user_id w in
      (verify_chain env w' ≡ (true, none)) × Recorded env entity entity_id action diff user_id w w'
unfolding record_entry
record_entry_lem env entity entity_id action diff user_id w h = (
  Verifies→verify_chain env (record_entry env entity entity_id action diff user_id w) (
      new_entry-Verifies env entity entity_id action diff user_id w.audit_log
        (verify_chain→Verifies env w h)),
  (
    new_entry env entity entity_id action diff user_id w.audit_log,
    refl,
    refl,
    refl,
    refl,
    refl,
    refl,
    refl,
    tail_checksum-eq env.sha256 w.audit_log,
    next_key-Follows w.audit_log,
  ),
)

-- Where `verify_chain` names a row, the rows before it verify and that row does not fit them.
pub verify_from-first_bad :
    (hash : Payload → ℕ) (p id : ℕ) (log : List AuditLog)
    → verify_from hash p log ≡ some id
    → (before : List AuditLog) × (e : AuditLog) × (rest : List AuditLog) × (log
        ≡ before ++ e ∷ rest)
      × (e.id ≡ id)
      × Verifies hash p before
      × ((e.prev_checksum ≢ end_of hash p before) ⊎ (compute_checksum hash e ≢ e.checksum))
unfolding verify_from
verify_from-first_bad hash p id [] h = absurd (cc)
verify_from-first_bad hash p id (e ∷ log) h = elim (Bool-cases (e.prev_checksum == p)) [
  | inr off ↦ ([], e, log, refl, ground arith, tt, inl (ground arith))
  | inl fits ↦ elim (Bool-cases (compute_checksum hash e == e.checksum)) [
    | inr off ↦ ([], e, log, refl, ground arith, tt, inr (ground arith))
    | inl right ↦
        let (before, f, rest, split, named, good, bad) =
          verify_from-first_bad hash e.checksum id log (ground arith) in
        (e ∷ before, f, rest, ground arith, named, (ground arith, ground arith, good), bad)
  ]
]
