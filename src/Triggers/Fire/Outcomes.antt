-- ===== src/Triggers/Fire/Outcomes.antt =====
-- What `fire` and `evaluate` do to the session.
use qms_bakery.Prelude.{
  ℕ, ◌+◌, ◌≡◌, refl, sym, ap, ◌∙◌, Bool, true, false, ◌&&◌, arith, Option, none, some, List, [],
  ◌∷◌, ◌++◌, map, keep, ltb, leb, Bool-cases, Option-cases, inl, inr,
}
use mathlib.Core.List.{append-nil, append_assoc}
use qms_bakery.Prelude.Text.{Text}
use qms_bakery.Json.{Json, Fields, end, field, obj, bool}
use qms_bakery.Models.Triggers.{Trigger, Responder, TriggerExecution}
use qms_bakery.World.{Env, World, Result, ok, err, now, integrity_error, rolled_back}
use qms_bakery.Audit.{record_entry}
use qms_bakery.Triggers.Condition.{evaluate_condition, payload_scope, scope_matches}
use qms_bakery.Triggers.Gate.{should_fire, should_fire-at, live_gate, gate_scope}
use qms_bakery.Triggers.Respond.{dispatch_responder}
use qms_bakery.Triggers.Fire.{
  run_responders, fire, fire_dry, gated, act, evaluate_one, noted, put_last, start, Progress,
  duration_of, has_failed_flush, closed, execution,
}

abbrev pub keys : Fields → List Text
keys end = []
keys (field k v d) = k ∷ keys d

keys-put_last : (k : Text) (v : Json) (d : Fields) → keys (put_last k v d) ≡ keys d ++ k ∷ []
keys-put_last k v end = refl
keys-put_last k v (field j u d) = ap (λ (l : List Text). j ∷ l) (keys-put_last k v d)

keys-noted :
    (env : Env) (r : Responder) (outcome : Result Fields) (p : Progress)
    → keys (noted env r outcome p).results ≡ keys p.results ++ r.code ∷ []
keys-noted env r (ok o) p = keys-put_last r.code _ p.results
keys-noted env r (err e) p = keys-put_last r.code _ p.results

abbrev is_fine : Json → Bool
is_fine (obj (field k (bool b) d)) = b
is_fine _ = false

-- Whether each result says that its responder ended well.
abbrev pub all_fine : Fields → Bool
all_fine end = true
all_fine (field k v d) = is_fine v && all_fine d

all_fine-put_last :
    (k : Text) (v : Json) (d : Fields) → all_fine (put_last k v d) ≡ (is_fine v && all_fine d)
all_fine-put_last k v end = refl
all_fine-put_last k v (field j u d) = ground (arith, all_fine-put_last k v d)

-- The progress after some responders: a result for each, and `overall_ok` is what they say together.
abbrev Keeps : List Text → Progress → Type 0
Keeps codes p = (keys p.results ≡ codes) × (p.overall_ok ≡ all_fine p.results)

noted-Keeps :
    (env : Env) (r : Responder) (outcome : Result Fields) (codes : List Text) (p : Progress)
    → Keeps codes p
    → Keeps (codes ++ r.code ∷ []) (noted env r outcome p)
noted-Keeps env r (ok o) codes p (named, fine) = (
  keys-put_last r.code _ p.results ∙ ap (λ (l : List Text). l ++ r.code ∷ []) named,
  fine ∙ sym (all_fine-put_last r.code _ p.results),
)
noted-Keeps env r (err e) codes p (named, fine) = (
  keys-put_last r.code _ p.results ∙ ap (λ (l : List Text). l ++ r.code ∷ []) named,
  sym (all_fine-put_last r.code _ p.results),
)

-- The session after some responders, each in the session that the one before it leaves.
abbrev pub session_after : Env → Trigger → Fields → List Responder → World → World
session_after env t payload [] w = w
session_after env t payload (r ∷ rs) w =
    session_after env t payload rs (dispatch_responder env r t payload w).1

-- The flush of one of the responders fails.
abbrev pub FlushFails : Env → Trigger → Fields → List Responder → World → Type 0
FlushFails env t payload rs w =
    (before : List Responder) × (r : Responder) × (after : List Responder) × (rs
      ≡ before ++ r ∷ after)
    × (has_failed_flush
          (dispatch_responder env r t payload (session_after env t payload before w)).0
        ≡ true)

-- How the loop over the responders ends.
abbrev Run :
    Env → Trigger → Fields → List Text → List Responder → World → Result Progress × World → Type 0
Run env t payload codes rs w (ok p, w') =
    Keeps (codes ++ map (λ (r : Responder). r.code) rs) p × (w' ≡ session_after env t payload rs w)
Run env t payload codes rs w (err e, w') = (e ≡ integrity_error) × FlushFails env t payload rs w

next-Run :
    (env : Env) (t : Trigger) (payload : Fields) (codes : List Text) (r : Responder)
    (rs : List Responder) (w : World) (q : Result Progress × World)
    → Run env t payload (codes ++ r.code ∷ []) rs (dispatch_responder env r t payload w).1 q
    → Run env t payload codes (r ∷ rs) w q
next-Run env t payload codes r rs w (ok p, w') ((named, fine), same) =
    ((named ∙ append_assoc codes (r.code ∷ []) (map (λ (s : Responder). s.code) rs), fine), same)
next-Run env t payload codes r rs w (err e, w') (raised, (before, s, after, split, failed)) =
    (raised, (r ∷ before, s, after, ap (λ (l : List Responder). r ∷ l) split, failed))

run_responders-Run :
    (env : Env) (t : Trigger) (payload : Fields) (codes : List Text) (rs : List Responder)
    (p : Progress) (w : World)
    → Keeps codes p
    → Run env t payload codes rs w (run_responders env t payload rs p w)
unfolding run_responders
run_responders-Run env t payload codes [] p w (named, fine) =
    ((named ∙ sym (append-nil codes), fine), refl)
run_responders-Run env t payload codes (r ∷ rs) p w h =
    let (outcome, w') = dispatch_responder env r t payload w in
    let rest =
      run_responders-Run env t payload (codes ++ r.code ∷ []) rs (noted env r outcome p) w'
        (noted-Keeps env r outcome codes p h) in
    elim (Bool-cases (has_failed_flush outcome)) [
      | inl failed ↦ rw failed (refl, ([], r, rs, refl, failed))
      | inr fine ↦ rw fine (next-Run env t payload codes r rs w _ rest)
    ]

-- What a call of `fire` has done, by how it ended.
abbrev pub Fired : Env → Trigger → Fields → World → Result TriggerExecution × World → Type 0
Fired env t payload w (ok x, w') =
    let rs = keep (λ (r : Responder). r.is_active) t.responders in
    (keys x.responder_results ≡ map (λ (r : Responder). r.code) rs)
    × (x.success ≡ all_fine x.responder_results)
    × (w'.tickets ≡ (session_after env t payload rs w).tickets)
    × (w'.notifications ≡ (session_after env t payload rs w).notifications)
    × (w'.jobs ≡ (session_after env t payload rs w).jobs)
    × (w'.executions ≡ (session_after env t payload rs w).executions ++ x ∷ [])
Fired env t payload w (err e, w') =
    (e ≡ integrity_error)
    × FlushFails env t payload (keep (λ (r : Responder). r.is_active) t.responders) w
    × (w' ≡ rolled_back w w')

closed-Fired :
    (env : Env) (t : Trigger) (payload : Fields) (w : World) (q : Result Progress × World)
    → Run env t payload [] (keep (λ (r : Responder). r.is_active) t.responders) w q
    → Fired env t payload w (closed env t payload w q)
unfolding record_entry
closed-Fired env t payload w (ok p, w') ((named, fine), same) = (
  named,
  fine,
  ap (λ (u : World). u.tickets) same,
  ap (λ (u : World). u.notifications) same,
  ap (λ (u : World). u.jobs) same,
  ap (λ (u : World). u.executions ++ execution env t payload p ∷ []) same,
)
closed-Fired env t payload w (err e, w') (raised, failed) = (raised, failed, refl)

-- A responder that raises, but for a failed flush, does not stop the others: the results of a firing have one
-- entry for each active responder, in their order, the firing is a success if all of them are, and the
-- tickets, notifications, jobs and executions are those that the responders leave one after the other,
-- with the new execution. `fire` raises only where the flush of a responder fails, and then only what
-- went to Redis stays.
pub fire-results :
    (env : Env) (t : Trigger) (payload : Fields) (w : World)
    → Fired env t payload w (fire env t payload w)
unfolding fire
fire-results env t payload w = closed-Fired env t payload w _ (
    run_responders-Run env t payload [] (keep (λ r. r.is_active) t.responders) start w (refl, refl))

-- The session but for executions, gates and the trail.
abbrev pub OnlyNoted : World → World → Type 0
OnlyNoted w w' =
    w' ≡ record w { executions = w'.executions; gates = w'.gates; audit_log = w'.audit_log }

should_fire-OnlyNoted :
    (env : Env) (trigger : ℕ) (scope : Option Text) (duration : ℕ) (w : World)
    → OnlyNoted w (should_fire env trigger scope duration w).1
should_fire-OnlyNoted env trigger scope duration w =
    elim (Option-cases (live_gate env trigger (gate_scope scope) w)) [
      | inl absent ↦ rw (should_fire-at env trigger scope duration w none absent) refl
      | inr (g, found) ↦ elim (Bool-cases (leb (g.first_true + duration) (now env))) [
        | inl long ↦ rw (should_fire-at env trigger scope duration w (some g) found, long) refl
        | inr short ↦ rw (should_fire-at env trigger scope duration w (some g) found, short) refl
      ]
    ]

gated-OnlyNoted :
    (env : Env) (t : Trigger) (payload : Fields) (w : World) → OnlyNoted w (gated env t payload w).1
unfolding gated
gated-OnlyNoted env t payload w = elim (Bool-cases (ltb 0 (duration_of t))) [
  | inr plain ↦ rw (plain, gated) refl
  | inl lasting ↦ elim (Bool-cases (evaluate_condition env t.condition payload)) [
    | inr off ↦ rw (lasting, off, gated) refl
    | inl on ↦
        rw (lasting, on, gated)
          (should_fire-OnlyNoted env t.id (payload_scope env payload) (duration_of t) w)
  ]
]

act-dry :
    (env : Env) (t : Trigger) (payload : Fields) (fires : Bool) (w : World)
    → t.dry_run ≡ true
    → OnlyNoted w (act env t payload (fires, w)).1 × ((act env t payload (fires, w)).0 ≡ ok [])
unfolding fire_dry record_entry
act-dry env t payload false w dry = (refl, refl)
act-dry env t payload true w dry = rw dry (refl, refl)

-- A trigger in dry run never acts: whatever the payload, `evaluate` changes nothing for it but the
-- executions, the duration gates and the audit trail, and does not count it as fired.
pub evaluate_one-dry :
    (env : Env) (t : Trigger) (payload : Fields) (w : World)
    → t.dry_run ≡ true
    → OnlyNoted w (evaluate_one env t payload w).1 × ((evaluate_one env t payload w).0 ≡ ok [])
unfolding evaluate_one
evaluate_one-dry env t payload w dry =
    elim (Bool-cases (scope_matches t.scope (payload_scope env payload))) [
      | inr apart ↦ rw (apart, evaluate_one) (refl, refl)
      | inl same ↦
          let (fires, w') = gated env t payload w in
          let (noted_only, unfired) = act-dry env t payload fires w' dry in
          rw (same, evaluate_one)
            (
              noted_only
                  ∙ ap
                      (λ (v : World). record v {
                        executions = (act env t payload (fires, w')).1.executions;
                        gates = (act env t payload (fires, w')).1.gates;
                        audit_log = (act env t payload (fires, w')).1.audit_log;
                      })
                      (gated-OnlyNoted env t payload w),
              unfired,
            )
    ]
