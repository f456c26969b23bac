-- ===== src/Triggers/Fire.antt =====
-- app/services/triggers.py: `fire` and `evaluate`.
pub mod Outcomes
use qms_bakery.Prelude.{
  ℕ, ◌/◌, Bool, true, false, not, ◌&&◌, Option, none, some, List, [], ◌∷◌, ◌++◌, keep, ltb,
  if◌then◌else◌, or_else, is_some,
}
use qms_bakery.Prelude.Int.{ℤ, pos, negsuc}
use qms_bakery.Prelude.Text.{Text, codes}
use qms_bakery.Json.{
  Json, null, bool, num, str, uid, moment, arr, obj, Fields, end, field, get, get_truthy, as_uid,
}
use qms_bakery.Models.Audit.{AuditAction, EntityType}
use qms_bakery.Models.Triggers.{Trigger, Responder, TriggerExecution}
use qms_bakery.World.{
  Env, World, now, Result, ok, err, integrity_error, is_flush_failure, rolled_back,
}
use qms_bakery.Audit.{record_entry}
use qms_bakery.Triggers.Condition.{evaluate_condition, payload_scope, scope_matches}
use qms_bakery.Triggers.Gate.{should_fire, reset_gate}
use qms_bakery.Triggers.Respond.{dispatch_responder}

-- The local variables of `fire`.
pub record Progress : Type 0 where
  pub results : Fields
  pub overall_ok : Bool
  pub linked_ticket_id : Option ℕ

abbrev pub start : Progress
start = record { results = end; overall_ok = true; linked_ticket_id = none }

-- `results[key] = value`, of a new key
abbrev pub put_last : Text → Json → Fields → Fields
put_last key v end = field key v end
put_last key v (field k u d) = field k u (put_last key v d)

abbrev ticket_in : Option Json → Option ℕ
ticket_in none = none
ticket_in (some v) = as_uid v

-- The body of the loop, by how the responder ended.
abbrev pub noted : Env → Responder → Result Fields → Progress → Progress
noted env r (ok outcome) p = record {
  results = put_last r.code (obj (field (codes "ok") (bool true) outcome)) p.results;
  overall_ok = p.overall_ok;
  linked_ticket_id =
      or_else p.linked_ticket_id (ticket_in (get_truthy (codes "ticket_id") outcome));
}
noted env r (err e) p = record {
  results =
      put_last r.code
        (obj (field (codes "ok") (bool false) (field (codes "error") (str (env.message e)) end)))
        p.results;
  overall_ok = false;
  linked_ticket_id = p.linked_ticket_id;
}

abbrev pub has_failed_flush : Result Fields → Bool
has_failed_flush (ok outcome) = false
has_failed_flush (err e) = is_flush_failure e

-- The loop over the active responders. A flush that fails rolls the transaction back, and the next use of
-- the session, which is in the `except` branch itself, raises out of the loop.
unfoldable pub run_responders :
    Env → Trigger → Fields → List Responder → Progress → World → Result Progress × World
run_responders env t payload [] p w = (ok p, w)
run_responders env t payload (r ∷ rs) p w =
    let (outcome, w') = dispatch_responder env r t payload w in
    let rest = run_responders env t payload rs (noted env r outcome p) w' in
    if has_failed_flush outcome then (err integrity_error, w') else rest

abbrev pub execution : Env → Trigger → Fields → Progress → TriggerExecution
execution env t payload p = record {
  trigger_id = t.id;
  fired_at = now env;
  payload = payload;
  success = p.overall_ok;
  responder_results = p.results;
  linked_ticket_id = p.linked_ticket_id;
}

abbrev fire_diff : Trigger → Fields → Progress → Fields
fire_diff t payload p = field (codes "trigger_code") (str t.code) (
    field (codes "payload") (obj payload) (
      field (codes "responder_results") (obj p.results)
        (field (codes "dry_run") (bool t.dry_run) end)))

abbrev pub closed :
    Env → Trigger → Fields → World → Result Progress × World → Result TriggerExecution × World
closed env t payload w (ok p, w') = (
  ok (execution env t payload p),
  record_entry env EntityType.trigger (some t.id) AuditAction.fire (fire_diff t payload p) none
      (record w' { executions = w'.executions ++ execution env t payload p ∷ [] }),
)
closed env t payload w (err e, w') = (err e, rolled_back w w')

-- `fire`
unfoldable pub fire : Env → Trigger → Fields → World → Result TriggerExecution × World
fire env t payload w =
    closed env t payload w
      (run_responders env t payload (keep (λ r. r.is_active) t.responders) start w)

-- `int(condition.get("duration_seconds") or 0)`, of a number; a negative one is none at all.
abbrev seconds : Option Json → ℕ
seconds (some (num (pos n))) = n / 1000
seconds (some (bool true)) = 1
seconds _ = 0

abbrev pub duration_of : Trigger → ℕ
duration_of t = seconds (get (codes "duration_seconds") t.condition)

-- Whether the trigger fires on the payload, with the gate moved on.
unfoldable pub gated : Env → Trigger → Fields → World → Bool × World
gated env t payload w =
    let condition_true = evaluate_condition env t.condition payload in
    let scope = payload_scope env payload in
    if ltb 0 (duration_of t)
    then (if not condition_true
        then (false, reset_gate t.id scope w)
        else should_fire env t.id scope (duration_of t) w)
    else (condition_true, w)

abbrev dry_execution : Env → Trigger → Fields → TriggerExecution
dry_execution env t payload = record {
  trigger_id = t.id;
  fired_at = now env;
  payload = field (codes "_dry_run") (bool true) payload;
  success = true;
  responder_results = field (codes "dry_run") (bool true) end;
  linked_ticket_id = none;
}

-- The branch of `evaluate` for a dry run.
unfoldable pub fire_dry : Env → Trigger → Fields → World → World
fire_dry env t payload w =
    record_entry env EntityType.trigger (some t.id) AuditAction.fire_dry_run
      (field (codes "payload") (obj payload) end) none
      (record w { executions = w.executions ++ dry_execution env t payload ∷ [] })

-- `fired.append(...)`
abbrev one : Result TriggerExecution × World → Result (List TriggerExecution) × World
one (ok e, w) = (ok (e ∷ []), w)
one (err e, w) = (err e, w)

abbrev pub act : Env → Trigger → Fields → Bool × World → Result (List TriggerExecution) × World
act env t payload (false, w) = (ok [], w)
act env t payload (true, w) =
    if t.dry_run then (ok [], fire_dry env t payload w) else one (fire env t payload w)

-- The body of the loop of `evaluate`.
unfoldable pub evaluate_one :
    Env → Trigger → Fields → World → Result (List TriggerExecution) × World
evaluate_one env t payload w =
    if not (scope_matches t.scope (payload_scope env payload))
    then (ok [], w)
    else act env t payload (gated env t payload w)

abbrev and_more :
    Result (List TriggerExecution)
    → Result (List TriggerExecution) × World
    → World
    → Result (List TriggerExecution) × World
and_more (err e) rest w = (err e, w)
and_more (ok fired) (ok more, v) w = (ok (fired ++ more), v)
and_more (ok fired) (err e, v) w = (err e, v)

unfoldable pub evaluate_all :
    Env → Fields → List Trigger → World → Result (List TriggerExecution) × World
evaluate_all env payload [] w = (ok [], w)
evaluate_all env payload (t ∷ ts) w =
    let (fired, w') = evaluate_one env t payload w in
    let rest = evaluate_all env payload ts w' in and_more fired rest w'

-- A call that raises takes the transaction with it, which its callers begin with it.
abbrev kept_or_back :
    World → Result (List TriggerExecution) × World → Result (List TriggerExecution) × World
kept_or_back w (ok fired, w') = (ok fired, w')
kept_or_back w (err e, w') = (err e, rolled_back w w')

-- `evaluate`
unfoldable pub evaluate : Env → Fields → World → Result (List TriggerExecution) × World
evaluate env payload w =
    kept_or_back w (evaluate_all env payload (keep (λ t. t.is_active) w.triggers) w)
