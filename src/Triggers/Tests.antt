-- ===== src/Triggers/Tests.antt =====
-- An oven that is too hot, at the sample plant.
use qms_bakery.Prelude.{◌+◌, ◌≡◌, refl, ◌⊎◌, true, false, none, [], ◌∷◌, leb, arith}
use qms_bakery.Prelude.Int.{pos}
use qms_bakery.Prelude.Text.{codes}
use qms_bakery.Json.{Fields, end, field, num, str, get}
use qms_bakery.Models.Tickets.{TicketSeverity}
use qms_bakery.Models.Triggers.{Trigger, ResponderType}
use qms_bakery.World.{Env, now}
use qms_bakery.Triggers.Condition.{evaluate_condition, compare_values, json_lt, operator_of}
use qms_bakery.Triggers.Gate.{should_fire, should_fire_lem, live_gate, gate_scope}
use qms_bakery.Triggers.Fire.{fire}
use qms_bakery.Triggers.Fire.Outcomes.{Fired, fire-results}
use qms_bakery.Samples.{env, moment, plant}

abbrev too_hot : Fields
too_hot = field (codes "metric") (str (codes "temperature")) (
    field (codes "operator") (str (codes ">")) (
      field (codes "value") (num (pos 220000))
        (field (codes "duration_seconds") (num (pos 30000)) end)))

abbrev reading : Fields
reading = field (codes "temperature") (num (pos 230000)) end

reading-evaluate_condition : evaluate_condition env too_hot reading ≡ true
unfolding evaluate_condition get operator_of compare_values json_lt
reading-evaluate_condition = refl

abbrev half_a_minute_later : Env
half_a_minute_later = record env { clock = moment 3630 }

should_fire_lem_example :
    let (fires, w') = should_fire env 1 none 30 plant in
    let (fires', w'') = should_fire half_a_minute_later 1 none 30 w' in
    (fires ≡ false)
    × (fires' ≡ leb (now env + 30) (now half_a_minute_later))
    × ((fires' ≡ false) × (w'' ≡ w')
        ⊎ (fires' ≡ true) × (live_gate half_a_minute_later 1 (gate_scope none) w'' ≡ none))
unfolding now
should_fire_lem_example = should_fire_lem env half_a_minute_later 1 none 30 plant refl (omega arith)

abbrev oven : Trigger
oven = record {
  id = 1;
  code = codes "OVEN";
  scope = none;
  condition = too_hot;
  severity = TicketSeverity.high;
  is_active = true;
  dry_run = true;
  responders =
      record { code = codes "HOOK"; type = ResponderType.webhook; config = end; is_active = true }
      ∷ record {
        code = codes "BELL";
        type = ResponderType.notify_in_app;
        config = end;
        is_active = true;
      }
      ∷ [];
}

fire-results_example : Fired env oven reading plant (fire env oven reading plant)
fire-results_example = fire-results env oven reading plant
