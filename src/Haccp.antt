-- ===== src/Haccp.antt =====
-- app/services/haccp.py: measurements at critical control points.
pub mod Breach
mod Tests
use qms_bakery.Prelude.{
  ℕ, ◌+◌, Bool, true, false, not, Option, none, some, List, [], ◌∷◌, ◌++◌, map, find, take, ◌==◌,
  if◌then◌else◌, is_none,
}
use qms_bakery.Prelude.Int.{ℤ}
use qms_bakery.Prelude.Text.{Text, codes, text_eq, is_blank}
use qms_bakery.Json.{Json, null, num, str, uid, obj, bool, Fields, end, field, option_str}
use qms_bakery.Models.Audit.{AuditAction, EntityType}
use qms_bakery.Models.Quality.{CcpDefinition, CcpMeasurement, is_within_limits}
use qms_bakery.Models.Tickets.{Ticket, TicketSeverity, TicketSource, TicketCategory}
use qms_bakery.World.{
  Env, World, now, Session, Result, ok, err, Error, pure, gets, or_raise, raise_if, modify,
  gen_uuid, is_flush_failure, rolled_back, ◌>>=◌, ◌>>◌,
}
use qms_bakery.Audit.{record_entry}
use qms_bakery.Tickets.{NewTicket, create_ticket, put_ticket}

-- The keyword arguments of `record_measurement`.
pub record NewMeasurement : Type 0 where
  pub ccp_id : ℕ
  pub value : ℤ
  pub measured_by_user_id : Option ℕ
  pub device_id : Option Text
  pub notes : Option Text

abbrev pub find_ccp : ℕ → World → Option CcpDefinition
find_ccp id w = find (λ c. c.id == id) w.ccps

abbrev pub new_measurement : Env → CcpDefinition → NewMeasurement → ℕ → CcpMeasurement
new_measurement env ccp n id = record {
  id = id;
  ccp_id = ccp.id;
  measured_value = n.value;
  measured_at = now env;
  measured_by_user_id = n.measured_by_user_id;
  device_id = n.device_id;
  is_within_limits = is_within_limits ccp n.value;
  notes = n.notes;
  linked_ticket_id = none;
}

abbrev measured_diff : CcpDefinition → NewMeasurement → Fields
measured_diff ccp n = field (codes "ccp_code") (str ccp.code) (
    field (codes "value") (num n.value) (
      field (codes "within_limits") (bool (is_within_limits ccp n.value))
        (field (codes "device_id") (option_str n.device_id) end)))

abbrev limit_text : Env → Option ℤ → Text
limit_text env none = codes "None"
limit_text env (some l) = env.float_text l

abbrev option_num : Option ℤ → Json
option_num none = null
option_num (some l) = num l

abbrev has_device : Option Text → Bool
has_device none = false
has_device (some d) = not (is_blank d)

abbrev deviation_title : Env → CcpDefinition → ℤ → Text
deviation_title env ccp v =
    codes "CCP deviation: "
    ++ ccp.code
    ++ codes " = "
    ++ env.float_text v
    ++ codes " "
    ++ ccp.unit
    ++ codes " (limits: "
    ++ limit_text env ccp.critical_limit_min
    ++ codes "–"
    ++ limit_text env ccp.critical_limit_max
    ++ codes ")"

-- The ticket that a value outside the limits asks for.
abbrev pub deviation : Env → CcpDefinition → NewMeasurement → ℕ → NewTicket
deviation env ccp n measurement = record {
  line_id = ccp.line_id;
  title = take 200 (deviation_title env ccp n.value);
  description = n.notes;
  severity = TicketSeverity.critical;
  category =
      if text_eq ccp.parameter (codes "temperature")
      then TicketCategory.temperature_deviation
      else TicketCategory.other;
  source = if has_device n.device_id then TicketSource.iot else TicketSource.manual;
  created_by_user_id = n.measured_by_user_id;
  metadata = field (codes "ccp_id") (uid ccp.id) (
      field (codes "ccp_code") (str ccp.code) (
        field (codes "measurement_id") (uid measurement) (
          field (codes "value") (num n.value) (
            field (codes "limits")
              (obj (
                field (codes "min") (option_num ccp.critical_limit_min)
                  (field (codes "max") (option_num ccp.critical_limit_max) end)))
              end))));
}

-- Writes a row back.
abbrev pub put_measurement : CcpMeasurement → World → World
put_measurement m w = record w {
  measurements = map (λ u. if u.id == m.id then m else u) w.measurements;
}

abbrev pub flagged : Ticket → Ticket
flagged t = record t { is_ccp_related = true }

abbrev pub linked : CcpMeasurement → Ticket → CcpMeasurement
linked m t = record m { linked_ticket_id = some t.id }

-- A ticket that is refused leaves the measurement in the session; a failed flush rolls the transaction
-- back, to the session `before` the call, which begins the transaction.
abbrev pub link_up : World → CcpMeasurement → Result Ticket × World → Result CcpMeasurement × World
link_up before m (err e, w) = (err e, if is_flush_failure e then rolled_back before w else w)
link_up before m (ok t, w) =
    (ok (linked m t), put_measurement (linked m t) (put_ticket (flagged t) w))

-- `if not within: ...`
unfoldable pub open_deviation :
    Env → CcpDefinition → NewMeasurement → CcpMeasurement → World → Session CcpMeasurement
open_deviation env ccp n m before w =
    link_up before m (create_ticket env (deviation env ccp n m.id) w)

-- The session with the measurement and its audit entry.
unfoldable pub measured : Env → CcpDefinition → NewMeasurement → World → World
measured env ccp n w =
    let id = w.next_id in
    record_entry env EntityType.ccp_measurement (some id) AuditAction.record_ (measured_diff ccp n)
      n.measured_by_user_id
      (record w {
        next_id = id + 1;
        measurements = w.measurements ++ new_measurement env ccp n id ∷ [];
      })

-- `record_measurement`, once the control point is found and active.
unfoldable pub measure_at : Env → CcpDefinition → NewMeasurement → Session CcpMeasurement
measure_at env ccp n w =
    let m = new_measurement env ccp n w.next_id in
    if is_within_limits ccp n.value
    then (ok m, measured env ccp n w)
    else open_deviation env ccp n m w (measured env ccp n w)

-- `record_measurement`
unfoldable pub record_measurement : Env → NewMeasurement → Session CcpMeasurement
record_measurement env n = do
  ccp ← or_raise (← gets (find_ccp n.ccp_id)) Error.ccp_not_found
  raise_if (not ccp.is_active) Error.ccp_inactive
  measure_at env ccp n
