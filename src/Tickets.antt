-- ===== src/Tickets.antt =====
-- app/services/tickets.py: the life of a ticket. A row is passed as a value, and written back under
-- its key.
pub mod Number
pub mod Query
pub mod Views
pub mod Life
mod Tests
use qms_bakery.Prelude.{
  ℕ, zero, suc, ◌+◌, ◌≡◌, ◌/◌, Bool, true, false, not, ◌&&◌, ◌||◌, Option, none, some, List, [],
  ◌∷◌, ◌++◌, map, any, keep, find, count_if, take, length, ltb, ◌==◌, if◌then◌else◌, is_some,
  is_none, or_else, option_eq,
}
use qms_bakery.Prelude.Dates.{date_of}
use qms_bakery.Prelude.Text.{Text, codes, strip, or_none, text_eq}
use qms_bakery.Prelude.Int.{pos}
use qms_bakery.Json.{Json, Fields, end, field, str, uid, option_uid, option_str}
use qms_bakery.Models.Production.{ProductionLine, Pipeline}
use qms_bakery.Models.Audit.{AuditAction, EntityType}
use qms_bakery.Models.Tickets.{
  Ticket, TicketEvent, TicketStatus, TicketSeverity, TicketSource, TicketCategory, TicketEventType,
  ticket_transitions, closed_states, status_in, status_eq, severity_eq, is_open,
}
use qms_bakery.World.{
  Env, World, now, Session, Error, Result, ok, err, pure, gets, or_raise, raise, raise_if, modify,
  gen_uuid, ◌>>=◌, ◌>>◌, line_not_found, line_inactive, integrity_error, invalid_transition,
}
use qms_bakery.Audit.{record_entry}
use qms_bakery.Tickets.Number.{generate_ticket_number}

-- The values of the enumerations, as they stand in JSON.
abbrev pub status_value : TicketStatus → Text
status_value TicketStatus.new = codes "new"
status_value TicketStatus.assigned = codes "assigned"
status_value TicketStatus.in_progress = codes "in_progress"
status_value TicketStatus.awaiting_verification = codes "awaiting_verification"
status_value TicketStatus.escalated = codes "escalated"
status_value TicketStatus.rejected = codes "rejected"
status_value TicketStatus.closed = codes "closed"

abbrev pub severity_value : TicketSeverity → Text
severity_value TicketSeverity.low = codes "low"
severity_value TicketSeverity.medium = codes "medium"
severity_value TicketSeverity.high = codes "high"
severity_value TicketSeverity.critical = codes "critical"

abbrev pub source_value : TicketSource → Text
source_value TicketSource.manual = codes "manual"
source_value TicketSource.iot = codes "iot"
source_value TicketSource.api = codes "api"

-- The keyword arguments of `create_ticket`.
pub record NewTicket : Type 0 where
  pub line_id : ℕ
  pub title : Text
  pub description : Option Text
  pub severity : TicketSeverity
  pub category : TicketCategory
  pub source : TicketSource
  pub created_by_user_id : Option ℕ
  pub metadata : Fields

-- The active pipeline of a line with the highest version.
abbrev newer : Pipeline → Option Pipeline → Pipeline
newer p none = p
newer p (some q) = if ltb p.version q.version then q else p

pub active_pipeline : ℕ → List Pipeline → Option Pipeline
active_pipeline line [] = none
active_pipeline line (p ∷ ps) =
    let rest = active_pipeline line ps in
    if (p.line_id == line) && p.is_active then some (newer p rest) else rest

abbrev pipeline_id : Option Pipeline → Option ℕ
pipeline_id none = none
pipeline_id (some p) = some p.id

abbrev head : List ℕ → Option ℕ
head [] = none
head (s ∷ ss) = some s

abbrev first_stage : Option Pipeline → Option ℕ
first_stage none = none
first_stage (some p) = head p.stages

abbrev stripped : Option Text → Option Text
stripped none = none
stripped (some t) = or_none (strip t)

-- The row that `create_ticket` adds; its `version` and `is_ccp_related` are column defaults.
unfoldable pub new_ticket : Env → NewTicket → Option Pipeline → Text → ℕ → Ticket
new_ticket env n pipeline number id = record {
  id = id;
  ticket_number = number;
  line_id = n.line_id;
  pipeline_id = pipeline_id pipeline;
  current_stage_id = first_stage pipeline;
  status = TicketStatus.new;
  source = n.source;
  severity = n.severity;
  category = n.category;
  title = take 200 (strip n.title);
  description = stripped n.description;
  is_ccp_related = false;
  extra_data = n.metadata;
  version = 1;
  created_by_user_id = n.created_by_user_id;
  assigned_to_user_id = none;
  created_at = now env;
  closed_at = none;
}

abbrev created_event : Env → Ticket → TicketEvent
created_event env t = record {
  ticket_id = t.id;
  event_type = TicketEventType.created;
  from_status = none;
  to_status = some t.status;
  user_id = t.created_by_user_id;
  comment = none;
  occurred_at = now env;
  payload =
      field (codes "source") (str (source_value t.source))
        (field (codes "severity") (str (severity_value t.severity)) end);
}

abbrev created_diff : Ticket → Fields
created_diff t = field (codes "ticket_number") (str t.ticket_number) (
    field (codes "title") (str t.title) (
      field (codes "severity") (str (severity_value t.severity))
        (field (codes "source") (str (source_value t.source)) end)))

abbrev pub add_ticket : Ticket → World → World
add_ticket t w = record w { tickets = w.tickets ++ t ∷ [] }

abbrev pub add_event : TicketEvent → World → World
add_event e w = record w { ticket_events = w.ticket_events ++ e ∷ [] }

-- Writes a row back.
abbrev pub put_ticket : Ticket → World → World
put_ticket t w = record w { tickets = map (λ u. if u.id == t.id then t else u) w.tickets }

abbrev pub find_line : ℕ → World → Option ProductionLine
find_line id w = find (λ l. l.id == id) w.lines

abbrev pub find_ticket : ℕ → World → Option Ticket
find_ticket id w = find (λ t. t.id == id) w.tickets

abbrev pub ticket_audit : Env → ℕ → AuditAction → Fields → Option ℕ → World → World
ticket_audit env id action diff user = record_entry env EntityType.ticket (some id) action diff user

-- What `create_ticket` writes once its checks have passed. The number is unique in the table: a
-- second row with it is refused by the database.
insert_ticket : Env → NewTicket → Session Ticket
unfolding new_ticket active_pipeline generate_ticket_number
insert_ticket env n = do
  w ← gets (λ (w : World). w)
  let number = generate_ticket_number env.clock.year (map (λ t. t.ticket_number) w.tickets)
  raise_if (any (λ t. text_eq t.ticket_number number) w.tickets) integrity_error
  id ← gen_uuid
  let t = new_ticket env n (active_pipeline n.line_id w.pipelines) number id
  modify (add_ticket t)
  modify (add_event (created_event env t))
  modify (ticket_audit env id AuditAction.create (created_diff t) n.created_by_user_id)
  pure t

-- `create_ticket`
unfoldable pub create_ticket : Env → NewTicket → Session Ticket
unfolding insert_ticket
create_ticket env n = do
  line ← or_raise (← gets (find_line n.line_id)) line_not_found
  raise_if (not line.is_active) line_inactive
  insert_ticket env n

-- What `transition` makes of the row.
pub moved : Env → Ticket → TicketStatus → Option ℕ → Ticket
moved env t new_status user = record t {
  assigned_to_user_id =
      if status_eq new_status TicketStatus.assigned && is_none t.assigned_to_user_id
      then user
      else t.assigned_to_user_id;
  closed_at = if status_in new_status closed_states then some (now env) else t.closed_at;
  status = new_status;
  version = t.version + 1;
}

abbrev status_event : Env → Ticket → TicketStatus → Option ℕ → Option Text → TicketEvent
status_event env t new_status user comment = record {
  ticket_id = t.id;
  event_type = TicketEventType.status_change;
  from_status = some t.status;
  to_status = some new_status;
  user_id = user;
  comment = comment;
  occurred_at = now env;
  payload = end;
}

abbrev status_diff : Ticket → TicketStatus → Option Text → Fields
status_diff t new_status comment = field (codes "from") (str (status_value t.status)) (
    field (codes "to") (str (status_value new_status))
      (field (codes "comment") (option_str comment) end))

-- `transition`
unfoldable pub transition : Env → Ticket → TicketStatus → Option ℕ → Option Text → Session Ticket
unfolding moved
transition env t new_status user comment = do
  raise_if (not (status_in new_status (ticket_transitions t.status)))
      (invalid_transition t.status new_status)
  modify (put_ticket (moved env t new_status user))
  modify (add_event (status_event env t new_status user comment))
  modify (ticket_audit env t.id AuditAction.status_change (status_diff t new_status comment) user)
  pure (moved env t new_status user)

abbrev assign_fields : Option ℕ → ℕ → Fields
assign_fields prev user = field (codes "from") (option_uid prev) (field (codes "to") (uid user) end)

abbrev assign_event : Env → Ticket → ℕ → Option ℕ → TicketEvent
assign_event env t user by_user = record {
  ticket_id = t.id;
  event_type = TicketEventType.assigned;
  from_status = none;
  to_status = none;
  user_id = by_user;
  comment = none;
  occurred_at = now env;
  payload = assign_fields t.assigned_to_user_id user;
}

-- The branch of `assign_to` for a ticket that is not new.
reassign : Env → Ticket → ℕ → Option ℕ → Session Ticket
reassign env t user by_user = do
  let t' = record t { assigned_to_user_id = some user }
  modify (put_ticket t')
  modify (add_event (assign_event env t user by_user))
  modify (
      ticket_audit env t.id AuditAction.assigned (assign_fields t.assigned_to_user_id user) by_user)
  pure t'

-- `assign_to`
unfoldable pub assign_to : Env → Ticket → ℕ → Option ℕ → Session Ticket
unfolding reassign transition
assign_to env t user by_user =
    if status_eq t.status TicketStatus.new
    then transition env (record t { assigned_to_user_id = some user }) TicketStatus.assigned
        (or_else by_user (some user)) none
    else reassign env t user by_user

abbrev comment_event : Env → Ticket → ℕ → Text → TicketEvent
comment_event env t user comment = record {
  ticket_id = t.id;
  event_type = TicketEventType.comment;
  from_status = none;
  to_status = none;
  user_id = some user;
  comment = some (take 5000 (strip comment));
  occurred_at = now env;
  payload = end;
}

abbrev pub comment_diff : Text → Fields
comment_diff comment = field (codes "length") (Json.num (pos (length comment))) end

-- `add_comment`
unfoldable pub add_comment : Env → Ticket → ℕ → Text → Session TicketEvent
add_comment env t user comment = do
  modify (add_event (comment_event env t user comment))
  modify (ticket_audit env t.id AuditAction.comment (comment_diff comment) (some user))
  pure (comment_event env t user comment)
