-- ===== src/Models/Tickets.antt =====
-- app/models/tickets.py
use qms_bakery.Prelude.{ℕ, Bool, not, Option, List, [], ◌∷◌, any, ◌==◌}
use qms_bakery.Prelude.Text.{Text}
use qms_bakery.Json.{Fields}

pub data TicketStatus : Type 0 where
  new assigned in_progress awaiting_verification escalated rejected closed : TicketStatus

pub data TicketSeverity : Type 0 where
  low medium high critical : TicketSeverity

pub data TicketSource : Type 0 where
  manual iot api : TicketSource

pub data TicketEventType : Type 0 where
  created status_change assigned comment : TicketEventType

pub data TicketCategory : Type 0 where
  temperature_deviation weight_out_of_spec foreign_body : TicketCategory
  allergen_cross_contact hygiene other : TicketCategory

abbrev status_index : TicketStatus → ℕ
status_index new = 0
status_index TicketStatus.assigned = 1
status_index in_progress = 2
status_index awaiting_verification = 3
status_index escalated = 4
status_index rejected = 5
status_index closed = 6

abbrev pub status_eq : TicketStatus → TicketStatus → Bool
status_eq a b = status_index a == status_index b

abbrev severity_index : TicketSeverity → ℕ
severity_index low = 0
severity_index medium = 1
severity_index high = 2
severity_index critical = 3

abbrev pub severity_eq : TicketSeverity → TicketSeverity → Bool
severity_eq a b = severity_index a == severity_index b

-- `TICKET_TRANSITIONS`
abbrev pub ticket_transitions : TicketStatus → List TicketStatus
ticket_transitions new = TicketStatus.assigned ∷ rejected ∷ []
ticket_transitions TicketStatus.assigned = in_progress ∷ escalated ∷ rejected ∷ []
ticket_transitions in_progress = awaiting_verification ∷ escalated ∷ rejected ∷ []
ticket_transitions awaiting_verification = closed ∷ in_progress ∷ []
ticket_transitions escalated = in_progress ∷ closed ∷ rejected ∷ []
ticket_transitions rejected = []
ticket_transitions closed = []

abbrev pub closed_states : List TicketStatus
closed_states = closed ∷ rejected ∷ []

abbrev pub status_in : TicketStatus → List TicketStatus → Bool
status_in s states = any (λ t. status_eq s t) states

-- The columns of `Ticket`. `is_ccp_related` is set by the HACCP service alone.
pub record Ticket : Type 0 where
  pub id : ℕ
  pub ticket_number : Text
  pub line_id : ℕ
  pub pipeline_id : Option ℕ
  pub current_stage_id : Option ℕ
  pub status : TicketStatus
  pub source : TicketSource
  pub severity : TicketSeverity
  pub category : TicketCategory
  pub title : Text
  pub description : Option Text
  pub is_ccp_related : Bool
  pub extra_data : Fields
  pub version : ℕ
  pub created_by_user_id : Option ℕ
  pub assigned_to_user_id : Option ℕ
  pub created_at : ℕ
  pub closed_at : Option ℕ

pub record TicketEvent : Type 0 where
  pub ticket_id : ℕ
  pub event_type : TicketEventType
  pub from_status : Option TicketStatus
  pub to_status : Option TicketStatus
  pub user_id : Option ℕ
  pub comment : Option Text
  pub occurred_at : ℕ
  pub payload : Fields

-- `Ticket.is_open`
abbrev pub is_open : Ticket → Bool
is_open t = not (status_in t.status closed_states)
