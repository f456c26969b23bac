-- ===== src/Models/Triggers.antt =====
-- app/models/triggers.py
use qms_bakery.Prelude.{ℕ, Bool, Option, List}
use qms_bakery.Prelude.Text.{Text}
use qms_bakery.Json.{Fields}
use qms_bakery.Models.Tickets.{TicketSeverity}

pub data ResponderType : Type 0 where
  notify_in_app create_ticket escalate webhook email sms send_training_link : ResponderType

pub record Responder : Type 0 where
  pub code : Text
  pub type : ResponderType
  pub config : Fields
  pub is_active : Bool

-- `Trigger`, with the responders that the association table joins to it, in order.
pub record Trigger : Type 0 where
  pub id : ℕ
  pub code : Text
  pub scope : Option Text
  pub condition : Fields
  pub severity : TicketSeverity
  pub is_active : Bool
  pub dry_run : Bool
  pub responders : List Responder

pub record TriggerExecution : Type 0 where
  pub trigger_id : ℕ
  pub fired_at : ℕ
  pub payload : Fields
  pub success : Bool
  pub responder_results : Fields
  pub linked_ticket_id : Option ℕ

pub record InAppNotification : Type 0 where
  pub user_id : Option ℕ
  pub role_code : Option Text
  pub severity : TicketSeverity
  pub title : Text
  pub body : Option Text
  pub related_entity_id : ℕ

-- A Redis key `trigger_state:<id>:<scope>:first_true`, with the moment at which it expires.
pub record Gate : Type 0 where
  pub trigger_id : ℕ
  pub scope : Text
  pub first_true : ℕ
  pub expires : ℕ
