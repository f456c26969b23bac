-- ===== src/Tickets/Query.antt =====
-- app/services/tickets.py: `list_tickets` and `stats_overview`.
pub mod Listed
use qms_bakery.Prelude.{
  ℕ, Bool, true, false, ◌&&◌, ◌||◌, Option, none, some, List, [], ◌∷◌, keep, count_if, take, ltb,
  ◌==◌, if◌then◌else◌,
}
use qms_bakery.Prelude.Dates.{date_of}
use qms_bakery.Models.Production.{ProductionLine}
use qms_bakery.Models.Tickets.{
  Ticket, TicketStatus, TicketSeverity, status_eq, severity_eq, is_open,
}
use qms_bakery.World.{Env, World, now}

-- The optional filters of `list_tickets`; None and False leave a filter out.
pub record TicketFilter : Type 0 where
  pub status : Option TicketStatus
  pub line_id : Option ℕ
  pub severity : Option TicketSeverity
  pub open_only : Bool

abbrev has_status : Option TicketStatus → Ticket → Bool
has_status none t = true
has_status (some s) t = status_eq t.status s

abbrev has_line : Option ℕ → Ticket → Bool
has_line none t = true
has_line (some l) t = t.line_id == l

abbrev has_severity : Option TicketSeverity → Ticket → Bool
has_severity none t = true
has_severity (some s) t = severity_eq t.severity s

abbrev pub selected : TicketFilter → Ticket → Bool
selected f t =
    has_status f.status t
    && has_line f.line_id t
    && has_severity f.severity t
    && (if f.open_only then is_open t else true)

-- `ORDER BY created_at DESC`: an insertion sort, in which rows of one moment keep their order.
pub insert_row : Ticket → List Ticket → List Ticket
insert_row t [] = t ∷ []
insert_row t (u ∷ us) = if ltb u.created_at t.created_at then t ∷ u ∷ us else u ∷ insert_row t us

pub newest_first : List Ticket → List Ticket
newest_first [] = []
newest_first (t ∷ ts) = insert_row t (newest_first ts)

-- `list_tickets`
unfoldable pub list_tickets : TicketFilter → ℕ → World → List Ticket
unfolding insert_row newest_first
list_tickets f limit w = take limit (keep (selected f) (newest_first w.tickets))

pub record Overview : Type 0 where
  pub open_tickets : ℕ
  pub high_severity : ℕ
  pub closed_today : ℕ
  pub production_lines : ℕ

abbrev closed_on : ℕ → Option ℕ → Bool
closed_on day none = false
closed_on day (some t) = date_of t == day

abbrev is_high : Ticket → Bool
is_high t =
    severity_eq t.severity TicketSeverity.high || severity_eq t.severity TicketSeverity.critical

-- `stats_overview`
unfoldable pub stats_overview : Env → World → Overview
stats_overview env w = record {
  open_tickets = count_if is_open w.tickets;
  high_severity = count_if (λ t. is_high t && is_open t) w.tickets;
  closed_today =
      count_if
        (λ t. status_eq t.status TicketStatus.closed && closed_on (date_of (now env)) t.closed_at)
        w.tickets;
  production_lines = count_if (λ (l : ProductionLine). l.is_active) w.lines;
}
