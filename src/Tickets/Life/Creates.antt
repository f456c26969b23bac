-- ===== src/Tickets/Life/Creates.antt =====
-- `create_ticket`, on every branch.
use qms_bakery.Prelude.{
  ◌+◌, ◌≡◌, refl, ◌⊎◌, inl, inr, Bool, true, false, none, some, [], ◌∷◌, ◌++◌, Bool-cases,
  Option-cases, map, any, take,
}
use qms_bakery.Prelude.Text.{Text, text_eq, strip}
use qms_bakery.Models.Production.{ProductionLine}
use qms_bakery.Models.Audit.{AuditLog, AuditAction}
use qms_bakery.Models.Tickets.{Ticket, TicketEvent, TicketStatus}
use qms_bakery.World.{
  Env, World, now, Result, ok, err, line_not_found, line_inactive, integrity_error,
}
use qms_bakery.Audit.{record_entry}
use qms_bakery.Tickets.Number.{generate_ticket_number}
use qms_bakery.Tickets.Number.Next.{IsNext, generate_ticket_number-IsNext}
use qms_bakery.Tickets.{
  NewTicket, new_ticket, insert_ticket, create_ticket, find_line, active_pipeline,
}

-- The number that the table's rows give the next ticket of the year.
abbrev pub number_of : Env → World → Text
number_of env w =
    generate_ticket_number env.clock.year (map (λ (t : Ticket). t.ticket_number) w.tickets)

abbrev pub is_taken : Text → World → Bool
is_taken number w = any (λ t. text_eq t.ticket_number number) w.tickets

-- A ticket with what was asked for, new, and under the next number of the year.
abbrev pub Filled : Env → NewTicket → World → Ticket → Type 0
Filled env n w t =
    IsNext env.clock.year (map (λ (u : Ticket). u.ticket_number) w.tickets) t.ticket_number
    × (t.id ≡ w.next_id)
    × (t.line_id ≡ n.line_id)
    × (t.title ≡ take 200 (strip n.title))
    × (t.extra_data ≡ n.metadata)
    × (t.version ≡ 1)
    × (t.created_at ≡ now env)
    × (t.severity ≡ n.severity)
    × (t.category ≡ n.category)
    × (t.source ≡ n.source)
    × (t.status ≡ TicketStatus.new)
    × (t.created_by_user_id ≡ n.created_by_user_id)
    × (t.closed_at ≡ none)
    × (t.assigned_to_user_id ≡ none)

-- The session but for tickets, their events, the trail and the next key.
abbrev pub OnlyTickets : World → World → Type 0
OnlyTickets w w' = w' ≡ record w {
  next_id = w'.next_id;
  tickets = w'.tickets;
  ticket_events = w'.ticket_events;
  audit_log = w'.audit_log;
}

-- What a call of `create_ticket` has done, by how it ended.
abbrev pub Created : Env → NewTicket → World → Result Ticket × World → Type 0
Created env n w (ok t, w') =
    ((l : ProductionLine) × (find_line n.line_id w ≡ some l) × (l.is_active ≡ true))
    × (is_taken (number_of env w) w ≡ false)
    × (t ≡ new_ticket env n (active_pipeline n.line_id w.pipelines) (number_of env w) w.next_id)
    × (w'.tickets ≡ w.tickets ++ t ∷ [])
    × (w'.next_id ≡ w.next_id + 1)
    × ((e : AuditLog) × (w'.audit_log ≡ w.audit_log ++ e ∷ [])
        × (e.entity_id ≡ some t.id)
        × (e.action ≡ AuditAction.create))
    × ((e : TicketEvent) × (w'.ticket_events ≡ w.ticket_events ++ e ∷ [])
        × (e.to_status ≡ some TicketStatus.new))
    × Filled env n w t
    × OnlyTickets w w'
Created env n w (err e, w') =
    (w' ≡ w)
    × ((find_line n.line_id w ≡ none) × (e ≡ line_not_found)
        ⊎ ((l : ProductionLine) × (find_line n.line_id w ≡ some l)
            × (l.is_active ≡ false)
            × (e ≡ line_inactive))
        ⊎ (is_taken (number_of env w) w ≡ true) × (e ≡ integrity_error))

new_ticket-Filled :
    (env : Env) (n : NewTicket) (w : World)
    → Filled env n w
        (new_ticket env n (active_pipeline n.line_id w.pipelines) (number_of env w) w.next_id)
unfolding new_ticket
new_ticket-Filled env n w = (
  generate_ticket_number-IsNext env.clock.year (map (λ (t : Ticket). t.ticket_number) w.tickets),
  refl,
  refl,
  refl,
  refl,
  refl,
  refl,
  refl,
  refl,
  refl,
  refl,
  refl,
  refl,
  refl,
)

insert-Created :
    (env : Env) (n : NewTicket) (l : ProductionLine) (w : World)
    → find_line n.line_id w ≡ some l
    → l.is_active ≡ true
    → Created env n w (insert_ticket env n w)
unfolding insert_ticket record_entry
insert-Created env n l w found active = elim (Bool-cases (is_taken (number_of env w) w)) [
  | inl taken ↦ rw (taken, insert_ticket) (refl, inr (inr (taken, refl)))
  | inr free ↦
      rw (free, insert_ticket)
        (
          (l, found, active),
          free,
          refl,
          refl,
          refl,
          (_, refl, refl, refl),
          (_, refl, refl),
          new_ticket-Filled env n w,
          refl,
        )
]

pub create_ticket-Created :
    (env : Env) (n : NewTicket) (w : World) → Created env n w (create_ticket env n w)
unfolding create_ticket
create_ticket-Created env n w = elim (Option-cases (find_line n.line_id w)) [
  | inl missing ↦ rw (missing, create_ticket) (refl, inl (missing, refl))
  | inr (l, found) ↦ elim (Bool-cases l.is_active) [
    | inr off ↦ rw (found, off, create_ticket) (refl, inr (inl (l, found, off, refl)))
    | inl active ↦ rw (found, active, create_ticket) (insert-Created env n l w found active)
  ]
]
