-- ===== src/Tickets/Tests.antt =====
-- A ticket at the sample plant.
use qms_bakery.Prelude.{◌≡◌, ◌≤◌, refl, none, some, true, List, [], ◌∷◌, count_if, arith}
use qms_bakery.Models.Audit.{genesis_hash}
use qms_bakery.Models.Tickets.{Ticket, TicketStatus}
use qms_bakery.World.{Env, World}
use qms_bakery.Audit.{record_entry}
use qms_bakery.Audit.Chain.{Verifies}
use qms_bakery.Audit.Order.{IsOrdered}
use qms_bakery.Tickets.{create_ticket, transition, new_ticket, find_ticket, active_pipeline}
use qms_bakery.Tickets.Number.{generate_ticket_number}
use qms_bakery.Tickets.Life.{create, move, assign, apply, Op, Reach, here, next}
use qms_bakery.Tickets.Query.{TicketFilter, selected}
use qms_bakery.Tickets.Life.Moves.{Moved, transition-Moved}
use qms_bakery.Tickets.Life.Valid.{IsValid, Reach-IsValid}
use qms_bakery.Tickets.Life.History.{Later, Reach-Evolves}
use qms_bakery.Tickets.Life.Trail.{run, run-Verifies}
use qms_bakery.Samples.{env, plant, hash, crumbs}

-- The plant with one new ticket in it.
abbrev one_ticket : World
one_ticket = (create_ticket env crumbs plant).1

abbrev first : Ticket
first =
    new_ticket env crumbs (active_pipeline 1 plant.pipelines) (generate_ticket_number 2026 []) 10

first-find_ticket : find_ticket first.id one_ticket ≡ some first
unfolding create_ticket new_ticket record_entry
first-find_ticket = refl

transition-Moved_example :
    Moved env first TicketStatus.assigned one_ticket
      (transition env first TicketStatus.assigned (some 1) none one_ticket)
transition-Moved_example =
    transition-Moved env first TicketStatus.assigned (some 1) none one_ticket first-find_ticket

abbrev after : World
after = apply env (move 10 TicketStatus.assigned (some 1) none) one_ticket

assigned-Reach : Reach one_ticket after
assigned-Reach = next here env (move 10 TicketStatus.assigned (some 1) none)

one_ticket-IsValid : IsValid one_ticket
unfolding create_ticket new_ticket record_entry
one_ticket-IsValid = (record { dated = refl; version_pos = omega arith }, tt)

Reach-IsValid_example : IsValid after
Reach-IsValid_example = Reach-IsValid assigned-Reach one_ticket-IsValid

Reach-Evolves_example : (t' : Ticket) × (find_ticket 10 after ≡ some t') × Later first t'
unfolding new_ticket
Reach-Evolves_example = Reach-Evolves assigned-Reach 10 first first-find_ticket

abbrev day : List (Env × Op)
day = (env, create crumbs) ∷ (env, assign 10 1 none) ∷ []

run-Verifies_example :
    Verifies hash genesis_hash (run day plant).audit_log × IsOrdered (run day plant)
run-Verifies_example = run-Verifies hash day plant ((refl, (refl, tt))) tt tt

-- The open tickets of the sample line.
abbrev open_here : TicketFilter
open_here = record { status = none; line_id = some 1; severity = none; open_only = true }

-- The plant with the ticket twice in the list, with two keys.
abbrev two_rows : World
two_rows = record plant { tickets = first ∷ record first { id = 11 } ∷ [] }

two_rows-fits : count_if (selected open_here) two_rows.tickets ≤ 50
unfolding new_ticket
two_rows-fits = omega arith
