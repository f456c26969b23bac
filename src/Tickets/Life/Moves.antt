-- ===== src/Tickets/Life/Moves.antt =====
-- `transition`, on every branch.
use qms_bakery.Prelude.{
  ℕ, ◌+◌, ◌≡◌, refl, inl, inr, true, false, Option, none, some, List, [], ◌∷◌, ◌++◌, arith,
  Bool-cases, map, find, ◌==◌, if◌then◌else◌,
}
use qms_bakery.Prelude.Text.{Text}
use qms_bakery.Models.Audit.{AuditLog, AuditAction}
use qms_bakery.Models.Tickets.{
  Ticket, TicketEvent, TicketStatus, ticket_transitions, status_in, is_open,
}
use qms_bakery.World.{Env, World, now, Result, ok, err, invalid_transition}
use qms_bakery.Audit.{record_entry}
use qms_bakery.Tickets.{transition, moved, find_ticket}

-- Another row is found where it was, and the written one takes the place of the old.
pub find-put :
    (id : ℕ) (t : Ticket) (ts : List Ticket)
    → find (λ u. u.id == id) (map (λ u. if u.id == t.id then t else u) ts)
      ≡ elim (find (λ u. u.id == id) ts) [
        | none ↦ none
        | some u ↦ some (if id == t.id then t else u)
      ]
find-put id t [] = refl
find-put id t (u ∷ ts) = ground (arith, find-put id t ts)

pub put_found :
    (t' t : Ticket) (ts : List Ticket)
    → t'.id ≡ t.id
    → find (λ u. u.id == t.id) ts ≡ some t
    → find (λ u. u.id == t.id) (map (λ u. if u.id == t'.id then t' else u) ts) ≡ some t'
put_found t' t ts same h = ground (arith, find-put t.id t' ts)

-- The closing moment of a moved row.
pub moved_dates :
    (env : Env) (t : Ticket) (target : TicketStatus) (user : Option ℕ)
    → (moved env t target user).closed_at
      ≡ (if is_open (moved env t target user) then t.closed_at else some (now env))
unfolding moved
moved_dates env t target user = ground arith

-- What a call of `transition` has done, by how it ended.
abbrev pub Moved : Env → Ticket → TicketStatus → World → Result Ticket × World → Type 0
Moved env t target w (ok t', w') =
    (status_in target (ticket_transitions t.status) ≡ true)
    × (t'.status ≡ target)
    × (t'.version ≡ t.version + 1)
    × (t'.closed_at ≡ (if is_open t' then t.closed_at else some (now env)))
    × (find_ticket t.id w' ≡ some t')
    × ((e : AuditLog) × (w'.audit_log ≡ w.audit_log ++ e ∷ [])
        × (e.entity_id ≡ some t.id)
        × (e.action ≡ AuditAction.status_change))
    × ((e : TicketEvent) × (w'.ticket_events ≡ w.ticket_events ++ e ∷ [])
        × (e.from_status ≡ some t.status)
        × (e.to_status ≡ some target))
Moved env t target w (err e, w') =
    (status_in target (ticket_transitions t.status) ≡ false)
    × (e ≡ invalid_transition t.status target)
    × (w' ≡ w)

-- A transition that TICKET_TRANSITIONS allows writes the row with the new status, the next version
-- and the closing moment of a closed state, and one event and one audit entry; any other is
-- refused and changes nothing.
pub transition-Moved :
    (env : Env) (t : Ticket) (target : TicketStatus) (user : Option ℕ) (text : Option Text)
    (w : World)
    → find_ticket t.id w ≡ some t
    → Moved env t target w (transition env t target user text w)
unfolding transition record_entry
transition-Moved env t target user text w h =
    elim (Bool-cases (status_in target (ticket_transitions t.status))) [
      | inr off ↦ rw (off, transition) (off, refl, refl)
      | inl on ↦
          rw (on, transition)
            (
              on,
              refl,
              refl,
              moved_dates env t target user,
              put_found (moved env t target user) t w.tickets refl h,
              (_, refl, refl, refl),
              (_, refl, refl, refl),
            )
    ]
