-- ===== src/Tickets/Life/Valid.antt =====
-- Well-formed rows under the operations on tickets.
use qms_bakery.Prelude.{
  ℕ, ◌≡◌, sym, or_else, inl, inr, true, Option, none, some, List, [], ◌∷◌, arith, Bool-cases,
  Option-cases, subst, map, find, All, All-append, ◌==◌, if◌then◌else◌,
}
use qms_bakery.Prelude.Text.{Text}
use qms_bakery.Models.Production.{Pipeline}
use qms_bakery.Models.Tickets.{Ticket, TicketStatus, ticket_transitions, status_in, status_eq}
use qms_bakery.World.{Env, World, Result, ok, err}
use qms_bakery.Audit.{record_entry}
use qms_bakery.Tickets.{
  NewTicket, new_ticket, create_ticket, transition, assign_to, add_comment, moved, find_ticket,
  active_pipeline,
}
use qms_bakery.Tickets.Life.{
  Op, create, move, assign, comment, apply, Reach, here, next, on_ticket, TicketOk,
}
use qms_bakery.Tickets.Life.Creates.{Created, create_ticket-Created, number_of}

abbrev pub IsValid : World → Type 0
IsValid w = All TicketOk w.tickets

new_ticket-TicketOk :
    (env : Env) (n : NewTicket) (p : Option Pipeline) (number : Text) (id : ℕ)
    → TicketOk (new_ticket env n p number id)
unfolding new_ticket
new_ticket-TicketOk env n p number id = ground arith

moved-TicketOk :
    (env : Env) (t : Ticket) (target : TicketStatus) (user : Option ℕ)
    → status_in target (ticket_transitions t.status) ≡ true
    → TicketOk t
    → TicketOk (moved env t target user)
unfolding moved
moved-TicketOk env t target user on h = ground arith

find-TicketOk :
    (id : ℕ) (t : Ticket) (ts : List Ticket)
    → All TicketOk ts
    → find (λ u. u.id == id) ts ≡ some t
    → TicketOk t
find-TicketOk id t [] h e = absurd (cc)
find-TicketOk id t (u ∷ ts) h e = elim (Bool-cases (u.id == id)) [
  | inl hit ↦ subst TicketOk (ground arith) h.0
  | inr miss ↦ find-TicketOk id t ts h.1 (ground arith)
]

put-TicketOk :
    (t : Ticket) (ts : List Ticket)
    → TicketOk t
    → All TicketOk ts
    → All TicketOk (map (λ u. if u.id == t.id then t else u) ts)
put-TicketOk t [] ok_t h = tt
put-TicketOk t (u ∷ ts) ok_t h = elim (Bool-cases (u.id == t.id)) [
  | inl same ↦ rw same (ok_t, put-TicketOk t ts ok_t h.1)
  | inr other ↦ rw other (h.0, put-TicketOk t ts ok_t h.1)
]

create-IsValid :
    (env : Env) (n : NewTicket) (w : World) → IsValid w → IsValid (create_ticket env n w).1
create-IsValid env n w h =
    let (r, w') = create_ticket env n w in go r w' (create_ticket-Created env n w)
  where
    go : (r : Result Ticket) (w' : World) → Created env n w (r, w') → IsValid w'
    go (err e) w' c = subst IsValid (sym c.0) h
    go (ok t) w' c = subst (All TicketOk) (sym c.3) (
        All-append TicketOk w.tickets (t ∷ []) h (
          subst TicketOk (sym c.2) (
              new_ticket-TicketOk env n (active_pipeline n.line_id w.pipelines) (number_of env w)
                w.next_id),
          tt,
        ))

transition-IsValid :
    (env : Env) (t : Ticket) (target : TicketStatus) (user : Option ℕ) (text : Option Text)
    (w : World)
    → TicketOk t
    → IsValid w
    → IsValid (transition env t target user text w).1
unfolding transition record_entry
transition-IsValid env t target user text w good h =
    elim (Bool-cases (status_in target (ticket_transitions t.status))) [
      | inr off ↦ rw (off, transition) h
      | inl on ↦
          rw (on, transition)
            (put-TicketOk (moved env t target user) w.tickets
              (moved-TicketOk env t target user on good) h)
    ]

assign-IsValid :
    (env : Env) (t : Ticket) (user : ℕ) (by_user : Option ℕ) (w : World)
    → TicketOk t
    → IsValid w
    → IsValid (assign_to env t user by_user w).1
unfolding assign_to record_entry
assign-IsValid env t user by_user w good h =
    elim (Bool-cases (status_eq t.status TicketStatus.new)) [
      | inl fresh ↦
          rw (fresh, assign_to)
            (transition-IsValid env (record t { assigned_to_user_id = some user })
              TicketStatus.assigned (or_else by_user (some user)) none w
              (record { dated = good.dated; version_pos = good.version_pos }) h)
      | inr old ↦
          rw (old, assign_to)
            (put-TicketOk (record t { assigned_to_user_id = some user }) w.tickets
              (record { dated = good.dated; version_pos = good.version_pos }) h)
    ]

comment-IsValid :
    (env : Env) (t : Ticket) (user : ℕ) (text : Text) (w : World)
    → IsValid w
    → IsValid (add_comment env t user text w).1
unfolding add_comment record_entry
comment-IsValid env t user text w h = h

on_ticket-IsValid :
    {A : Type 0} (f : Ticket → World → Result A × World) (id : ℕ) (w : World)
    → ((t : Ticket) → TicketOk t → IsValid (f t w).1)
    → IsValid w
    → IsValid (on_ticket f (find_ticket id w) w)
on_ticket-IsValid f id w step h = elim (Option-cases (find_ticket id w)) [
  | inl missing ↦ rw missing h
  | inr (t, found) ↦ rw found (step t (find-TicketOk id t w.tickets h found))
]

pub apply-IsValid : (env : Env) (op : Op) (w : World) → IsValid w → IsValid (apply env op w)
unfolding apply
apply-IsValid env (create n) w h = create-IsValid env n w h
apply-IsValid env (move id target user text) w h =
    on_ticket-IsValid (λ t. transition env t target user text) id w
      (λ t good. transition-IsValid env t target user text w good h) h
apply-IsValid env (assign id user by_user) w h =
    on_ticket-IsValid (λ t. assign_to env t user by_user) id w
      (λ t good. assign-IsValid env t user by_user w good h) h
apply-IsValid env (comment id user text) w h =
    on_ticket-IsValid (λ t. add_comment env t user text) id w
      (λ t good. comment-IsValid env t user text w h) h

-- However many operations run, a closed or rejected ticket has a closing moment, an open one has
-- none, and versions count from 1.
pub Reach-IsValid : {w w' : World} → Reach w w' → IsValid w → IsValid w'
Reach-IsValid here h = h
Reach-IsValid (next {u} r env op) h = apply-IsValid env op u (Reach-IsValid r h)
