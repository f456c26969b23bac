-- ===== src/Tickets/Life/Trail.antt =====
-- The audit trail under the operations on tickets.
use qms_bakery.Prelude.{
  ℕ, ◌≡◌, refl, sym, subst, inl, inr, Option, none, some, List, [], ◌∷◌, ◌++◌, Bool-cases,
  Option-cases, or_else, All,
}
use qms_bakery.Prelude.Text.{Text}
use qms_bakery.Json.{Fields}
use qms_bakery.Models.Audit.{AuditAction, EntityType, Payload, genesis_hash}
use qms_bakery.Models.Tickets.{Ticket, TicketStatus, ticket_transitions, status_in, status_eq}
use qms_bakery.World.{Env, World, Result}
use qms_bakery.Audit.{new_entry, record_entry}
use qms_bakery.Audit.Chain.{Verifies, new_entry-Verifies}
use qms_bakery.Audit.Order.{Ascends, IsOrdered, new_entry-Ascends}
use qms_bakery.Tickets.{
  NewTicket, insert_ticket, create_ticket, find_line, transition, assign_to, add_comment,
  comment_diff, find_ticket,
}
use qms_bakery.Tickets.Life.Creates.{number_of, is_taken}
use qms_bakery.Tickets.Life.{Op, create, move, assign, comment, apply, on_ticket}

-- The session is as it was, or its trail has one more entry, which `record` built about the ticket.
pub data Logged (env : Env) (w w' : World) : Type 0 where
  nothing : w' ≡ w → Logged env w w'
  entry :
      (id : ℕ) (action : AuditAction) (diff : Fields) (user : Option ℕ)
      → w'.audit_log
        ≡ w.audit_log ++ new_entry env EntityType.ticket (some id) action diff user w.audit_log ∷ []
      → Logged env w w'

transition-Logged :
    (env : Env) (t : Ticket) (target : TicketStatus) (user : Option ℕ) (text : Option Text)
    (w : World)
    → Logged env w (transition env t target user text w).1
unfolding transition record_entry
transition-Logged env t target user text w =
    elim (Bool-cases (status_in target (ticket_transitions t.status))) [
      | inr off ↦ rw (off, transition) (nothing refl)
      | inl on ↦ rw (on, transition) (entry _ _ _ _ refl)
    ]

assign-Logged :
    (env : Env) (t : Ticket) (user : ℕ) (by_user : Option ℕ) (w : World)
    → Logged env w (assign_to env t user by_user w).1
unfolding assign_to record_entry
assign-Logged env t user by_user w = elim (Bool-cases (status_eq t.status TicketStatus.new)) [
  | inl fresh ↦
      rw (fresh, assign_to)
        (transition-Logged env (record t { assigned_to_user_id = some user }) TicketStatus.assigned
          (or_else by_user (some user)) none w)
  | inr old ↦ rw (old, assign_to) (entry _ _ _ _ refl)
]

comment-Logged :
    (env : Env) (t : Ticket) (user : ℕ) (text : Text) (w : World)
    → Logged env w (add_comment env t user text w).1
unfolding add_comment record_entry
comment-Logged env t user text w =
    entry t.id AuditAction.comment (comment_diff text) (some user) refl

insert-Logged : (env : Env) (n : NewTicket) (w : World) → Logged env w (insert_ticket env n w).1
unfolding insert_ticket record_entry
insert-Logged env n w = elim (Bool-cases (is_taken (number_of env w) w)) [
  | inl taken ↦ rw (taken, insert_ticket) (nothing refl)
  | inr free ↦ rw (free, insert_ticket) (entry _ _ _ _ refl)
]

create-Logged : (env : Env) (n : NewTicket) (w : World) → Logged env w (create_ticket env n w).1
unfolding create_ticket
create-Logged env n w = elim (Option-cases (find_line n.line_id w)) [
  | inl missing ↦ rw (missing, create_ticket) (nothing refl)
  | inr (l, found) ↦ elim (Bool-cases l.is_active) [
    | inr off ↦ rw (found, off, create_ticket) (nothing refl)
    | inl active ↦ rw (found, active, create_ticket) (insert-Logged env n w)
  ]
]

on_ticket-Logged :
    {A : Type 0} (env : Env) (f : Ticket → World → Result A × World) (id : ℕ) (w : World)
    → ((t : Ticket) → Logged env w (f t w).1)
    → Logged env w (on_ticket f (find_ticket id w) w)
on_ticket-Logged env f id w step = elim (Option-cases (find_ticket id w)) [
  | inl missing ↦ rw missing (nothing refl)
  | inr (t, found) ↦ rw found (step t)
]

-- Every operation leaves the session as it was, or writes exactly one entry about the ticket.
pub apply-Logged : (env : Env) (op : Op) (w : World) → Logged env w (apply env op w)
unfolding apply
apply-Logged env (create n) w = create-Logged env n w
apply-Logged env (move id target user text) w =
    on_ticket-Logged env (λ t. transition env t target user text) id w
      (λ t. transition-Logged env t target user text w)
apply-Logged env (assign id user by_user) w =
    on_ticket-Logged env (λ t. assign_to env t user by_user) id w
      (λ t. assign-Logged env t user by_user w)
apply-Logged env (comment id user text) w =
    on_ticket-Logged env (λ t. add_comment env t user text) id w
      (λ t. comment-Logged env t user text w)

Logged-sound :
    (env : Env) (w w' : World)
    → Logged env w w'
    → Verifies env.sha256 genesis_hash w.audit_log × IsOrdered w
    → Verifies env.sha256 genesis_hash w'.audit_log × IsOrdered w'
Logged-sound env w w' (nothing e) h =
    subst (λ v. Verifies env.sha256 genesis_hash v.audit_log × IsOrdered v) (sym e) h
Logged-sound env w w' (entry id action diff user e) h =
    subst (λ log. Verifies env.sha256 genesis_hash log × Ascends 1 log) (sym e)
      (
        new_entry-Verifies env EntityType.ticket (some id) action diff user w.audit_log h.0,
        new_entry-Ascends env EntityType.ticket (some id) action diff user w.audit_log h.1,
      )

-- A run of operations, oldest first, each with the moment and the request that it came with.
pub run : List (Env × Op) → World → World
run [] w = w
run ((env, op) ∷ ops) w = run ops (apply env op w)

-- A trail that `verify_chain` accepts, with ascending keys, is still accepted after any run of
-- operations that hash with the same function, and its keys still ascend.
pub run-Verifies :
    (hash : Payload → ℕ) (ops : List (Env × Op)) (w : World)
    → All (λ (env, _). env.sha256 ≡ hash) ops
    → Verifies hash genesis_hash w.audit_log
    → IsOrdered w
    → Verifies hash genesis_hash (run ops w).audit_log × IsOrdered (run ops w)
unfolding run
run-Verifies hash [] w same v o = (v, o)
run-Verifies hash ((env, op) ∷ ops) w same v o =
    let held = subst (λ h. Verifies h genesis_hash w.audit_log) (sym same.0) v in
    let step = Logged-sound env w (apply env op w) (apply-Logged env op w) (held, o) in
    run-Verifies hash ops (apply env op w) same.1
      (subst (λ h. Verifies h genesis_hash (apply env op w).audit_log) same.0 step.0) step.1
