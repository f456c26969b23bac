-- ===== src/Tickets/Life/History.antt =====
-- Rows and events before and after a sequence of operations.
use qms_bakery.Prelude.{
  ℕ, ◌≤◌, ◌≡◌, refl, sym, ◌∙◌, subst, ◌⊎◌, inl, inr, true, Option, none, some, List, [], ◌∷◌, ◌++◌,
  arith, Bool-cases, Option-cases, map, find, ◌==◌, if◌then◌else◌, or_else,
}
use qms_bakery.Prelude.Text.{Text}
use qms_bakery.Models.Tickets.{
  Ticket, TicketStatus, ticket_transitions, status_in, status_eq, is_open,
}
use qms_bakery.World.{Env, World, Result, ok, err}
use qms_bakery.Audit.{record_entry}
use qms_bakery.Tickets.{
  NewTicket, create_ticket, transition, assign_to, add_comment, moved, find_ticket,
}
use qms_bakery.Tickets.Life.{Op, create, move, assign, comment, apply, Reach, here, next, on_ticket}
use qms_bakery.Tickets.Life.Creates.{Created, create_ticket-Created}
use qms_bakery.Tickets.Life.Moves.{find-put}

-- How a ticket may have changed: its number, line and creation stay, its version does not fall, and
-- a closed ticket keeps status, version and closing moment.
pub record Later (t t' : Ticket) : Type 0 where
  pub same_id : t'.id ≡ t.id
  pub same_number : t'.ticket_number ≡ t.ticket_number
  pub version_grows : t.version ≤ t'.version
  pub final :
      (is_open t ≡ true)
      ⊎ (t'.status ≡ t.status) × (t'.version ≡ t.version) × (t'.closed_at ≡ t.closed_at)

Later-refl : (t : Ticket) → Later t t
Later-refl t = record {
  same_id = refl;
  same_number = refl;
  version_grows = omega arith;
  final = inr (refl, refl, refl);
}

Later-trans : {t u v : Ticket} → Later t u → Later u v → Later t v
Later-trans {t} {u} {v} a b = record {
  same_id = b.same_id ∙ a.same_id;
  same_number = b.same_number ∙ a.same_number;
  version_grows = omega arith;
  final = elim a.final [
    | inl opened ↦ inl opened
    | inr (s, n, c) ↦ elim b.final [
      | inl opened ↦ inl (cc)
      | inr (s', n', c') ↦ inr (s' ∙ s, n' ∙ n, c' ∙ c)
    ]
  ];
}

-- Every row is there afterwards, changed as `Later` says.
abbrev pub Evolves : List Ticket → List Ticket → Type 0
Evolves ts ts' =
    (id : ℕ) (t : Ticket)
    → find (λ u. u.id == id) ts ≡ some t
    → (t' : Ticket) × (find (λ u. u.id == id) ts' ≡ some t') × Later t t'

moved-Later :
    (env : Env) (t : Ticket) (target : TicketStatus) (user : Option ℕ)
    → status_in target (ticket_transitions t.status) ≡ true
    → Later t (moved env t target user)
unfolding moved
moved-Later env t target user on = ground arith

assigned-Later : (t : Ticket) (user : ℕ) → Later t (record t { assigned_to_user_id = some user })
assigned-Later t user = record {
  same_id = refl;
  same_number = refl;
  version_grows = omega arith;
  final = inr (refl, refl, refl);
}

find-append :
    (id : ℕ) (t u : Ticket) (ts : List Ticket)
    → find (λ v. v.id == id) ts ≡ some t
    → find (λ v. v.id == id) (ts ++ u ∷ []) ≡ some t
find-append id t u [] h = absurd (cc)
find-append id t u (v ∷ ts) h = ground (arith, find-append id t u ts)

find-id : (id : ℕ) (t : Ticket) (ts : List Ticket) → find (λ v. v.id == id) ts ≡ some t → t.id ≡ id
find-id id t [] h = absurd (cc)
find-id id t (v ∷ ts) h = ground (arith, find-id id t ts)

put-Evolves :
    (id : ℕ) (t t' : Ticket) (ts : List Ticket)
    → find (λ u. u.id == id) ts ≡ some t
    → Later t t'
    → Evolves ts (map (λ u. if u.id == t'.id then t' else u) ts)
put-Evolves id t t' ts found later j u h = elim (Bool-cases (j == t'.id)) [
  | inl hit ↦ (
    t',
    find-put j t' ts ∙ rw (h, hit),
    subst (λ v. Later v t') (ground (arith, later.same_id, find-id id t ts found)) later,
  )
  | inr miss ↦ (u, find-put j t' ts ∙ rw (h, miss), Later-refl u)
]

transition-Evolves :
    (env : Env) (id : ℕ) (s t : Ticket) (target : TicketStatus) (user : Option ℕ)
    (text : Option Text) (w : World)
    → find_ticket id w ≡ some s
    → Later s t
    → t.status ≡ s.status
    → Evolves w.tickets (transition env t target user text w).1.tickets
unfolding transition record_entry
transition-Evolves env id s t target user text w found later same =
    elim (Bool-cases (status_in target (ticket_transitions t.status))) [
      | inr off ↦ rw (off, transition) (λ j u h. (u, h, Later-refl u))
      | inl on ↦
          rw (on, transition)
            (put-Evolves id s (moved env t target user) w.tickets found
              (Later-trans later (moved-Later env t target user on)))
    ]

assign-Evolves :
    (env : Env) (id : ℕ) (t : Ticket) (user : ℕ) (by_user : Option ℕ) (w : World)
    → find_ticket id w ≡ some t
    → Evolves w.tickets (assign_to env t user by_user w).1.tickets
unfolding assign_to record_entry
assign-Evolves env id t user by_user w found =
    elim (Bool-cases (status_eq t.status TicketStatus.new)) [
      | inl fresh ↦
          rw (fresh, assign_to)
            (transition-Evolves env id t (record t { assigned_to_user_id = some user })
              TicketStatus.assigned (or_else by_user (some user)) none w found
              (assigned-Later t user) refl)
      | inr old ↦
          rw (old, assign_to)
            (put-Evolves id t (record t { assigned_to_user_id = some user }) w.tickets found
              (assigned-Later t user))
    ]

comment-Evolves :
    (env : Env) (t : Ticket) (user : ℕ) (text : Text) (w : World)
    → Evolves w.tickets (add_comment env t user text w).1.tickets
unfolding add_comment record_entry
comment-Evolves env t user text w j u h = (u, h, Later-refl u)

create-Evolves :
    (env : Env) (n : NewTicket) (w : World) → Evolves w.tickets (create_ticket env n w).1.tickets
create-Evolves env n w =
    let (r, w') = create_ticket env n w in go r w' (create_ticket-Created env n w)
  where
    go : (r : Result Ticket) (w' : World) → Created env n w (r, w') → Evolves w.tickets w'.tickets
    go (err e) w' c j u h = (u, rw c.0 h, Later-refl u)
    go (ok t) w' c j u h = (u, rw c.3 (find-append j u t w.tickets h), Later-refl u)

on_ticket-Evolves :
    {A : Type 0} (f : Ticket → World → Result A × World) (id : ℕ) (w : World)
    → ((t : Ticket) → find_ticket id w ≡ some t → Evolves w.tickets (f t w).1.tickets)
    → Evolves w.tickets (on_ticket f (find_ticket id w) w).tickets
on_ticket-Evolves f id w step = elim (Option-cases (find_ticket id w)) [
  | inl missing ↦ rw missing (λ j u h. (u, h, Later-refl u))
  | inr (t, found) ↦
      subst (λ o. Evolves w.tickets (on_ticket f o w).tickets) (sym found) (step t found)
]

pub apply-Evolves : (env : Env) (op : Op) (w : World) → Evolves w.tickets (apply env op w).tickets
unfolding apply
apply-Evolves env (create n) w = create-Evolves env n w
apply-Evolves env (move id target user text) w =
    on_ticket-Evolves (λ t. transition env t target user text) id w
      (λ t found. transition-Evolves env id t t target user text w found (Later-refl t) refl)
apply-Evolves env (assign id user by_user) w =
    on_ticket-Evolves (λ t. assign_to env t user by_user) id w
      (λ t found. assign-Evolves env id t user by_user w found)
apply-Evolves env (comment id user text) w =
    on_ticket-Evolves (λ t. add_comment env t user text) id w
      (λ t found. comment-Evolves env t user text w)

-- However many operations run, every ticket stays findable with its number, its version does not
-- fall, and one that is closed or rejected keeps its status, version and closing moment for good.
pub Reach-Evolves :
    {w w' : World}
    → Reach w w'
    → (id : ℕ) (t : Ticket) → find_ticket id w ≡ some t
    → (t' : Ticket) × (find_ticket id w' ≡ some t') × Later t t'
Reach-Evolves here j u h = (u, h, Later-refl u)
Reach-Evolves (next {u} r env op) j t h =
    let (t', h', a) = Reach-Evolves r j t h in
    let (t'', h'', b) = apply-Evolves env op u j t' h' in (t'', h'', Later-trans a b)
