-- ===== src/Tickets/Views/Permitted.antt =====
-- Who can change tickets through the views.
use qms_bakery.Prelude.{
  ◌≡◌, ◌⊎◌, refl, inl, inr, Bool, true, Option, none, some, List, [], ◌∷◌, all, if◌then◌else◌,
  arith, Bool-cases,
}
use qms_bakery.Prelude.Text.{Text}
use qms_bakery.Models.Auth.{User, Permission, has_permission}
use qms_bakery.Models.Tickets.{Ticket, TicketStatus, status_eq}
use qms_bakery.World.{Env, World}
use qms_bakery.Audit.{record_entry}
use qms_bakery.Auth.{require_permission}
use qms_bakery.Tickets.{find_ticket}
use qms_bakery.Tickets.Views.{
  status_of, comment_fits, comment_on, move_to, move_ticket, Post, post_create, post_comment,
  post_assign, post_transition, decorated, viewed, serve,
}

abbrev for_status : Option TicketStatus → List Permission
for_status none = Permission.tickets_classify ∷ []
for_status (some s) =
    if status_eq s TicketStatus.closed
    then Permission.tickets_classify ∷ Permission.tickets_close ∷ []
    else Permission.tickets_classify ∷ []

-- The permissions that a change takes.
abbrev pub needed : Post → List Permission
needed (post_create n) = Permission.tickets_create ∷ []
needed (post_comment id comment) = Permission.tickets_view ∷ Permission.tickets_classify ∷ []
needed (post_assign id assignee) = Permission.tickets_classify ∷ []
needed (post_transition id target comment) = for_status (status_of target)

abbrev pub may_all : List Permission → User → Bool
may_all ps u = all (λ p. has_permission p u) ps

-- Tickets and their history are as they were.
abbrev pub Unchanged : World → World → Type 0
Unchanged w w' = (w'.tickets ≡ w.tickets) × (w'.ticket_events ≡ w.ticket_events)

-- The tickets are unchanged, or somebody is signed in who has every permission that it takes.
abbrev pub Permitted : Post → Option User → World → World → Type 0
Permitted post user w w' =
    Unchanged w w' ⊎ ((u : User) × (user ≡ some u) × (may_all (needed post) u ≡ true))

comment_on-Permitted :
    (env : Env) (u : User) (comment : Text) (o : Option Ticket) (w : World)
    → has_permission Permission.tickets_view u ≡ true
    → Unchanged w (comment_on env u comment o w).1
      ⊎ (may_all (Permission.tickets_view ∷ Permission.tickets_classify ∷ []) u ≡ true)
comment_on-Permitted env u comment none w may = inl (refl, refl)
comment_on-Permitted env u comment (some t) w may = elim (Bool-cases (comment_fits comment)) [
  | inr bad ↦ rw bad (inl (refl, refl))
  | inl fits ↦ elim (Bool-cases (has_permission Permission.tickets_classify u)) [
    | inl also ↦ inr (ground (arith, may, also))
    | inr may_not ↦ rw (fits, may_not) (inl (refl, refl))
  ]
]

move_to-Permitted :
    (env : Env) (u : User) (comment : Option Text) (o : Option TicketStatus) (t : Ticket)
    (w : World)
    → has_permission Permission.tickets_classify u ≡ true
    → Unchanged w (move_to env u comment o t w).1 ⊎ (may_all (for_status o) u ≡ true)
move_to-Permitted env u comment none t w may = inl (refl, refl)
move_to-Permitted env u comment (some s) t w may =
    elim (Bool-cases (status_eq s TicketStatus.closed)) [
      | inr other ↦ inr (ground (arith, may, other))
      | inl closing ↦ elim (Bool-cases (has_permission Permission.tickets_close u)) [
        | inl also ↦ inr (ground (arith, may, also, closing))
        | inr may_not ↦ rw (closing, may_not) (inl (refl, refl))
      ]
    ]

move_ticket-Permitted :
    (env : Env) (u : User) (target : Text) (comment : Option Text) (o : Option Ticket) (w : World)
    → has_permission Permission.tickets_classify u ≡ true
    → Unchanged w (move_ticket env u target comment o w).1
      ⊎ (may_all (for_status (status_of target)) u ≡ true)
move_ticket-Permitted env u target comment none w may = inl (refl, refl)
move_ticket-Permitted env u target comment (some t) w may =
    move_to-Permitted env u comment (status_of target) t w may

viewed-Permitted :
    (env : Env) (post : Post) (u : User) (w : World)
    → has_permission (decorated post) u ≡ true
    → Unchanged w (viewed env post u w).1 ⊎ (may_all (needed post) u ≡ true)
viewed-Permitted env (post_create n) u w may = inr (ground (arith, may))
viewed-Permitted env (post_comment id comment) u w may =
    comment_on-Permitted env u comment (find_ticket id w) w may
viewed-Permitted env (post_assign id assignee) u w may = inr (ground (arith, may))
viewed-Permitted env (post_transition id target comment) u w may =
    move_ticket-Permitted env u target comment (find_ticket id w) w may

-- Nobody changes a ticket or its history by a POST to the views without the permissions it takes: to
-- create one, to classify for an assignment, a move or a comment (which also has to be let to view), and
-- to close besides for a move to the closed state.
pub serve-Permitted :
    (env : Env) (path : Text) (post : Post) (user : Option User) (w : World)
    → Permitted post user w (serve env path post user w).1
unfolding serve require_permission record_entry
serve-Permitted env path post none w = inl (refl, refl)
serve-Permitted env path post (some u) w = elim (Bool-cases (has_permission (decorated post) u)) [
  | inr may_not ↦ rw (may_not, serve, require_permission) (inl (refl, refl))
  | inl may ↦ elim (viewed-Permitted env post u w may) [
    | inl same ↦ rw (may, serve, require_permission) (inl same)
    | inr fine ↦ inr (u, refl, fine)
  ]
]
