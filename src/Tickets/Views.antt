-- ===== src/Tickets/Views.antt =====
-- app/blueprints/tickets.py: the views that change tickets, behind their permissions.
pub mod Permitted
mod Tests
use qms_bakery.Prelude.{
  ℕ, Bool, true, false, not, ◌&&◌, ◌||◌, Option, none, some, List, [], ◌∷◌, any, find, length, leb,
  ◌==◌, if◌then◌else◌,
}
use qms_bakery.Prelude.Text.{Text, codes, text_eq, is_blank, strip}
use qms_bakery.Models.Auth.{User, Permission, has_permission}
use qms_bakery.Models.Production.{ProductionLine}
use qms_bakery.Models.Tickets.{Ticket, TicketStatus, status_eq}
use qms_bakery.World.{Env, World, Session, Result, ok, err}
use qms_bakery.Auth.{Answer, require_permission}
use qms_bakery.Tickets.{
  NewTicket, create_ticket, transition, assign_to, add_comment, find_ticket, put_ticket,
  status_value,
}

-- How a view ends: 404, 400, 403, a redirect to the page of a ticket, or the form again.
pub data Reply : Type 0 where
  not_found bad_request denied to_detail shown : Reply

-- A service call with its commit; where it raises, the session is rolled back.
abbrev pub committed : {A : Type 0} → Result A → Reply → World → World → Reply × World
committed (ok a) reply w w' = (to_detail, w')
committed (err e) reply w w' = (reply, w)

abbrev pub commit_or : {A : Type 0} → Reply → Session A → World → Reply × World
commit_or reply m w = committed (m w).0 reply w (m w).1

abbrev statuses : List TicketStatus
statuses =
    TicketStatus.new ∷ TicketStatus.assigned ∷ TicketStatus.in_progress
    ∷ TicketStatus.awaiting_verification ∷ TicketStatus.escalated ∷ TicketStatus.rejected
    ∷ TicketStatus.closed ∷ []

-- `TicketStatus(target)`; none where it raises ValueError.
unfoldable pub status_of : Text → Option TicketStatus
status_of target = find (λ s. text_eq (status_value s) target) statuses

-- `_line_choices`: the form accepts active lines only.
abbrev is_choice : ℕ → World → Bool
is_choice id w = any (λ (l : ProductionLine). (l.id == id) && l.is_active) w.lines

abbrev has_data : Text → Bool
has_data s = not (is_blank (strip s))

abbrev text_length : Option Text → ℕ
text_length none = 0
text_length (some t) = length t

-- `CreateTicketForm` and `CommentForm`
abbrev pub ticket_fits : NewTicket → World → Bool
ticket_fits n w =
    is_choice n.line_id w
    && has_data n.title
    && leb (length n.title) 200
    && leb (text_length n.description) 5000

abbrev pub comment_fits : Text → Bool
comment_fits comment = has_data comment && leb (length comment) 5000

module _ (env : Env) (u : User) where
  -- `create`, by POST. The form has the data of `n`.
  abbrev pub create_view : NewTicket → World → Reply × World
  create_view n w =
      let n' = record n { created_by_user_id = some u.id } in
      if ticket_fits n w then commit_or shown (create_ticket env n') w else (shown, w)

  abbrev pub comment_on : Text → Option Ticket → World → Reply × World
  comment_on comment none w = (not_found, w)
  comment_on comment (some t) w =
      if not (comment_fits comment)
      then (shown, w)
      else if not (has_permission Permission.tickets_classify u)
      then (denied, w)
      else commit_or to_detail (add_comment env t u.id comment) w

  -- `detail`, by POST.
  abbrev pub comment_view : ℕ → Text → World → Reply × World
  comment_view id comment w = comment_on comment (find_ticket id w) w

  abbrev pub assign_ticket : Option ℕ → Option Ticket → World → Reply × World
  assign_ticket assignee none w = (not_found, w)
  assign_ticket none (some t) w =
      (to_detail, put_ticket (record t { assigned_to_user_id = none }) w)
  assign_ticket (some assignee) (some t) w =
      commit_or to_detail (assign_to env t assignee (some u.id)) w

  -- `assign`
  abbrev pub assign_view : ℕ → Option ℕ → World → Reply × World
  assign_view id assignee w = assign_ticket assignee (find_ticket id w) w

  abbrev pub move_to : Option Text → Option TicketStatus → Ticket → World → Reply × World
  move_to comment none t w = (bad_request, w)
  move_to comment (some s) t w =
      if status_eq s TicketStatus.closed && not (has_permission Permission.tickets_close u)
      then (denied, w)
      else commit_or to_detail (transition env t s (some u.id) comment) w

  abbrev pub move_ticket : Text → Option Text → Option Ticket → World → Reply × World
  move_ticket target comment none w = (not_found, w)
  move_ticket target comment (some t) w = move_to comment (status_of target) t w

  -- `transition`
  abbrev pub transition_view : ℕ → Text → Option Text → World → Reply × World
  transition_view id target comment w = move_ticket target comment (find_ticket id w) w

-- A POST to one of the views.
pub data Post : Type 0 where
  post_create : NewTicket → Post
  post_comment : ℕ → Text → Post
  post_assign : ℕ → Option ℕ → Post
  post_transition : ℕ → Text → Option Text → Post

-- The permission in the decorator of a view.
abbrev pub decorated : Post → Permission
decorated (post_create n) = Permission.tickets_create
decorated (post_comment id comment) = Permission.tickets_view
decorated (post_assign id assignee) = Permission.tickets_classify
decorated (post_transition id target comment) = Permission.tickets_classify

abbrev pub viewed : Env → Post → User → World → Reply × World
viewed env (post_create n) u w = create_view env u n w
viewed env (post_comment id comment) u w = comment_view env u id comment w
viewed env (post_assign id assignee) u w = assign_view env u id assignee w
viewed env (post_transition id target comment) u w = transition_view env u id target comment w

abbrev viewed_by : Env → Post → Option User → World → Reply × World
viewed_by env post none w = (denied, w)
viewed_by env post (some u) w = viewed env post u w

-- A view behind `login_required` and `require_permission`.
unfoldable pub serve : Env → Text → Post → Option User → World → Answer Reply × World
serve env path post user w =
    require_permission env (decorated post) path user (viewed_by env post user) w
