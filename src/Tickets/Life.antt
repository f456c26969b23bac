-- ===== src/Tickets/Life.antt =====
-- The life of a ticket under any sequence of requests.
pub mod Creates
pub mod Moves
pub mod Valid
pub mod History
pub mod Trail
use qms_bakery.Prelude.{
  ℕ, ◌≡◌, ◌≢◌, ◌≤◌, Bool, true, false, not, is_some, Option, none, some, List, ◌⊎◌,
}
use qms_bakery.Prelude.Text.{Text}
use qms_bakery.Models.Tickets.{Ticket, TicketStatus, is_open}
use qms_bakery.World.{Env, World, Result, ok, err}
use qms_bakery.Tickets.{NewTicket, create_ticket, transition, assign_to, add_comment, find_ticket}

-- What users, triggers and devices ask of the service; a ticket is named by its key.
pub data Op : Type 0 where
  create : NewTicket → Op
  move : ℕ → TicketStatus → Option ℕ → Option Text → Op
  assign : ℕ → ℕ → Option ℕ → Op
  comment : ℕ → ℕ → Text → Op

abbrev pub on_ticket :
    {A : Type 0} → (Ticket → World → Result A × World) → Option Ticket → World → World
on_ticket f none w = w
on_ticket f (some t) w = (f t w).1

-- One operation. A key that no ticket has leaves the session alone, as the views' 404 does.
pub apply : Env → Op → World → World
apply env (create n) w = (create_ticket env n w).1
apply env (move id status user text) w =
    on_ticket (λ t. transition env t status user text) (find_ticket id w) w
apply env (assign id user by_user) w =
    on_ticket (λ t. assign_to env t user by_user) (find_ticket id w) w
apply env (comment id user text) w =
    on_ticket (λ t. add_comment env t user text) (find_ticket id w) w

-- What any sequence of operations, each at its own moment, leads to.
pub data Reach (w : World) : World → Type 0 where
  here : Reach w w
  next : {u : World} → Reach w u → (env : Env) (op : Op) → Reach w (apply env op u)

-- A closed ticket has the moment at which it was closed, an open one has none, and the version
-- counts from 1.
pub record TicketOk (t : Ticket) : Type 0 where
  pub dated : is_some t.closed_at ≡ not (is_open t)
  pub version_pos : 1 ≤ t.version
