-- ===== src/World.antt =====
-- What the services share: the database session with the queues and Redis keys (`World`), what an
-- operation reads from outside (`Env`: the clock, the request, app.config, SHA-256, bcrypt,
-- `str.format`), and the effect of a service call, which changes the session and may raise. What
-- was added to the session before a raise stays there until the caller rolls back; a flush that fails
-- (`integrity_error`) rolls the transaction back itself.
use qms_bakery.Prelude.{ℕ, ◌+◌, Bool, Option, none, some, List}
use qms_bakery.Prelude.Dates.{DateTime, instant}
use qms_bakery.Prelude.Text.{Text}
use qms_bakery.Prelude.Int.{ℤ}
use qms_bakery.Json.{Fields}
use qms_bakery.Models.Production.{ProductionLine, Pipeline}
use qms_bakery.Models.Tickets.{Ticket, TicketEvent, TicketStatus}
use qms_bakery.Models.Audit.{AuditLog, Payload}
use qms_bakery.Models.Triggers.{Trigger, TriggerExecution, InAppNotification, Gate}
use qms_bakery.Models.Training.{
  Trainee, TrainingCourse, TrainingCourseVersion, TrainingEnrolment, TrainingAttempt,
  TrainingDeclaration, TrainingCertification,
}
use qms_bakery.Models.Auth.{User}
use qms_bakery.Models.Quality.{CcpDefinition, CcpMeasurement, SalsaChecklist, SalsaResponse}

-- The exceptions of the services, by the place that raises them.
pub data Error : Type 0 where
  line_not_found line_inactive integrity_error : Error
  invalid_transition : TicketStatus → TicketStatus → Error
  requires_line_id requires_ticket_id ticket_not_found requires_url requires_to : Error
  requires_body requires_course_code course_not_found queue_down : Error
  required_fields phone_registered employee_number_registered course_exists : Error
  no_active_version already_submitted no_questions not_submitted : Error
  typed_name_required already_declared : Error
  ccp_not_found ccp_inactive checklist_not_found checklist_inactive : Error
  subject_not_found malformed_subject unknown_subject row_missing : Error

-- A flush has failed.
abbrev pub is_flush_failure : Error → Bool
is_flush_failure integrity_error = Bool.true
is_flush_failure _ = Bool.false

-- The request that a handler serves: the signed-in user, the peer address and the User-Agent.
pub record Request : Type 0 where
  pub user : Option ℕ
  pub remote_addr : Option Text
  pub user_agent : Text

pub record Config : Type 0 where
  pub lockout_threshold : ℕ
  pub lockout_minutes : ℕ
  pub recert_lead_days : ℕ
  pub default_pass_threshold : ℕ
  pub default_link_ttl_days : ℕ
  pub base_url : Text

-- The moment is one for all of an operation. `sha256` hashes a serialised audit payload,
-- `check_password` is bcrypt's `checkpw`, `format` is `str.format` (none for the exceptions that
-- `_interpolate` catches), `sign` is the HMAC-SHA256 hexdigest of
-- a magic link's body under the signing key, and `float_text` is how Python writes a
-- number of thousandths, `repr` Python's repr of a string, `message` is the text of an
-- exception, `set_order` is a set of texts in the order
-- in which Python goes through it, and `queue_up` tells whether an
-- enqueue reaches Redis. `uuid` writes a key as its UUID.
pub record Env : Type 0 where
  pub clock : DateTime
  pub request : Option Request
  pub config : Config
  pub sha256 : Payload → ℕ
  pub check_password : Text → Text → Bool
  pub format : Text → Fields → Option Text
  pub sign : Text → Text
  pub uuid : ℕ → Text
  pub float_text : ℤ → Text
  pub repr : Text → Text
  pub message : Error → Text
  pub set_order : List Text → List Text
  pub queue_up : Bool

-- `utcnow()`
unfoldable pub now : Env → ℕ
unfolding instant
now env = instant env.clock

-- A job on one of the RQ queues, with the arguments that its function gets.
pub data Job : Type 0 where
  webhook : Text → Option Text → Fields → Job
  email : List Text → Text → Text → Option Text → Job
  sms : List Text → Text → Job

-- Every table in the order of insertion. `next_id` is a key that no row has (`gen_uuid`).
pub record World : Type 0 where
  pub next_id : ℕ
  pub lines : List ProductionLine
  pub pipelines : List Pipeline
  pub users : List User
  pub tickets : List Ticket
  pub ticket_events : List TicketEvent
  pub audit_log : List AuditLog
  pub triggers : List Trigger
  pub executions : List TriggerExecution
  pub notifications : List InAppNotification
  pub gates : List Gate
  pub trainees : List Trainee
  pub courses : List TrainingCourse
  pub versions : List TrainingCourseVersion
  pub enrolments : List TrainingEnrolment
  pub attempts : List TrainingAttempt
  pub declarations : List TrainingDeclaration
  pub certifications : List TrainingCertification
  pub ccps : List CcpDefinition
  pub measurements : List CcpMeasurement
  pub checklists : List SalsaChecklist
  pub salsa_responses : List SalsaResponse
  pub jobs : List Job

pub data Result (A : Type 0) : Type 0 where
  ok : A → Result A
  err : Error → Result A

abbrev pub Session : Type 0 → Type 0
Session A = World → Result A × World

module _ {A : Type 0} where
  abbrev pub pure : A → Session A
  pure a w = (ok a, w)

  abbrev pub raise : Error → Session A
  raise e w = (err e, w)

  abbrev pub gets : (World → A) → Session A
  gets f w = (ok (f w), w)

  -- `x = db.session.get(...)`, and a raise where there is none
  abbrev pub or_raise : Option A → Error → Session A
  or_raise none e = raise e
  or_raise (some a) e = pure a

infixl 5 ◌>>=◌ ◌>>◌
abbrev pub ◌>>=◌ : {A B : Type 0} → Session A → (A → Session B) → Session B
◌>>=◌ m f w = let (r, w') = m w in elim r [ ok a ↦ f a w' | err e ↦ (err e, w') ]

abbrev pub ◌>>◌ : {A B : Type 0} → Session A → Session B → Session B
m >> k = m >>= λ _. k

abbrev pub modify : (World → World) → Session (Unit {0})
modify f w = (ok tt, f w)

-- `if test: raise error`
abbrev pub raise_if : Bool → Error → Session (Unit {0})
raise_if test e w = (elim test [ Bool.true ↦ err e | Bool.false ↦ ok tt ], w)

-- `default=gen_uuid`
abbrev pub gen_uuid : Session ℕ
gen_uuid w = (ok w.next_id, record w { next_id = w.next_id + 1 })

-- What a rollback to `w` leaves of `w'`: gates and queues are in Redis, outside the transaction.
abbrev pub rolled_back : World → World → World
rolled_back w w' = record w { gates = w'.gates; jobs = w'.jobs }
