-- ===== src/Triggers/Respond.antt =====
-- app/services/triggers.py: `_interpolate` and `_dispatch_responder`. The settings of a responder
-- have the type that their reader expects: texts, lists of texts or objects, keys of rows.
use qms_bakery.Prelude.{
  ℕ, suc, ◌+◌, Bool, true, false, not, ◌&&◌, Option, none, some, List, [], ◌∷◌, ◌++◌, keep, take,
  if◌then◌else◌, get_or, or_else, option_eq, is_some,
}
use qms_bakery.Prelude.Int.{pos}
use qms_bakery.Prelude.Text.{Text, codes, text_eq, is_blank, or_none}
use qms_bakery.Json.{
  Json, bool, num, str, uid, arr, obj, Items, nil, item, Fields, end, field, get, get_truthy,
  as_uid,
}
use qms_bakery.Models.Tickets.{
  Ticket, TicketStatus, TicketSource, TicketCategory, ticket_transitions, status_in,
}
use qms_bakery.Models.Training.{Trainee, TrainingCourse, EnrolmentSource}
use qms_bakery.Models.Triggers.{Trigger, Responder, ResponderType, InAppNotification}
use qms_bakery.World.{
  Env, World, Job, Session, Error, pure, gets, or_raise, raise_if, modify, ◌>>=◌, ◌>>◌,
}
use qms_bakery.Tickets.{
  NewTicket, create_ticket, transition, find_ticket, severity_value, status_value,
}
use qms_bakery.Training.Queries.{get_course_by_code, has_open_enrolment}
use qms_bakery.Training.Enrol.{enrol}
use qms_bakery.Triggers.Condition.{as_text}

-- `_interpolate`
pub interpolate : Env → Text → Fields → Trigger → Text
interpolate env template payload t =
    if is_blank template
    then []
    else get_or
        (env.format template (
          field (codes "trigger_code") (str t.code)
            (field (codes "severity") (str (severity_value t.severity)) payload)))
        template

abbrev text_in : Env → Option Json → Text → Text
text_in env none other = other
text_in env (some v) other = get_or (as_text env v) other

-- `cfg.get(key, default)`, of a text
abbrev setting : Env → Text → Text → Fields → Text
setting env key other cfg = text_in env (get key cfg) other

abbrev entries : Option Json → Items
entries (some (arr xs)) = xs
entries _ = nil

abbrev uid_in : Option Json → Option ℕ
uid_in none = none
uid_in (some v) = as_uid v

abbrev opt_text_in : Env → Option Json → Option Text
opt_text_in env none = none
opt_text_in env (some v) = as_text env v

abbrev notification : Env → Trigger → Text → Text → Fields → InAppNotification
notification env t title body r = record {
  user_id = uid_in (get (codes "user_id") r);
  role_code = opt_text_in env (get (codes "role_code") r);
  severity = t.severity;
  title = take 200 title;
  body = or_none (take 2000 body);
  related_entity_id = t.id;
}

abbrev notifications_for : Env → Trigger → Text → Text → Items → List InAppNotification
notifications_for env t title body nil = []
notifications_for env t title body (item (obj r) rs) =
    notification env t title body r ∷ notifications_for env t title body rs
notifications_for env t title body (item _ rs) = notifications_for env t title body rs

abbrev count : List InAppNotification → ℕ
count [] = 0
count (n ∷ ns) = suc (count ns)

abbrev notify : Env → Trigger → Fields → Fields → Session Fields
notify env t cfg payload = do
  let title = interpolate env (setting env (codes "title") (codes "Trigger fired") cfg) payload t
  let body = interpolate env (setting env (codes "body") [] cfg) payload t
  let created = notifications_for env t title body (entries (get_truthy (codes "recipients") cfg))
  modify (λ w. record w { notifications = w.notifications ++ created })
  pure (field (codes "notifications_created") (num (pos (count created))) end)

abbrev is_iot : Env → Fields → Bool
is_iot env payload = elim (opt_text_in env (get (codes "source") payload)) [
  | none ↦ false
  | some s ↦ text_eq s (codes "iot")
]

abbrev auto_ticket : Env → Trigger → Fields → Fields → ℕ → NewTicket
auto_ticket env t cfg payload line = record {
  line_id = line;
  title =
      take 200
        (interpolate env (setting env (codes "title") (codes "Auto: " ++ t.code) cfg) payload t);
  description = some (interpolate env (setting env (codes "description") [] cfg) payload t);
  severity = t.severity;
  category = TicketCategory.other;
  source = if is_iot env payload then TicketSource.iot else TicketSource.api;
  created_by_user_id = none;
  metadata = field (codes "trigger_code") (str t.code) (field (codes "payload") (obj payload) end);
}

abbrev open_ticket : Env → Trigger → Fields → Fields → Session Fields
open_ticket env t cfg payload = do
  v ←
      or_raise (or_else (get_truthy (codes "line_id") cfg) (get_truthy (codes "line_id") payload))
        Error.requires_line_id
  line ← or_raise (as_uid v) Error.line_not_found
  ticket ← create_ticket env (auto_ticket env t cfg payload line)
  pure (
      field (codes "ticket_id") (uid ticket.id)
        (field (codes "ticket_number") (str ticket.ticket_number) end))

abbrev skipped : ℕ → Ticket → Fields
skipped id ticket = field (codes "escalated_ticket_id") (uid id) (
    field (codes "skipped") (bool true) (
      field (codes "reason") (str (codes "ineligible_status"))
        (field (codes "current_status") (str (status_value ticket.status)) end)))

abbrev escalate_ticket : Env → Ticket → Session Fields
escalate_ticket env ticket =
    if not (status_in TicketStatus.escalated (ticket_transitions ticket.status))
    then pure (skipped ticket.id ticket)
    else transition env ticket TicketStatus.escalated none
        (some (codes "Auto-escalated by trigger"))
      >> pure (field (codes "escalated_ticket_id") (uid ticket.id) end)

abbrev escalate : Env → Fields → Fields → Session Fields
escalate env cfg payload = do
  v ←
      or_raise
        (or_else (get_truthy (codes "ticket_id") payload) (get_truthy (codes "ticket_id") cfg))
        Error.requires_ticket_id
  id ← or_raise (as_uid v) Error.ticket_not_found
  ticket ← or_raise (← gets (find_ticket id)) Error.ticket_not_found
  escalate_ticket env ticket

-- `q.enqueue(...)`, which raises where Redis is down.
abbrev queue : Env → Job → Session (Unit {0})
queue env job =
    raise_if (not env.queue_up) Error.queue_down
    >> modify (λ w. record w { jobs = w.jobs ++ job ∷ [] })

abbrev post : Env → Trigger → Fields → Fields → Session Fields
post env t cfg payload = do
  v ← or_raise (get_truthy (codes "url") cfg) Error.requires_url
  let url = get_or (as_text env v) []
  queue env (
      Job.webhook url (opt_text_in env (get (codes "secret") cfg)) (
        field (codes "trigger_code") (str t.code) (
          field (codes "severity") (str (severity_value t.severity))
            (field (codes "payload") (obj payload) end))))
  pure (field (codes "queued_webhook") (str url) end)

abbrev texts : Env → Items → List Text
texts env nil = []
texts env (item v vs) = get_or (as_text env v) [] ∷ texts env vs

-- `[to] if isinstance(to, str) else to`
abbrev addressees : Env → Option Json → List Text
addressees env (some (arr xs)) = texts env xs
addressees env (some v) = elim (as_text env v) [ none ↦ [] | some s ↦ s ∷ [] ]
addressees env none = []

abbrev recipients : Env → Fields → List Text
recipients env cfg =
    addressees env (or_else (get_truthy (codes "to") cfg) (get_truthy (codes "recipients") cfg))

abbrev is_none_left : List Text → Bool
is_none_left [] = true
is_none_left (t ∷ ts) = false

abbrev listed : List Text → Items
listed [] = nil
listed (t ∷ ts) = item (str t) (listed ts)

abbrev send_email : Env → Trigger → Fields → Fields → Session Fields
send_email env t cfg payload = do
  let to = recipients env cfg
  raise_if (is_none_left to) Error.requires_to
  let subject =
      interpolate env (setting env (codes "subject") (codes "[QMS] Trigger " ++ t.code) cfg) payload
        t
  let plain =
      interpolate env (setting env (codes "body_text") (setting env (codes "body") [] cfg) cfg)
        payload t
  let html = interpolate env (setting env (codes "body_html") [] cfg) payload t
  queue env (Job.email to (take 998 subject) plain (or_none html))
  pure (field (codes "queued_email") (arr (listed to)) end)

abbrev send_sms : Env → Trigger → Fields → Fields → Session Fields
send_sms env t cfg payload = do
  let to = recipients env cfg
  raise_if (is_none_left to) Error.requires_to
  let body = interpolate env (setting env (codes "body") [] cfg) payload t
  raise_if (is_blank body) Error.requires_body
  queue env (Job.sms to body)
  pure (field (codes "queued_sms") (arr (listed to)) end)

abbrev fields_of : Option Json → Fields
fields_of (some (obj d)) = d
fields_of _ = end

abbrev of_role : Env → Fields → Trainee → Bool
of_role env audience t = elim (get_truthy (codes "role_code") audience) [
  | none ↦ true
  | some v ↦ text_eq t.role_code (get_or (as_text env v) [])
]

abbrev of_line : Fields → Fields → Trainee → Bool
of_line audience payload t =
    if is_some (get_truthy (codes "line_scoped") audience)
    then elim (get_truthy (codes "line_id") payload) [
      | none ↦ true
      | some v ↦ option_eq t.line_id (as_uid v)
    ]
    else true

-- The trainees that the audience filter selects.
abbrev candidates : Env → Fields → Fields → World → List Trainee
candidates env audience payload w =
    keep (λ t. t.is_active && of_role env audience t && of_line audience payload t) w.trainees

abbrev issue_links : Env → Trigger → TrainingCourse → List Trainee → ℕ → Session ℕ
issue_links env t course [] issued = pure issued
issue_links env t course (trainee ∷ ts) issued = do
  in_flight ← gets (has_open_enrolment env trainee.id course.id)
  n ←
      (if in_flight
        then pure issued
        else enrol env trainee course EnrolmentSource.trigger (some (env.uuid t.id)) none
          >> pure (issued + 1))
  issue_links env t course ts n

abbrev send_training_link : Env → Trigger → Fields → Fields → Session Fields
send_training_link env t cfg payload = do
  v ← or_raise (get_truthy (codes "course_code") cfg) Error.requires_course_code
  let code = get_or (as_text env v) []
  course ← or_raise (← gets (get_course_by_code code)) Error.course_not_found
  chosen ← gets (candidates env (fields_of (get_truthy (codes "audience") cfg)) payload)
  issued ← issue_links env t course chosen 0
  pure (
      field (codes "trainees_issued") (num (pos issued))
        (field (codes "course_code") (str code) end))

abbrev dispatch_type : Env → ResponderType → Trigger → Fields → Fields → Session Fields
dispatch_type env ResponderType.notify_in_app t cfg payload = notify env t cfg payload
dispatch_type env ResponderType.create_ticket t cfg payload = open_ticket env t cfg payload
dispatch_type env ResponderType.escalate t cfg payload = escalate env cfg payload
dispatch_type env ResponderType.webhook t cfg payload = post env t cfg payload
dispatch_type env ResponderType.email t cfg payload = send_email env t cfg payload
dispatch_type env ResponderType.sms t cfg payload = send_sms env t cfg payload
dispatch_type env ResponderType.send_training_link t cfg payload =
    send_training_link env t cfg payload

-- `_dispatch_responder`
unfoldable pub dispatch_responder : Env → Responder → Trigger → Fields → Session Fields
dispatch_responder env r t payload = dispatch_type env r.type t r.config payload
