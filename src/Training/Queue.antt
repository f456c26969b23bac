-- ===== src/Training/Queue.antt =====
-- app/services/queue.py, as the training service calls it: a job is queued, or Redis is down.
use qms_bakery.Prelude.{
  Bool, true, false, ◌&&◌, not, List, [], ◌∷◌, ◌++◌, Option, none, some, if◌then◌else◌,
}
use qms_bakery.Prelude.Text.{Text, is_blank, strip}
use qms_bakery.Models.Training.{Trainee, NotificationChannel}
use qms_bakery.World.{Env, World, Job}

abbrev pub enqueue : Env → Job → World → Bool × World
enqueue env job w =
    if env.queue_up then (true, record w { jobs = w.jobs ++ job ∷ [] }) else (false, w)

-- `bool((trainee.email or "").strip())`
abbrev pub has_email : Trainee → Bool
has_email t = elim t.email [ none ↦ false | some e ↦ not (is_blank (strip e)) ]

abbrev pub address : Trainee → List Text
address t = elim t.email [ none ↦ [] | some e ↦ e ∷ [] ]

abbrev on_sms : NotificationChannel → Bool
on_sms NotificationChannel.sms = true
on_sms NotificationChannel.both = true
on_sms NotificationChannel.email = false

abbrev on_email : NotificationChannel → Bool
on_email NotificationChannel.email = true
on_email NotificationChannel.both = true
on_email NotificationChannel.sms = false

-- Whether a message goes out by SMS, and whether by e-mail, after the fallback to SMS.
abbrev pub wants_sms : Trainee → Bool
wants_sms t =
    if on_email t.notification_channel && not (has_email t)
    then true
    else on_sms t.notification_channel

abbrev pub wants_email : Trainee → Bool
wants_email t = on_email t.notification_channel && has_email t

abbrev pub enqueue_if : Bool → Env → Job → World → Bool × World
enqueue_if want env job w = if want then enqueue env job w else (false, w)

-- Both channels, SMS first: what was queued, and the session.
unfoldable pub dispatch :
    Env → Trainee → Text → Text → Text → Option Text → World → Bool × Bool × World
dispatch env t sms_body subject email_body html w =
    let (sms_queued, w1) = enqueue_if (wants_sms t) env (Job.sms (t.phone ∷ []) sms_body) w in
    let (email_queued, w2) =
      enqueue_if (wants_email t) env (Job.email (address t) subject email_body html) w1 in
    (sms_queued, email_queued, w2)
