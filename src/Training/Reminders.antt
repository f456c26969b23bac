-- ===== src/Training/Reminders.antt =====
-- app/services/training.py: the reminders of open enrolments.
pub mod Classified
use qms_bakery.Prelude.{
  ℕ, suc, ◌+◌, ◌-◌, Bool, true, false, not, ◌&&◌, Option, none, some, List, [], ◌∷◌, ◌++◌, keep,
  find, ltb, leb, ◌==◌, if◌then◌else◌, is_none, or_else,
}
use qms_bakery.Prelude.Dates.{days, date_of}
use qms_bakery.Prelude.Text.{Text, codes, text_eq, is_blank}
use qms_bakery.Json.{Json, Fields, end, field, str, get_truthy}
use qms_bakery.Models.Audit.{AuditAction, EntityType}
use qms_bakery.Models.Training.{
  Trainee, TrainingCourse, TrainingCourseVersion, TrainingEnrolment, in_open_states,
}
use qms_bakery.World.{Env, World, now}
use qms_bakery.Audit.{record_entry}
use qms_bakery.Prelude.Decimal.{decimal}
use qms_bakery.Training.Queries.{find_trainee, find_version}
use qms_bakery.Training.Queue.{dispatch}
use qms_bakery.Training.Enrol.{link_of, text_or, phone_suffix, channel_value}
use qms_bakery.Training.Exam.{put_enrolment}

pub data ReminderKind : Type 0 where
  three_days seven_days final : ReminderKind

-- `_classify_reminder`, of an open enrolment.
abbrev pub classify_open : ℕ → TrainingEnrolment → Option ReminderKind
classify_open now e =
    let is_final_day = date_of e.expires_at == date_of now in
    if is_final_day && is_none e.reminder_final_sent_at
    then some final
    else if leb e.expires_at now
    then none
    else if not is_final_day && leb (e.issued_at + days 7) now && is_none e.reminder_7d_sent_at
    then some seven_days
    else if leb (e.issued_at + days 3) now && is_none e.reminder_3d_sent_at
    then some three_days
    else none

-- `_classify_reminder`
unfoldable pub classify_reminder : ℕ → TrainingEnrolment → Option ReminderKind
classify_reminder now e = if in_open_states e.status then classify_open now e else none

-- `_mark_reminder_sent`
unfoldable pub mark_reminder_sent : ReminderKind → ℕ → TrainingEnrolment → TrainingEnrolment
mark_reminder_sent three_days now e = record e { reminder_3d_sent_at = some now }
mark_reminder_sent seven_days now e = record e { reminder_7d_sent_at = some now }
mark_reminder_sent final now e = record e { reminder_final_sent_at = some now }

-- `_reminder_body`: the subject and the text.
pub reminder_body : Env → ReminderKind → Text → Text → Text → ℕ → Text × Text
reminder_body env kind lang title link expires_at =
    let left = decimal (date_of expires_at - date_of (now env)) in
    let quoted = env.repr title in
    if text_eq lang (codes "pl")
    then elim kind as (λ k. Text × Text) [
      | final ↦ (
        codes "[QMS] DZIŚ wygasa szkolenie: " ++ title,
        codes "DZIŚ MIJA TERMIN szkolenia „"
            ++ title
            ++ codes
                "”.\nBez zaliczenia szkolenia w dniu dzisiejszym nie zostaniesz dopuszczony/-a do pracy.\n\nOtwórz link i ukończ szkolenie:\n"
            ++ link
            ++ codes "\n",
      )
      | seven_days ↦ (
        codes "[QMS] Przypomnienie: " ++ title,
        codes "Zostało "
            ++ left
            ++ codes " dni na ukończenie szkolenia „"
            ++ title
            ++ codes "”.\n\nLink:\n"
            ++ link
            ++ codes "\n",
      )
      | three_days ↦ (
        codes "[QMS] Twoje szkolenie czeka: " ++ title,
        codes "Trzy dni temu otrzymałeś/-aś link do szkolenia „"
            ++ title
            ++ codes "”. Zostało "
            ++ left
            ++ codes " dni na ukończenie.\n\nLink:\n"
            ++ link
            ++ codes "\n",
      )
    ]
    else elim kind as (λ k. Text × Text) [
      | final ↦ (
        codes "[QMS] FINAL — training expires today: " ++ title,
        codes "YOUR DEADLINE IS TODAY for the "
            ++ quoted
            ++ codes
                " training.\nWithout passing today, you will NOT be cleared for work.\n\nOpen the link and finish:\n"
            ++ link
            ++ codes "\n",
      )
      | seven_days ↦ (
        codes "[QMS] Reminder: " ++ title,
        codes "You have "
            ++ left
            ++ codes " day(s) left to finish the "
            ++ quoted
            ++ codes " training.\n\nLink:\n"
            ++ link
            ++ codes "\n",
      )
      | three_days ↦ (
        codes "[QMS] Your training is waiting: " ++ title,
        codes "Three days ago you received a link for the "
            ++ quoted
            ++ codes " training. You have "
            ++ left
            ++ codes " day(s) left to finish.\n\nLink:\n"
            ++ link
            ++ codes "\n",
      )
    ]

-- `trainee.language or "en"`
abbrev language_of : Trainee → Text
language_of t = if is_blank t.language then codes "en" else t.language

abbrev title_in : Text → TrainingCourse → TrainingCourseVersion → Text
title_in lang course v =
    text_or (or_else (get_truthy lang v.title) (get_truthy (codes "en") v.title)) course.code

abbrev kind_value : ReminderKind → Text
kind_value three_days = codes "3d"
kind_value seven_days = codes "7d"
kind_value final = codes "final"

abbrev reminder_diff : ReminderKind → Trainee → Fields
reminder_diff kind t = field (codes "kind") (str (kind_value kind)) (
    field (codes "channel_requested") (str (channel_value t.notification_channel))
      (field (codes "phone_suffix") (str (phone_suffix t.phone)) end))

abbrev sent : Bool × Bool × World → World
sent (sms_queued, email_queued, w) = w

-- One reminder: the message, the mark, and the audit entry.
unfoldable pub remind :
    Env
    → Option Text
    → ReminderKind
    → TrainingEnrolment
    → Trainee
    → TrainingCourse
    → TrainingCourseVersion
    → World
    → World
remind env base kind e t course v w =
    let lang = language_of t in
    let (subject, body) =
      reminder_body env kind lang (title_in lang course v) (link_of env base e.magic_token)
        e.expires_at in
    let w' = sent (dispatch env t body subject body none w) in
    record_entry env EntityType.training_enrolment (some e.id) AuditAction.training_reminder_sent
      (reminder_diff kind t) none (put_enrolment (mark_reminder_sent kind (now env) e) w')

-- The dict that `send_pending_reminders` returns.
pub record ReminderCounts : Type 0 where
  pub three_days_sent : ℕ
  pub seven_days_sent : ℕ
  pub final_sent : ℕ
  pub skipped : ℕ

abbrev bump : ReminderKind → ReminderCounts → ReminderCounts
bump three_days c = record c { three_days_sent = c.three_days_sent + 1 }
bump seven_days c = record c { seven_days_sent = c.seven_days_sent + 1 }
bump final c = record c { final_sent = c.final_sent + 1 }

abbrev skip : ReminderCounts → ReminderCounts
skip c = record c { skipped = c.skipped + 1 }

-- The course and the version of an enrolment, which its foreign keys name.
abbrev remind_course :
    Env
    → Option Text
    → ReminderKind
    → TrainingEnrolment
    → Trainee
    → Option TrainingCourseVersion
    → World
    → World
remind_course env base kind e t none w = w
remind_course env base kind e t (some v) w =
    elim (find (λ (c : TrainingCourse). c.id == v.course_id) w.courses) [
      | none ↦ w
      | some course ↦ remind env base kind e t course v w
    ]

abbrev remind_trainee :
    Env
    → Option Text
    → ReminderKind
    → TrainingEnrolment
    → Option Trainee
    → ReminderCounts
    → World
    → ReminderCounts × World
remind_trainee env base kind e none c w = (skip c, w)
remind_trainee env base kind e (some t) c w =
    if not t.is_active
    then (skip c, w)
    else (bump kind c, remind_course env base kind e t (find_version e.course_version_id w) w)

abbrev pub remind_one :
    Env
    → Option Text
    → TrainingEnrolment
    → Option ReminderKind
    → ReminderCounts
    → World
    → ReminderCounts × World
remind_one env base e none c w = (c, w)
remind_one env base e (some kind) c w =
    remind_trainee env base kind e (find_trainee e.trainee_id w) c w

unfoldable pub remind_all :
    Env → Option Text → List TrainingEnrolment → ReminderCounts → World → ReminderCounts × World
remind_all env base [] c w = (c, w)
remind_all env base (e ∷ es) c w =
    let (c', w') = remind_one env base e (classify_reminder (now env) e) c w in
    remind_all env base es c' w'

abbrev no_counts : ReminderCounts
no_counts = record { three_days_sent = 0; seven_days_sent = 0; final_sent = 0; skipped = 0 }

-- `send_pending_reminders`
unfoldable pub send_pending_reminders : Env → Option Text → World → ReminderCounts × World
send_pending_reminders env base w =
    remind_all env base
      (keep (λ e. in_open_states e.status && ltb (now env) e.expires_at) w.enrolments) no_counts w
