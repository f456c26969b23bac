-- ===== src/Training/Reminders/Classified.antt =====
-- When a reminder is due.
use qms_bakery.Prelude.{ℕ, ◌+◌, ◌≤◌, ◌<◌, ◌≡◌, ◌≢◌, true, false, Option, none, some, ◌==◌, arith}
use qms_bakery.Prelude.Dates.{days, date_of}
use qms_bakery.Models.Training.{TrainingEnrolment, in_open_states}
use qms_bakery.Training.Reminders.{
  ReminderKind, three_days, seven_days, final, classify_reminder, mark_reminder_sent,
}

-- When a kind was sent.
abbrev pub sent_at : ReminderKind → TrainingEnrolment → Option ℕ
sent_at three_days e = e.reminder_3d_sent_at
sent_at seven_days e = e.reminder_7d_sent_at
sent_at final e = e.reminder_final_sent_at

-- When a kind may go out.
abbrev pub IsDue : ReminderKind → ℕ → TrainingEnrolment → Type 0
IsDue three_days now e = (now < e.expires_at) × (e.issued_at + days 3 ≤ now)
IsDue seven_days now e =
    (now < e.expires_at)
    × (e.issued_at + days 7 ≤ now)
    × ((date_of e.expires_at == date_of now) ≡ false)
IsDue final now e = date_of e.expires_at ≡ date_of now

-- A reminder that `_classify_reminder` chooses is for an open enrolment, was not sent before, and is
-- due: the final one on the day of expiry, the other two while the link lives and their days have
-- passed, the seventh-day one not on the day of expiry.
pub classify_reminder-IsDue :
    (now : ℕ) (e : TrainingEnrolment) (kind : ReminderKind)
    → classify_reminder now e ≡ some kind
    → (in_open_states e.status ≡ true) × (sent_at kind e ≡ none) × IsDue kind now e
unfolding classify_reminder
classify_reminder-IsDue now e three_days h = ground arith
classify_reminder-IsDue now e seven_days h = ground arith
classify_reminder-IsDue now e final h = ground arith

-- No kind goes out twice: once `_mark_reminder_sent` has marked it, `_classify_reminder` never chooses
-- it again, at any moment.
pub classify_reminder-once :
    (now then_now : ℕ) (e : TrainingEnrolment) (kind : ReminderKind)
    → classify_reminder then_now (mark_reminder_sent kind now e) ≢ some kind
unfolding classify_reminder mark_reminder_sent
classify_reminder-once now then_now e three_days = ground arith
classify_reminder-once now then_now e seven_days = ground arith
classify_reminder-once now then_now e final = ground arith
