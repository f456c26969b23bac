-- ===== src/Training/Enrol.antt =====
-- app/services/training.py: enrolments, with the magic link of app/services/training_links.py.
pub mod Issued
use qms_bakery.Prelude.{
  ℕ, ◌+◌, ◌-◌, Bool, true, false, not, Option, none, some, List, [], ◌∷◌, ◌++◌, map, length,
  reverse, ltb, ◌==◌, if◌then◌else◌, get_or,
}
use qms_bakery.Prelude.Dates.{days}
use qms_bakery.Prelude.Text.{Text, codes, is_blank}
use qms_bakery.Prelude.Int.{pos}
use qms_bakery.Json.{Json, Fields, end, field, str, uid, get_truthy}
use qms_bakery.Models.Audit.{AuditAction, EntityType}
use qms_bakery.Models.Training.{
  Trainee, TrainingCourse, TrainingCourseVersion, TrainingEnrolment, EnrolmentStatus,
  EnrolmentSource, NotificationChannel,
}
use qms_bakery.World.{
  Env, World, now, Session, Result, ok, err, Error, pure, gets, or_raise, modify, gen_uuid, ◌>>=◌,
  ◌>>◌,
}
use qms_bakery.Audit.{record_entry}
use qms_bakery.Prelude.Decimal.{decimal}
use qms_bakery.Training.Calendar.{plus_days, iso_date}
use qms_bakery.Training.Queries.{active_version}
use qms_bakery.Training.Queue.{dispatch}

-- The instant of 1970-01-01.
abbrev pub unix_epoch : ℕ
unix_epoch = 62167305600

-- `int(expires_at.timestamp())`
abbrev pub unix : ℕ → ℕ
unix t = t - unix_epoch

-- `_body`
abbrev pub link_body : Text → ℕ → Text
link_body id exp = id ++ codes ":" ++ decimal exp

-- `issue_token`
unfoldable pub issue_token : Env → ℕ → ℕ → Text
issue_token env enrolment expires_at =
    let id = env.uuid enrolment in
    let exp = unix expires_at in
    id ++ codes "." ++ decimal exp ++ codes "." ++ env.sign (link_body id exp)

-- `base.rstrip("/")`
abbrev drop_slashes : Text → Text
drop_slashes [] = []
drop_slashes (c ∷ s) = if c == b'/' then drop_slashes s else c ∷ s

abbrev rstrip_slashes : Text → Text
rstrip_slashes s = reverse (drop_slashes (reverse s))

-- `base_url or TRAINING_BASE_URL`
abbrev root_of : Env → Option Text → Text
root_of env none = env.config.base_url
root_of env (some b) = if is_blank b then env.config.base_url else b

abbrev pub link_of : Env → Option Text → Text → Text
link_of env base token = rstrip_slashes (root_of env base) ++ codes "/training/take/" ++ token

abbrev pub text_or : Option Json → Text → Text
text_or (some (str s)) other = s
text_or _ other = other

-- `(version.title or {}).get("en") or course.code`
abbrev title_en : TrainingCourse → TrainingCourseVersion → Text
title_en course v = text_or (get_truthy (codes "en") v.title) course.code

-- `phone[-4:]`
abbrev pub phone_suffix : Text → Text
phone_suffix [] = []
phone_suffix (c ∷ s) = if ltb (length s) 4 then c ∷ s else phone_suffix s

abbrev pub channel_value : NotificationChannel → Text
channel_value NotificationChannel.sms = codes "sms"
channel_value NotificationChannel.email = codes "email"
channel_value NotificationChannel.both = codes "both"

abbrev source_value : EnrolmentSource → Text
source_value EnrolmentSource.schedule = codes "schedule"
source_value EnrolmentSource.trigger = codes "trigger"
source_value EnrolmentSource.manual = codes "manual"

abbrev email_text : Text → Text → Text
email_text body date =
    body
    ++ codes "\n\nOpen the link on your phone to begin. This link expires on "
    ++ date
    ++ codes ".\n"

abbrev email_html : Text → Text → Text → Text
email_html title link date =
    codes "<p>"
    ++ title
    ++ codes " training link</p><p><a href=\""
    ++ link
    ++ codes "\">"
    ++ link
    ++ codes "</a></p><p>This link expires on "
    ++ date
    ++ codes ".</p>"

-- `_deliver_magic_link`: what was queued, and the session.
unfoldable pub deliver_magic_link :
    Env → Trainee → Text → Text → Text → Text → World → Bool × Bool × World
deliver_magic_link env t title link body date w =
    dispatch env t body (codes "[QMS] " ++ title) (email_text body date)
      (some (email_html title link date)) w

abbrev pub new_enrolment :
    Env → Trainee → TrainingCourseVersion → EnrolmentSource → Option Text → ℕ → TrainingEnrolment
new_enrolment env t v source source_ref id =
    let expires_at = now env + days v.link_ttl_days in
    record {
      id = id;
      trainee_id = t.id;
      course_version_id = v.id;
      magic_token = issue_token env id expires_at;
      issued_at = now env;
      expires_at = expires_at;
      status = EnrolmentStatus.issued;
      source = source;
      source_ref = source_ref;
      module_progress = 0;
      reminder_3d_sent_at = none;
      reminder_7d_sent_at = none;
      reminder_final_sent_at = none;
    }

abbrev enrolled_diff : Trainee → TrainingCourse → TrainingCourseVersion → EnrolmentSource → Fields
enrolled_diff t course v source = field (codes "trainee_id") (uid t.id) (
    field (codes "course_id") (uid course.id) (
      field (codes "version") (Json.num (pos v.version))
        (field (codes "source") (str (source_value source)) end)))

abbrev sent_diff : Trainee → Bool → Bool → Fields
sent_diff t sms_queued email_queued = field (codes "phone_suffix") (str (phone_suffix t.phone)) (
    field (codes "channel_requested") (str (channel_value t.notification_channel)) (
      field (codes "sms_queued") (Json.bool sms_queued)
        (field (codes "email_queued") (Json.bool email_queued) end)))

-- The second half of `enrol`: the message, and its audit entry.
unfoldable pub send_link :
    Env
    → Trainee
    → TrainingCourse
    → TrainingCourseVersion
    → TrainingEnrolment
    → Option Text
    → World
    → World
send_link env t course v e base w =
    let title = title_en course v in
    let date = iso_date (plus_days env.clock v.link_ttl_days) in
    let link = link_of env base e.magic_token in
    let body = title ++ codes " training: " ++ link ++ codes " (expires " ++ date ++ codes ")" in
    let (sms_queued, email_queued, sent) = deliver_magic_link env t title link body date w in
    record_entry env EntityType.training_enrolment (some e.id) AuditAction.training_link_sent
      (sent_diff t sms_queued email_queued) none sent

-- `enrol`
unfoldable pub enrol :
    Env
    → Trainee
    → TrainingCourse
    → EnrolmentSource
    → Option Text
    → Option Text
    → Session TrainingEnrolment
enrol env t course source source_ref base = do
  v ← or_raise (← gets (active_version course.id)) Error.no_active_version
  id ← gen_uuid
  let e = new_enrolment env t v source source_ref id
  modify (λ w. record w { enrolments = w.enrolments ++ e ∷ [] })
  modify (
      record_entry env EntityType.training_enrolment (some id) AuditAction.training_enrolled
        (enrolled_diff t course v source) none)
  modify (send_link env t course v e base)
  pure e
