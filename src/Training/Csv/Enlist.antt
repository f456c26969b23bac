-- ===== src/Training/Csv/Enlist.antt =====
-- app/services/training_csv.py: `apply_trainees_plan`.
use qms_bakery.Prelude.{
  ℕ, suc, not, Option, none, some, List, [], ◌∷◌, map, find, ◌==◌, if◌then◌else◌, get_or,
}
use qms_bakery.Prelude.Text.{Text, codes, strip}
use qms_bakery.Models.Training.{Trainee, NotificationChannel}
use qms_bakery.World.{Env, World, Session, now, pure, gets, modify, ◌>>=◌, ◌>>◌}
use qms_bakery.Training.Catalogue.{NewTrainee, create_trainee}
use qms_bakery.Training.Csv.{Row, column, or_text, ImportCounts}
use qms_bakery.Training.Csv.Trainees.{
  TraineeRowResult, is_fine, is_create, is_same, diff_of, number_in, phone_in, email_in, name_in,
  role_in, line_code_in, line_id_of, is_active_in, channel_of,
}

-- The channel of a row, a value of the enumeration once the plan has accepted it.
abbrev typed_channel : Row → NotificationChannel
typed_channel raw =
    get_or (channel_of (strip (or_text (column (codes "notification_channel") raw) (codes "sms"))))
      NotificationChannel.sms

-- `(raw.get("language", "") or "en").strip()`
abbrev typed_language : Row → Text
typed_language raw = strip (or_text (column (codes "language") raw) (codes "en"))

abbrev pub trainee_of : Row → World → NewTrainee
trainee_of raw w = record {
  phone = phone_in raw;
  full_name = name_in raw;
  role_code = role_in raw;
  line_id = line_id_of (line_code_in raw) w;
  language = typed_language raw;
  email = email_in raw;
  notification_channel = typed_channel raw;
  employee_number = some (number_in raw);
}

abbrev pub overwritten : Env → Row → World → Trainee → Trainee
overwritten env raw w t = record t {
  phone = phone_in raw;
  email = email_in raw;
  full_name = name_in raw;
  role_code = role_in raw;
  line_id = line_id_of (line_code_in raw) w;
  language = typed_language raw;
  notification_channel = typed_channel raw;
  is_active = is_active_in raw;
  updated_at = if is_same (diff_of raw t w) then t.updated_at else now env;
}

-- Sets attributes of the row with a key.
abbrev pub set_trainee : ℕ → (Trainee → Trainee) → World → World
set_trainee id f w = record w { trainees = map (λ t. if t.id == id then f t else t) w.trainees }

abbrev pub enter_trainee : Env → Row → ImportCounts → Session ImportCounts
enter_trainee env raw c = do
  n ← gets (trainee_of raw)
  _ ← create_trainee env n
  pure (record c { created = suc c.created })

abbrev pub overwrite : Env → Row → ImportCounts → Option Trainee → Session ImportCounts
overwrite env raw c none = pure (record c { skipped = suc c.skipped })
overwrite env raw c (some t) = do
  modify (λ w. set_trainee t.id (overwritten env raw w) w)
  pure (record c { updated = suc c.updated })

abbrev pub trainee_with : Option ℕ → World → Option Trainee
trainee_with none w = none
trainee_with (some id) w = find (λ (t : Trainee). t.id == id) w.trainees

abbrev pub apply_trainee : Env → TraineeRowResult → ImportCounts → Session ImportCounts
apply_trainee env r c =
    if not (is_fine r.errors)
    then pure (record c { skipped = suc c.skipped })
    else if is_create r.action
    then enter_trainee env r.raw c
    else gets (trainee_with r.matched_trainee_id) >>= overwrite env r.raw c

unfoldable pub apply_trainees : Env → List TraineeRowResult → ImportCounts → Session ImportCounts
apply_trainees env [] c = pure c
apply_trainees env (r ∷ rows) c = apply_trainee env r c >>= apply_trainees env rows

-- `apply_trainees_plan`
unfoldable pub apply_trainees_plan : Env → List TraineeRowResult → Session ImportCounts
apply_trainees_plan env rows =
    apply_trainees env rows (record { created = 0; updated = 0; skipped = 0 })
