-- ===== src/Training/Csv/Trainees.antt =====
-- app/services/training_csv.py: `plan_trainees_import`. The values of a row
-- are stripped, as `_parse` leaves them.
use qms_bakery.Prelude.{
  ℕ, suc, Bool, true, false, not, ◌&&◌, Option, none, some, List, [], ◌∷◌, ◌++◌, find, count_if,
  ◌==◌, if◌then◌else◌, is_some,
}
use qms_bakery.Prelude.Text.{Text, codes, text_eq, option_text_eq, is_blank, strip, or_none}
use qms_bakery.Models.Production.{ProductionLine}
use qms_bakery.Models.Training.{Trainee, NotificationChannel}
use qms_bakery.World.{World}
use qms_bakery.Training.Enrol.{channel_value}
use qms_bakery.Training.Csv.{Row, column, or_text, is_true_word, ImportAction, skip, create, update}
use qms_bakery.Training.Csv.Courses.{first_line}

pub data TraineeRowError : Type 0 where
  trainees_not_utf8 number_required phone_required name_required role_required : TraineeRowError
  unknown_channel unknown_line email_required : TraineeRowError
  duplicate_number duplicate_phone phone_belongs : ℕ → TraineeRowError

-- `diff` holds the column, the value of the row and the new value.
pub record TraineeRowResult : Type 0 where
  pub line_no : ℕ
  pub raw : Row
  pub action : ImportAction
  pub errors : List TraineeRowError
  pub matched_trainee_id : Option ℕ
  pub diff : List (Text × Text × Text)

abbrev pub is_fine : List TraineeRowError → Bool
is_fine [] = true
is_fine (_ ∷ _) = false

abbrev pub is_create : ImportAction → Bool
is_create create = true
is_create _ = false

abbrev is_update : ImportAction → Bool
is_update update = true
is_update _ = false

-- `n_create`, `n_update` and `n_error`
abbrev pub created_rows : List TraineeRowResult → ℕ
created_rows rows = count_if (λ (r : TraineeRowResult). is_create r.action && is_fine r.errors) rows

abbrev pub updated_rows : List TraineeRowResult → ℕ
updated_rows rows = count_if (λ (r : TraineeRowResult). is_update r.action && is_fine r.errors) rows

abbrev pub refused_rows : List TraineeRowResult → ℕ
refused_rows rows = count_if (λ (r : TraineeRowResult). not (is_fine r.errors)) rows

abbrev pub number_in : Row → Text
number_in raw = strip (column (codes "employee_number") raw)

abbrev pub phone_in : Row → Text
phone_in raw = strip (column (codes "phone") raw)

abbrev pub email_in : Row → Option Text
email_in raw = or_none (strip (column (codes "email") raw))

abbrev pub name_in : Row → Text
name_in raw = strip (column (codes "full_name") raw)

abbrev pub role_in : Row → Text
role_in raw = strip (column (codes "role_code") raw)

abbrev pub line_code_in : Row → Text
line_code_in raw = strip (column (codes "line_code") raw)

abbrev language_in : Row → Text
language_in raw =
    or_text (strip (or_text (column (codes "language") raw) (codes "en"))) (codes "en")

abbrev channel_in : Row → Text
channel_in raw =
    or_text (strip (or_text (column (codes "notification_channel") raw) (codes "sms")))
      (codes "sms")

abbrev pub is_active_in : Row → Bool
is_active_in raw = is_true_word (or_text (column (codes "is_active") raw) (codes "true"))

abbrev pub channel_of : Text → Option NotificationChannel
channel_of s =
    if text_eq s (codes "sms")
    then some NotificationChannel.sms
    else if text_eq s (codes "email")
    then some NotificationChannel.email
    else if text_eq s (codes "both")
    then some NotificationChannel.both
    else none

abbrev pub line_id_of : Text → World → Option ℕ
line_id_of code w = elim (find (λ (l : ProductionLine). text_eq l.code code) w.lines) [
  | none ↦ none
  | some l ↦ some l.id
]

-- `if test: errors.append(e)`
abbrev pub when : Bool → TraineeRowError → List TraineeRowError
when test e = if test then e ∷ [] else []

abbrev pub twice : (ℕ → TraineeRowError) → Option ℕ → List TraineeRowError
twice error none = []
twice error (some i) = error i ∷ []

abbrev pub field_errors : Row → World → List TraineeRowError
field_errors raw w =
    when (is_blank (number_in raw)) number_required
    ++ when (is_blank (phone_in raw)) phone_required
    ++ when (is_blank (name_in raw)) name_required
    ++ when (is_blank (role_in raw)) role_required
    ++ when (not (is_some (channel_of (channel_in raw)))) unknown_channel
    ++ when (not (is_blank (line_code_in raw)) && not (is_some (line_id_of (line_code_in raw) w)))
        unknown_line
    ++ when (not (text_eq (channel_in raw) (codes "sms")) && not (is_some (email_in raw)))
        email_required

-- The rows before this one that have its key.
abbrev pub twice_errors : (ℕ → TraineeRowError) → Text → List (Text × ℕ) → List TraineeRowError
twice_errors error key seen = if is_blank key then [] else twice error (first_line key seen)

unfoldable pub trainee_errors :
    List (Text × ℕ) → List (Text × ℕ) → Row → World → List TraineeRowError
trainee_errors numbers phones raw w =
    field_errors raw w
    ++ (twice_errors duplicate_number (number_in raw) numbers
        ++ twice_errors duplicate_phone (phone_in raw) phones)

-- `seen_emp` and `seen_phone` after a row.
abbrev pub key_seen : Text → ℕ → List (Text × ℕ) → List (Text × ℕ)
key_seen key i seen = if is_blank key then seen else seen ++ (key, i) ∷ []

abbrev pub with_number : Text → World → Option Trainee
with_number number w =
    find (λ (t : Trainee). option_text_eq t.employee_number (some number)) w.trainees

abbrev pub with_phone : Text → World → Option Trainee
with_phone phone w = find (λ (t : Trainee). text_eq t.phone phone) w.trainees

abbrev pub other_with_phone : Text → ℕ → World → Option Trainee
other_with_phone phone id w =
    find (λ (t : Trainee). text_eq t.phone phone && not (t.id == id)) w.trainees

abbrev text_or_blank : Option Text → Text
text_or_blank none = []
text_or_blank (some s) = s

abbrev code_of_line : Option ℕ → World → Text
code_of_line none w = []
code_of_line (some id) w = elim (find (λ (l : ProductionLine). l.id == id) w.lines) [
  | none ↦ []
  | some l ↦ l.code
]

abbrev bool_text : Bool → Text
bool_text b = if b then codes "true" else codes "false"

abbrev changed : Text → Text → Text → List (Text × Text × Text)
changed name cur new = if text_eq cur new then [] else (name, cur, new) ∷ []

-- What the preview shows of an update.
abbrev pub diff_of : Row → Trainee → World → List (Text × Text × Text)
diff_of raw t w =
    changed (codes "phone") t.phone (phone_in raw)
    ++ changed (codes "email") (text_or_blank t.email) (text_or_blank (email_in raw))
    ++ changed (codes "full_name") t.full_name (name_in raw)
    ++ changed (codes "role_code") t.role_code (role_in raw)
    ++ changed (codes "line_code") (code_of_line t.line_id w) (line_code_in raw)
    ++ changed (codes "language") t.language (language_in raw)
    ++ changed (codes "notification_channel") (channel_value t.notification_channel)
        (channel_in raw)
    ++ changed (codes "is_active") (bool_text t.is_active) (bool_text (is_active_in raw))

abbrev pub is_same : List (Text × Text × Text) → Bool
is_same [] = true
is_same (_ ∷ _) = false

abbrev refused : ℕ → Row → List TraineeRowError → TraineeRowResult
refused i raw errors = record {
  line_no = i;
  raw = raw;
  action = skip;
  errors = errors;
  matched_trainee_id = none;
  diff = [];
}

abbrev pub new_row : ℕ → Row → Option Trainee → TraineeRowResult
new_row i raw none = record (refused i raw []) { action = create }
new_row i raw (some other) = refused i raw (phone_belongs other.id ∷ [])

abbrev pub old_row : ℕ → Row → Trainee → Option Trainee → World → TraineeRowResult
old_row i raw t none w = record (refused i raw []) {
  action = update;
  matched_trainee_id = some t.id;
  diff = diff_of raw t w;
}
old_row i raw t (some other) w = refused i raw (phone_belongs other.id ∷ [])

abbrev pub looked_up : ℕ → Row → Option Trainee → World → TraineeRowResult
looked_up i raw none w = new_row i raw (with_phone (phone_in raw) w)
looked_up i raw (some t) w = old_row i raw t (other_with_phone (phone_in raw) t.id w) w

abbrev pub planned_trainee : ℕ → Row → List TraineeRowError → World → TraineeRowResult
planned_trainee i raw [] w = looked_up i raw (with_number (number_in raw) w) w
planned_trainee i raw (e ∷ es) w = refused i raw (e ∷ es)

unfoldable pub plan_trainees :
    World → List (Text × ℕ) → List (Text × ℕ) → ℕ → List Row → List TraineeRowResult
plan_trainees w numbers phones i [] = []
plan_trainees w numbers phones i (raw ∷ rows) =
    planned_trainee i raw (trainee_errors numbers phones raw w) w
    ∷ plan_trainees w (key_seen (number_in raw) i numbers) (key_seen (phone_in raw) i phones)
        (suc i) rows

-- `plan_trainees_import`, of the rows of the file, or of a file that is not UTF-8.
unfoldable pub plan_trainees_import : Option (List Row) → World → List TraineeRowResult
plan_trainees_import none w = refused 0 [] (trainees_not_utf8 ∷ []) ∷ []
plan_trainees_import (some rows) w = plan_trainees w [] [] 2 rows
