-- ===== src/Training/Links.antt =====
-- app/services/training_links.py: `verify_token`, and the look-up of a magic link in
-- app/services/training.py. `issue_token` stands in Enrol.
pub mod RoundTrip
pub mod Signed
mod Tests
use qms_bakery.Prelude.{
  ℕ, suc, ◌+◌, Bool, true, false, not, ◌&&◌, Option, none, some, List, [], ◌∷◌, ◌++◌, all, find,
  ltb, leb, ◌==◌, if◌then◌else◌,
}
use qms_bakery.Prelude.Int.{ℤ, pos, negsuc}
use qms_bakery.Prelude.Text.{Text, codes, text_eq}
use qms_bakery.Prelude.Decimal.{int_of, split_on}
use qms_bakery.Models.Training.{TrainingEnrolment}
use qms_bakery.World.{Env, World, now}
use qms_bakery.Prelude.Decimal.{decimal}
use qms_bakery.Training.Queries.{is_past}
use qms_bakery.Training.Enrol.{unix}

-- `str(n)` of an integer
abbrev pub int_text : ℤ → Text
int_text (pos n) = decimal n
int_text (negsuc n) = codes "-" ++ decimal (suc n)

-- `_body(enrolment_id, exp_unix)`
abbrev pub body_of : Text → ℤ → Text
body_of id exp = id ++ codes ":" ++ int_text exp

-- The messages of `InvalidToken`.
pub data InvalidToken : Type 0 where
  malformed bad_expiry bad_signature expired : InvalidToken

-- How `verify_token` ends: `hmac.compare_digest` raises a TypeError of its own on a text that is not
-- ASCII.
pub data Verified : Type 0 where
  valid : Text → Verified
  invalid : InvalidToken → Verified
  type_error : Verified

abbrev pub is_ascii : Text → Bool
is_ascii s = all (λ c. ltb c 128) s

-- `datetime.now(UTC).timestamp() >= exp_unix`
abbrev pub has_expired : Env → ℤ → Bool
has_expired env (pos e) = leb e (unix (now env))
has_expired env (negsuc e) = true

unfoldable pub check_signature : Env → Text → ℤ → Text → Verified
check_signature env id exp sig =
    if not (is_ascii sig)
    then type_error
    else if not (text_eq (env.sign (body_of id exp)) sig)
    then invalid bad_signature
    else if has_expired env exp
    then invalid expired
    else valid id

abbrev pub check_expiry : Env → Text → Option ℤ → Text → Verified
check_expiry env id none sig = invalid bad_expiry
check_expiry env id (some exp) sig = check_signature env id exp sig

-- The three parts of a token with two dots.
unfoldable pub verify_parts : Env → List Text → Verified
verify_parts env (id ∷ exp ∷ sig ∷ []) = check_expiry env id (int_of exp) sig
verify_parts env _ = invalid malformed

-- `verify_token`
unfoldable pub verify_token : Env → Text → Verified
verify_token env token = verify_parts env (split_on b'.' token)

pub data LinkReason : Type 0 where
  link_expired link_invalid : LinkReason

-- What `get_enrolment_with_reason` returns; `crashed` is the TypeError, which it does not catch.
pub data Opened : Type 0 where
  opened : TrainingEnrolment → Opened
  refused : LinkReason → Opened
  crashed : Opened

-- `"expired" if "expired" in str(exc) else "invalid"`
abbrev reason_of : InvalidToken → LinkReason
reason_of expired = link_expired
reason_of malformed = link_invalid
reason_of bad_expiry = link_invalid
reason_of bad_signature = link_invalid

-- `db.session.get(TrainingEnrolment, enrolment_id)`
abbrev pub enrolment_of : Env → Text → World → Option TrainingEnrolment
enrolment_of env id w = find (λ (e : TrainingEnrolment). text_eq (env.uuid e.id) id) w.enrolments

unfoldable pub open_row : Env → Text → Option TrainingEnrolment → Opened
open_row env token none = refused link_invalid
open_row env token (some e) =
    if not (text_eq e.magic_token token)
    then refused link_expired
    else if is_past env e.expires_at
    then refused link_expired
    else opened e

abbrev pub open_verified : Env → Text → World → Verified → Opened
open_verified env token w (valid id) = open_row env token (enrolment_of env id w)
open_verified env token w (invalid why) = refused (reason_of why)
open_verified env token w type_error = crashed

-- `get_enrolment_with_reason`
unfoldable pub get_enrolment_with_reason : Env → Text → World → Opened
get_enrolment_with_reason env token w = open_verified env token w (verify_token env token)

abbrev enrolment_part : Opened → Option TrainingEnrolment
enrolment_part (opened e) = some e
enrolment_part (refused why) = none
enrolment_part crashed = none

-- `get_enrolment_by_token`, where it does not raise
unfoldable pub get_enrolment_by_token : Env → Text → World → Option TrainingEnrolment
get_enrolment_by_token env token w = enrolment_part (get_enrolment_with_reason env token w)
