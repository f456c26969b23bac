-- ===== src/Auth.antt =====
-- app/auth.py: sign-in with lockout, and the permission check of the views.
pub mod Lockout
pub mod Access
pub mod Guesses
pub mod Totp
pub mod Login
mod Tests
use qms_bakery.Prelude.{
  ℕ, ◌+◌, ◌*◌, Bool, true, false, not, ◌&&◌, Option, none, some, List, map, find, ltb, leb, ◌==◌,
  if◌then◌else◌, is_some,
}
use qms_bakery.Prelude.Int.{pos}
use qms_bakery.Prelude.Text.{Text, codes, strip, text_eq}
use qms_bakery.Json.{Json, end, field, str}
use qms_bakery.Models.Auth.{User, Permission, has_permission, is_locked, permission_value}
use qms_bakery.Models.Audit.{AuditAction, EntityType}
use qms_bakery.World.{Env, World, now}
use qms_bakery.Audit.{record_entry}

-- `str.lower`, of the letters A to Z.
abbrev lower_char : ℕ → ℕ
lower_char c = if leb 65 c && leb c 90 then c + 32 else c

abbrev pub login_name : Text → Text
login_name email = strip (map lower_char email)

abbrev pub find_user : Text → World → Option User
find_user name w = find (λ u. text_eq u.email name) w.users

-- Writes a row back.
abbrev pub put_user : User → World → World
put_user t w = record w { users = map (λ u. if u.id == t.id then t else u) w.users }

-- A served lockout gives a new budget of attempts.
unfoldable pub served : User → User
served u =
    if is_some u.locked_until then record u { failed_attempts = 0; locked_until = none } else u

abbrev pub failed_once : User → User
failed_once u = record u { failed_attempts = u.failed_attempts + 1 }

abbrev pub locked_from : Env → User → User
locked_from env u = record u { locked_until = some (now env + env.config.lockout_minutes * 60) }

-- What `authenticate` does after a wrong password.
unfoldable pub refuse : Env → User → World → World
refuse env u w =
    let f = failed_once u in
    if leb env.config.lockout_threshold f.failed_attempts
    then record_entry env EntityType.user (some u.id) AuditAction.account_locked
        (field (codes "failed_attempts") (Json.num (pos f.failed_attempts)) end) (some u.id)
        (put_user (locked_from env f) w)
    else put_user f w

abbrev pub signed_in : Env → User → User
signed_in env u = record u {
  failed_attempts = 0;
  locked_until = none;
  last_login_at = some (now env);
}

-- What `authenticate` does after the right password.
unfoldable pub admit : Env → User → World → World
admit env u w =
    record_entry env EntityType.user (some u.id) AuditAction.login_success end (some u.id)
      (put_user (signed_in env u) w)

unfoldable pub try_password : Env → Text → User → World → Option User × World
try_password env password u w =
    if env.check_password password u.password_hash
    then (some (signed_in env u), admit env u w)
    else (none, refuse env u w)

unfoldable pub try_user : Env → Text → Option User → World → Option User × World
try_user env password none w = (none, w)
try_user env password (some u) w =
    if not u.is_active_flag
    then (none, w)
    else if is_locked (now env) u
    then (none, w)
    else try_password env password (served u) w

-- `authenticate`
unfoldable pub authenticate : Env → Text → Text → World → Option User × World
authenticate env email password w = try_user env password (find_user (login_name email) w) w

-- How a guarded view answers: a redirect to the login page, 403, or the view itself.
pub data Answer (A : Type 0) : Type 0 where
  login_redirect forbidden : Answer A
  answered : A → Answer A

abbrev answer : {A : Type 0} → A × World → Answer A × World
answer (a, w) = (answered a, w)

-- `require_permission`, around a view. The user is the one of the request.
unfoldable pub require_permission :
    {A : Type 0}
    → Env
    → Permission
    → Text
    → Option User
    → (World → A × World)
    → World
    → Answer A × World
require_permission env p path none view w = (login_redirect, w)
require_permission env p path (some u) view w =
    if not (has_permission p u)
    then (
      forbidden,
      record_entry env EntityType.access none AuditAction.denied
          (field (codes "required") (str (permission_value p))
            (field (codes "path") (str path) end))
          none w,
    )
    else answer (view w)
