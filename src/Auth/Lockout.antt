-- ===== src/Auth/Lockout.antt =====
-- `authenticate` on every branch, and the lockout.
use qms_bakery.Prelude.{
  ℕ, ◌+◌, ◌*◌, ◌≡◌, refl, ◌⊎◌, inl, inr, true, false, Option, none, some, [], ◌∷◌, ◌++◌, leb,
  if◌then◌else◌, is_some, arith, Bool-cases, Option-cases,
}
use qms_bakery.Prelude.Text.{Text}
use qms_bakery.Models.Auth.{User, is_locked}
use qms_bakery.Models.Audit.{AuditLog, AuditAction}
use qms_bakery.World.{Env, World, now}
use qms_bakery.Audit.{record_entry}
use qms_bakery.Auth.{
  authenticate, admit, refuse, find_user, login_name, put_user, served, failed_once, locked_from,
  signed_in, try_user, try_password,
}

-- The wrong passwords that count against a user.
abbrev pub spent : User → ℕ
spent u = if is_some u.locked_until then 0 else u.failed_attempts

-- When the next wrong password locks the user, and until when.
abbrev pub lock_after : Env → User → Option ℕ
lock_after env u =
    if leb env.config.lockout_threshold (spent u + 1)
    then some (now env + env.config.lockout_minutes * 60)
    else none

-- What a call of `authenticate` has done, by how it ended.
abbrev pub Outcome : Env → Text → Text → World → Option User × World → Type 0
Outcome env email password w (some u, w') =
    (s : User) × (find_user (login_name email) w ≡ some s)
    × (s.is_active_flag ≡ true)
    × (is_locked (now env) s ≡ false)
    × (env.check_password password s.password_hash ≡ true)
    × (u ≡ signed_in env s)
    × (w'.users ≡ (put_user u w).users)
    × ((e : AuditLog) × (w'.audit_log ≡ w.audit_log ++ e ∷ [])
        × (e.action ≡ AuditAction.login_success)
        × (e.user_id ≡ some s.id))
Outcome env email password w (none, w') =
    (w' ≡ w)
      × ((find_user (login_name email) w ≡ none)
          ⊎ ((s : User) × (find_user (login_name email) w ≡ some s)
              × ((s.is_active_flag ≡ false) ⊎ (is_locked (now env) s ≡ true))))
    ⊎ ((s t : User) × (find_user (login_name email) w ≡ some s)
        × (s.is_active_flag ≡ true)
        × (is_locked (now env) s ≡ false)
        × (env.check_password password s.password_hash ≡ false)
        × (w'.users ≡ (put_user t w).users)
        × (t.id ≡ s.id)
        × (t.failed_attempts ≡ spent s + 1)
        × (t.locked_until ≡ lock_after env s))

-- The row after a wrong password.
abbrev pub wronged : Env → User → User
wronged env s =
    let f = failed_once (served s) in
    if leb env.config.lockout_threshold f.failed_attempts then locked_from env f else f

pub refuse-wronged :
    (env : Env) (s : User) (w : World)
    → (refuse env (served s) w).users ≡ (put_user (wronged env s) w).users
unfolding refuse record_entry
refuse-wronged env s w =
    elim (Bool-cases (leb env.config.lockout_threshold (failed_once (served s)).failed_attempts)) [
      | inl last ↦ rw (last, refuse) refl
      | inr more ↦ rw (more, refuse) refl
    ]

pub served_lem :
    (env : Env) (s : User)
    → ((served s).id ≡ s.id)
      × ((served s).password_hash ≡ s.password_hash)
      × ((served s).failed_attempts ≡ spent s)
      × ((served s).locked_until ≡ none)
      × (signed_in env (served s) ≡ signed_in env s)
unfolding served
served_lem env s = elim (Option-cases s.locked_until) [
  | inl unset ↦ rw unset (refl, refl, refl, refl, refl)
  | inr (until, set) ↦ rw set (refl, refl, refl, refl, refl)
]

pub wronged_lem :
    (env : Env) (s : User)
    → ((wronged env s).id ≡ s.id)
      × ((wronged env s).failed_attempts ≡ spent s + 1)
      × ((wronged env s).locked_until ≡ lock_after env s)
wronged_lem env s = ground (arith, served_lem env s)

try_password-Outcome :
    (env : Env) (email password : Text) (s : User) (w : World)
    → find_user (login_name email) w ≡ some s
    → s.is_active_flag ≡ true
    → is_locked (now env) s ≡ false
    → Outcome env email password w (try_password env password (served s) w)
unfolding try_password admit record_entry
try_password-Outcome env email password s w found active free =
    let (same_id, same_hash, same_count, unlocked, same_row) = served_lem env s in
    elim (Bool-cases (env.check_password password (served s).password_hash)) [
      | inl right ↦
          rw (right, try_password) (s, found, active, free, cc, same_row, refl, (_, refl, refl, cc))
      | inr wrong ↦
          rw (wrong, try_password)
            (inr (
              s,
              wronged env s,
              found,
              active,
              free,
              cc,
              refuse-wronged env s w,
              (wronged_lem env s).0,
              (wronged_lem env s).1,
              (wronged_lem env s).2,
            ))
    ]

pub authenticate-free :
    (env : Env) (email password : Text) (s : User) (w : World)
    → find_user (login_name email) w ≡ some s
    → s.is_active_flag ≡ true
    → is_locked (now env) s ≡ false
    → authenticate env email password w ≡ try_password env password (served s) w
unfolding authenticate try_user
authenticate-free env email password s w found active free =
    rw (found, active, free, authenticate) refl

-- `authenticate` signs in an active user who is not locked and gives the right password, with a
-- cleared counter and one audit entry; an unknown, inactive or locked one is turned away and
-- nothing changes; a wrong password is counted, from 0 where a lockout was served, and locks the
-- user at the threshold.
pub authenticate-Outcome :
    (env : Env) (email password : Text) (w : World)
    → Outcome env email password w (authenticate env email password w)
unfolding authenticate try_user
authenticate-Outcome env email password w = elim (Option-cases (find_user (login_name email) w)) [
  | inl unknown ↦ rw (unknown, authenticate) (inl (refl, inl unknown))
  | inr (s, found) ↦ elim (Bool-cases s.is_active_flag) [
    | inr gone ↦ rw (found, gone, authenticate) (inl (refl, inr (s, found, inl gone)))
    | inl active ↦ elim (Bool-cases (is_locked (now env) s)) [
      | inl shut ↦ rw (found, active, shut, authenticate) (inl (refl, inr (s, found, inr shut)))
      | inr free ↦
          rw (authenticate-free env email password s w found active free)
            (try_password-Outcome env email password s w found active free)
    ]
  ]
]
