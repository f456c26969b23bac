-- ===== src/Auth/Login/Kept.antt =====
-- What a call of `authenticate` leaves of the second factors and adds to the audit trail.
use qms_bakery.Prelude.{
  ℕ, ◌+◌, ◌≤◌, ◌<◌, ◌≡◌, refl, ◌∙◌, inl, inr, Bool, true, false, not, ◌&&◌, ◌||◌, Option, none,
  some, List, [], ◌∷◌, ◌++◌, map, find, count_if, option_eq, All, leb, ◌==◌, ==_refl, if◌then◌else◌,
  arith, Bool-cases, Option-cases,
}
use qms_bakery.Prelude.Text.{Text, codes}
use qms_bakery.Json.{Json, Fields, end, field}
use qms_bakery.Prelude.Int.{pos}
use qms_bakery.Models.Auth.{User, totp_enabled, is_locked}
use qms_bakery.Models.Audit.{AuditAction, AuditLog, EntityType}
use qms_bakery.World.{Env, World, now}
use qms_bakery.Audit.{record_entry}
use qms_bakery.Auth.{
  authenticate, admit, refuse, find_user, login_name, put_user, served, try_user, try_password,
  failed_once, locked_from, signed_in,
}
use qms_bakery.Auth.Lockout.{authenticate-free}

-- The rows of a user, if any, have a second factor.
abbrev pub HasFactor : ℕ → List User → Type 0
HasFactor k us = All (λ u. (not (u.id == k) || totp_enabled u) ≡ true) us

abbrev is_login : AuditAction → Bool
is_login AuditAction.login_success = true
is_login _ = false

abbrev is_second : AuditAction → Bool
is_second AuditAction.login_2fa_success = true
is_second _ = false

-- How often the audit trail says that a user gave the right password, and the right code.
abbrev pub passwords : ℕ → World → ℕ
passwords k w =
    count_if (λ (e : AuditLog). is_login e.action && option_eq e.user_id (some k)) w.audit_log

abbrev pub second_codes : ℕ → World → ℕ
second_codes k w =
    count_if (λ (e : AuditLog). is_second e.action && option_eq e.user_id (some k)) w.audit_log

pub found-HasFactor :
    (k : ℕ) (p : User → Bool) (us : List User) (s : User)
    → HasFactor k us
    → find p us ≡ some s
    → (not (s.id == k) || totp_enabled s) ≡ true
found-HasFactor k p [] s has h = absurd (ground arith)
found-HasFactor k p (u ∷ us) s has h = elim (Bool-cases (p u)) [
  | inl here ↦ ground (arith, h, here, has.0)
  | inr later ↦ found-HasFactor k p us s has.1 (ground (arith, h, later))
]

put_user-HasFactor :
    (k : ℕ) (t : User) (us : List User)
    → (not (t.id == k) || totp_enabled t) ≡ true
    → HasFactor k us
    → HasFactor k (map (λ u. if u.id == t.id then t else u) us)
put_user-HasFactor k t [] fine has = tt
put_user-HasFactor k t (u ∷ us) fine has = elim (Bool-cases (u.id == t.id)) [
  | inl same ↦ rw same (fine, put_user-HasFactor k t us fine has.1)
  | inr other ↦ rw other (has.0, put_user-HasFactor k t us fine has.1)
]

count-append :
    (p : AuditLog → Bool) (xs ys : List AuditLog)
    → count_if p (xs ++ ys) ≡ count_if p xs + count_if p ys
count-append p [] ys = omega arith
count-append p (x ∷ xs) ys = ground (arith, count-append p xs ys)

-- What holds after a call of `authenticate` for a user with a second factor.
abbrev pub Counted : ℕ → World → World → Type 0
Counted k w w' =
    HasFactor k w'.users × (passwords k w ≤ passwords k w') × (second_codes k w ≤ second_codes k w')

pub passwords-record_entry :
    (k i : ℕ) (env : Env) (entity : EntityType) (id : Option ℕ) (action : AuditAction) (d : Fields)
    (w : World)
    → passwords k (record_entry env entity id action d (some i) w)
      ≡ passwords k w + (if is_login action && (i == k) then 1 else 0)
unfolding record_entry
passwords-record_entry k i env entity id action d w = count-append _ w.audit_log _ ∙ refl

pub second_codes-record_entry :
    (k i : ℕ) (env : Env) (entity : EntityType) (id : Option ℕ) (action : AuditAction) (d : Fields)
    (w : World)
    → second_codes k (record_entry env entity id action d (some i) w)
      ≡ second_codes k w + (if is_second action && (i == k) then 1 else 0)
unfolding record_entry
second_codes-record_entry k i env entity id action d w = count-append _ w.audit_log _ ∙ refl

at_most_sum : (a b n : ℕ) → b ≡ a + n → a ≤ b
at_most_sum a b n h = omega arith

pub record_entry-Counted :
    (k : ℕ) (by : Option ℕ) (env : Env) (entity : EntityType) (id : Option ℕ) (action : AuditAction)
    (d : Fields) (w : World)
    → HasFactor k w.users
    → Counted k w (record_entry env entity id action d by w)
unfolding record_entry
record_entry-Counted k by env entity id action d w has = (
  has,
  at_most_sum _ _ _ (count-append _ w.audit_log _),
  at_most_sum _ _ _ (count-append _ w.audit_log _),
)

-- An entry after other steps.
pub then_recorded :
    (k i : ℕ) (env : Env) (entity : EntityType) (id : Option ℕ) (action : AuditAction) (d : Fields)
    (w w1 : World)
    → Counted k w w1
    → Counted k w (record_entry env entity id action d (some i) w1)
then_recorded k i env entity id action d w w1 (has, a, b) =
    let (still, c, e) = record_entry-Counted k (some i) env entity id action d w1 has in
    (still, omega arith, omega arith)

pub put_user-Counted :
    (k : ℕ) (t : User) (w : World)
    → (not (t.id == k) || totp_enabled t) ≡ true
    → HasFactor k w.users
    → Counted k w (put_user t w)
put_user-Counted k t w fine has =
    (put_user-HasFactor k t w.users fine has, omega arith, omega arith)

served-fine :
    (k : ℕ) (s : User)
    → (not (s.id == k) || totp_enabled s) ≡ true
    → (not ((served s).id == k) || totp_enabled (served s)) ≡ true
unfolding served
served-fine k s fine = elim (Option-cases s.locked_until) [
  | inl unset ↦ rw unset fine
  | inr (until, set) ↦ rw set fine
]

refuse-Counted :
    (k : ℕ) (env : Env) (s : User) (w : World)
    → (not (s.id == k) || totp_enabled s) ≡ true
    → HasFactor k w.users
    → Counted k w (refuse env (served s) w)
unfolding refuse
refuse-Counted k env s w fine has =
    let f = failed_once (served s) in
    let one = put_user-Counted k (locked_from env f) w (served-fine k s fine) has in
    elim (Bool-cases (leb env.config.lockout_threshold f.failed_attempts)) [
      | inl last ↦
          rw (last, refuse)
            (then_recorded k f.id env EntityType.user (some f.id) AuditAction.account_locked
              (field (codes "failed_attempts") (Json.num (pos f.failed_attempts)) end) w
              (put_user (locked_from env f) w) one)
      | inr more ↦ rw (more, refuse) (put_user-Counted k f w (served-fine k s fine) has)
    ]

admit-Counted :
    (k : ℕ) (env : Env) (s : User) (w : World)
    → (not (s.id == k) || totp_enabled s) ≡ true
    → HasFactor k w.users
    → Counted k w (admit env (served s) w)
unfolding admit
admit-Counted k env s w fine has =
    let u = signed_in env (served s) in
    let one = put_user-Counted k u w (served-fine k s fine) has in
    then_recorded k u.id env EntityType.user (some u.id) AuditAction.login_success end w
      (put_user u w) one

more_by_one :
    (a b : ℕ) (same : Bool) → same ≡ true → b ≡ a + (if true && same then 1 else 0) → a < b
more_by_one a b same h e = ground arith

admit-passwords :
    (env : Env) (s : User) (w : World)
    → passwords (served s).id w < passwords (served s).id (admit env (served s) w)
unfolding admit
admit-passwords env s w =
    let id = (served s).id in
    more_by_one _ _ (id == id) (==_refl id) (
      passwords-record_entry id id env EntityType.user (some id) AuditAction.login_success end
        (put_user (signed_in env (served s)) w))

-- What `authenticate` has done for a user with a second factor, whoever it was called for.
abbrev pub Authenticated : ℕ → World → Option User × World → Type 0
Authenticated k w (none, w') = Counted k w w'
Authenticated k w (some u, w') =
    Counted k w w'
    × (passwords u.id w < passwords u.id w')
    × ((not (u.id == k) || totp_enabled u) ≡ true)

try_password-Authenticated :
    (k : ℕ) (env : Env) (password : Text) (s : User) (w : World)
    → (not (s.id == k) || totp_enabled s) ≡ true
    → HasFactor k w.users
    → Authenticated k w (try_password env password (served s) w)
unfolding try_password
try_password-Authenticated k env password s w fine has =
    elim (Bool-cases (env.check_password password (served s).password_hash)) [
      | inl right ↦
          rw (right, try_password)
            (admit-Counted k env s w fine has, admit-passwords env s w, served-fine k s fine)
      | inr wrong ↦ rw (wrong, try_password) (refuse-Counted k env s w fine has)
    ]

pub authenticate-Authenticated :
    (k : ℕ) (env : Env) (email password : Text) (w : World)
    → HasFactor k w.users
    → Authenticated k w (authenticate env email password w)
unfolding authenticate try_user
authenticate-Authenticated k env email password w has =
    elim (Option-cases (find_user (login_name email) w)) [
      | inl unknown ↦ rw (unknown, authenticate) (has, omega arith, omega arith)
      | inr (s, found) ↦ elim (Bool-cases s.is_active_flag) [
        | inr gone ↦ rw (found, gone, authenticate) (has, omega arith, omega arith)
        | inl active ↦ elim (Bool-cases (is_locked (now env) s)) [
          | inl shut ↦ rw (found, active, shut, authenticate) (has, omega arith, omega arith)
          | inr free ↦ rw (authenticate-free env email password s w found active free) (
              try_password-Authenticated k env password s w
                (found-HasFactor k _ w.users s has found) has)
        ]
      ]
    ]
