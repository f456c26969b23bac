-- ===== src/Auth/Login.antt =====
-- app/blueprints/auth.py and the request gate of app/__init__.py: the views of sign-in, with the
-- session of the browser.
pub mod Kept
pub mod Stands
pub mod SecondFactor
mod Tests
use qms_bakery.Prelude.{
  ℕ, Bool, true, false, not, ◌&&◌, ◌||◌, Option, none, some, List, [], ◌∷◌, any, find, length, leb,
  ◌==◌, if◌then◌else◌, get_or,
}
use qms_bakery.Prelude.Text.{Text, codes, is_blank, starts_with, strip, text_eq}
use qms_bakery.Prelude.Url.{ParsedUrl, urlparse}
use qms_bakery.Json.{end}
use qms_bakery.Models.Auth.{User, totp_enabled}
use qms_bakery.Models.Audit.{AuditAction, EntityType}
use qms_bakery.World.{Env, World, now}
use qms_bakery.Audit.{record_entry}
use qms_bakery.Auth.{authenticate, put_user}
use qms_bakery.Auth.Totp.{
  Vault, verify_code, begin_enrollment, complete_enrollment, role_requires_totp,
}

-- The session cookie: the user that Flask-Login has signed in, and the login that waits for its code.
pub record Browser : Type 0 where
  pub user : Option ℕ
  pub pending_user_id : Option ℕ
  pub pending_next : Option Text

-- The vault of the secrets, the secret that pyotp would make, the URL of the dashboard, and Flask-Login's
-- `login_user`: who is signed in after a call, by who was before.
pub record Site : Type 0 where
  pub vault : Vault
  pub new_secret : Text
  pub dashboard : Text
  pub login_user : User → Option ℕ → Option ℕ

-- The answers: a redirect, to a view of this file or to a URL, a page with its error or without, or 500.
pub data Page : Type 0 where
  to_login to_login_2fa to_totp_enroll server_error : Page
  to_url : Text → Page
  shown : Bool → Page

abbrev is_local : Text → ParsedUrl → Bool
is_local candidate parsed =
    is_blank parsed.scheme
    && is_blank parsed.netloc
    && starts_with candidate (codes "/")
    && not (starts_with candidate (codes "//"))

-- `_safe_next_url`; none where `urlparse` raises.
unfoldable pub safe_next_url : Text → Option Text → Option Text
safe_next_url fallback none = some fallback
safe_next_url fallback (some candidate) =
    if is_blank candidate then some fallback else elim (urlparse candidate) [
      | none ↦ none
      | some parsed ↦ some (if is_local candidate parsed then candidate else fallback)
    ]

abbrev redirect_to : Option Text → Page
redirect_to none = server_error
redirect_to (some url) = to_url url

-- `DataRequired`
abbrev has_data : Text → Bool
has_data s = not (is_blank (strip s))

-- `LoginForm` and `TOTPForm`
abbrev pub login_fits : Text → Text → Bool
login_fits email password = has_data email && leb (length email) 255 && has_data password

abbrev pub code_fits : Text → Bool
code_fits code = has_data code && leb 6 (length code) && leb (length code) 10

-- `pending_next` is written where `urlparse` does not raise.
abbrev pub pended : Option Text → Browser → Page × Browser
pended none b = (server_error, b)
pended (some url) b = (to_login_2fa, record b { pending_next = some url })

-- The wait is over where `urlparse` does not raise.
abbrev pub landed : Option Text → Browser → Page × Browser
landed none b = (server_error, b)
landed (some url) b = (to_url url, record b { pending_user_id = none })

module _ (site : Site) (env : Env) where
  -- The second factor is asked for.
  abbrev pub pend : Option Text → User → Browser → Page × Browser
  pend next u b =
      pended (safe_next_url site.dashboard next) (record b { pending_user_id = some u.id })

  abbrev enter : Option Text → User → Browser → Page × Browser
  enter next u b = (
    redirect_to (safe_next_url site.dashboard next),
    record b { user = site.login_user u b.user },
  )

  unfoldable pub after_password : Option Text → Browser → Option User → Page × Browser
  after_password next b none = (shown true, b)
  after_password next b (some u) = if totp_enabled u then pend next u b else enter next u b

  -- `login`. The form is that of a POST with a valid CSRF token.
  unfoldable pub login :
      Option (Text × Text) → Option Text → Browser → World → Page × Browser × World
  login none next b w = (shown false, b, w)
  login (some (email, password)) next b w =
      let (who, w') = authenticate env email password w in
      let (page, b') = after_password next b who in
      if login_fits email password then (page, b', w') else (shown false, b, w)

  abbrev pub audit_login : AuditAction → User → World → World
  audit_login action u w = record_entry env EntityType.user (some u.id) action end (some u.id) w

  -- The code was right.
  unfoldable pub let_in : User → Browser → World → Page × Browser × World
  let_in u b w =
      let (page, b') =
        landed (safe_next_url site.dashboard b.pending_next)
          (record b { user = site.login_user u b.user; pending_next = none }) in
      (page, b', audit_login AuditAction.login_2fa_success u w)

  abbrev pub ask_code : Option Text → User → Browser → World → Page × Browser × World
  ask_code none u b w = (shown false, b, w)
  ask_code (some code) u b w =
      if not (code_fits code)
      then (shown false, b, w)
      else if verify_code site.vault (now env) u code
      then let_in u b w
      else (shown true, b, audit_login AuditAction.login_2fa_failure u w)

  abbrev pub user_with : ℕ → World → Option User
  user_with id w = find (λ (u : User). u.id == id) w.users

  abbrev pub pending_row : Option Text → Option User → Browser → World → Page × Browser × World
  pending_row form none b w = (to_login, record b { pending_user_id = none }, w)
  pending_row form (some u) b w = ask_code form u b w

  abbrev pub with_pending : Option Text → Option ℕ → Browser → World → Page × Browser × World
  with_pending form none b w = (to_login, b, w)
  with_pending form (some id) b w = pending_row form (user_with id w) b w

  -- `login_2fa`
  unfoldable pub login_2fa : Option Text → Browser → World → Page × Browser × World
  login_2fa form b w = with_pending form b.pending_user_id b w

  -- `current_user`, by `load_user`.
  abbrev signed_user : Option ℕ → World → Option User
  signed_user none w = none
  signed_user (some id) w = user_with id w

  abbrev pub current_user : Browser → World → Option User
  current_user b w = signed_user b.user w

  abbrev enrolled : Bool × User → Browser → World → Page × Browser × World
  enrolled (true, u) b w =
      (to_url site.dashboard, b, audit_login AuditAction.totp_enrolled u (put_user u w))
  enrolled (false, u) b w = (to_totp_enroll, b, w)

  abbrev reissued : Option User → Browser → World → Page × Browser × World
  reissued none b w = (server_error, b, w)
  reissued (some u) b w = (shown false, b, put_user u w)

  abbrev enroll_form : Option Text → User → Browser → World → Page × Browser × World
  enroll_form none u b w = reissued (begin_enrollment site.vault site.new_secret u) b w
  enroll_form (some code) u b w =
      enrolled (complete_enrollment site.vault (now env) (strip code) u) b w

  abbrev enroll_for : Option Text → Option User → Browser → World → Page × Browser × World
  enroll_for form none b w = (to_login, b, w)
  enroll_for form (some u) b w = enroll_form form u b w

  -- `totp_enroll`: the code of a POST, or a GET.
  unfoldable pub totp_enroll : Option Text → Browser → World → Page × Browser × World
  totp_enroll form b w = enroll_for form (current_user b w) b w

  abbrev pub logout_for : Option User → Browser → World → Page × Browser × World
  logout_for none b w = (to_login, b, w)
  logout_for (some u) b w = (
    to_login,
    record b { user = none },
    record_entry env EntityType.user (some u.id) AuditAction.logout end none w,
  )

  -- `logout`, by POST.
  unfoldable pub logout : Browser → World → Page × Browser × World
  logout b w = logout_for (current_user b w) b w

-- `_TOTP_GATE_ALLOWLIST`
abbrev pub totp_gate_allowlist : List Text
totp_gate_allowlist =
    codes "auth.totp_enroll"
    ∷ codes "auth.logout"
    ∷ codes "auth.set_language"
    ∷ codes "legal.privacy"
    ∷ codes "pwa.service_worker"
    ∷ codes "pwa.manifest"
    ∷ codes "health.healthz"
    ∷ codes "health.readyz"
    ∷ codes "help.index"
    ∷ codes "help.training"
    ∷ codes "help.admin"
    ∷ codes "help.auditor"
    ∷ codes "help.ops"
    ∷ codes "help.trainee_card_pdf"
    ∷ codes "static"
    ∷ []

-- `_enforce_totp_for_compliance_roles`: whether a request of a user is sent to the enrolment page.
unfoldable pub is_sent_to_enroll : Bool → Text → Option User → Bool
is_sent_to_enroll enforced endpoint none = false
is_sent_to_enroll enforced endpoint (some u) =
    enforced
    && not (any (λ e. text_eq e endpoint) totp_gate_allowlist)
    && not (starts_with endpoint (codes "static"))
    && role_requires_totp u.role
    && not (totp_enabled u)
