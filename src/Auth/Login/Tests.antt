-- ===== src/Auth/Login/Tests.antt =====
-- Marta of the compliance team signs in with her password and her code.
use qms_bakery.Prelude.{
  ◌<◌, ◌≡◌, ◌⊎◌, refl, inl, inr, Bool, true, false, none, some, List, [], ◌∷◌, if◌then◌else◌,
}
use qms_bakery.Prelude.Text.{codes, text_eq, strip, lstrip, is_space}
use qms_bakery.Prelude.Url.{urlparse, split_scheme, url_text}
use qms_bakery.Models.Auth.{User, UserRole}
use qms_bakery.World.{World, now}
use qms_bakery.Samples.{env, plant}
use qms_bakery.Audit.{record_entry}
use qms_bakery.Auth.{authenticate, try_user, try_password, served, admit}
use qms_bakery.Auth.Totp.{Vault, decrypt, verify, verify_code, old_keys}
use qms_bakery.Auth.Login.{
  Browser, Site, safe_next_url, login, login_2fa, logout, after_password, let_in,
}
use qms_bakery.Auth.Login.Kept.{passwords, second_codes}
use qms_bakery.Auth.Login.Stands.{Enters}
use qms_bakery.Auth.Login.SecondFactor.{Request, serve, serve_all, serve_all-second_factor}

abbrev marta : User
marta = record {
  id = 4;
  email = codes "marta@bakery.pl";
  password_hash = codes "secret";
  is_active_flag = true;
  failed_attempts = 0;
  locked_until = none;
  last_login_at = none;
  role = some (record { code = UserRole.compliance; permissions = [] });
  totp_secret = some (codes "v1:SEED");
  totp_enrolled_at = some 7;
}

abbrev office : World
office = record plant { users = marta ∷ [] }

-- A vault that keeps its secrets in the open.
abbrev vault : Vault
vault = record {
  enc_key = codes "new";
  enc_keys_old = [];
  seal = λ key plaintext. plaintext;
  unseal = λ key token. some token;
  unseal_any = λ keys token. some token;
  check_code = λ secret code now. text_eq code (codes "123456");
}

abbrev site : Site
site = record {
  vault = vault;
  new_secret = codes "SEED";
  dashboard = codes "/";
  login_user = λ u before. if u.is_active_flag then some u.id else before;
}

site-Enters : Enters site
site-Enters u before =
    elim u.is_active_flag
      as (λ (a : Bool).
        ((if a then some u.id else before) ≡ some u.id)
        ⊎ ((if a then some u.id else before) ≡ before)) [ true ↦ inl refl | false ↦ inr refl ]

abbrev outside : Browser
outside = record { user = none; pending_user_id = none; pending_next = none }

abbrev visit : List Request
visit =
    Request.login_request env (some (codes "marta@bakery.pl", codes "secret")) none
    ∷ Request.code_request env (some (codes "000000"))
    ∷ Request.code_request env (some (codes "123456"))
    ∷ []

serve_all-second_factor_example :
    let w' = (serve_all site visit (outside, office)).1 in
    (passwords 4 office < passwords 4 w') × (second_codes 4 office < second_codes 4 w')
unfolding serve_all serve login login_2fa logout after_password let_in safe_next_url authenticate
    try_user try_password served admit verify_code verify decrypt old_keys strip lstrip is_space now
    record_entry urlparse split_scheme url_text
serve_all-second_factor_example =
    serve_all-second_factor site visit 4 outside office site-Enters (refl, tt) refl refl refl
