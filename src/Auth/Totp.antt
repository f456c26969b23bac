-- ===== src/Auth/Totp.antt =====
-- app/services/totp.py, app/services/totp_crypto.py and the command `totp-rotate-keys` of
-- app/__init__.py: the second factor, its secrets at rest, and the rotation of their key.
pub mod Rotated
pub mod Enrolled
mod Tests
use qms_bakery.Prelude.{
  ℕ, Bool, true, false, not, ◌&&◌, ◌||◌, Option, none, some, List, [], ◌∷◌, ◌++◌, map, keep, all,
  length, ◌==◌, if◌then◌else◌, is_some,
}
use qms_bakery.Prelude.Text.{Text, codes, is_blank, starts_with, strip}
use qms_bakery.Prelude.Decimal.{is_digit, split_on}
use qms_bakery.Models.Auth.{User, UserRole, Role, totp_enabled}
use qms_bakery.World.{World}

-- The keys that are configured, Fernet and MultiFernet (none for InvalidToken), and
-- `pyotp.TOTP(secret).verify(code, valid_window=1)` at a moment. `seal` and `unseal` take the key.
pub record Vault : Type 0 where
  pub enc_key : Text
  pub enc_keys_old : Text
  pub seal : Text → Text → Text
  pub unseal : Text → Text → Option Text
  pub unseal_any : List Text → Text → Option Text
  pub check_code : Text → Text → ℕ → Bool

abbrev pub enc_prefix : Text
enc_prefix = codes "v1:"

-- `stored[len(_ENC_PREFIX):]`
abbrev pub after_prefix : Text → Text
after_prefix (_ ∷ _ ∷ _ ∷ s) = s
after_prefix _ = []

-- The historical keys: `[k.strip() for k in raw.split(",") if k.strip()]`
unfoldable pub old_keys : Vault → List Text
old_keys v = keep (λ k. not (is_blank k)) (map strip (split_on b',' v.enc_keys_old))

-- `encrypt`; none where it raises TOTPCryptoError.
unfoldable pub encrypt : Vault → Text → Option Text
encrypt v plaintext =
    if is_blank plaintext || is_blank v.enc_key
    then none
    else some (enc_prefix ++ v.seal v.enc_key plaintext)

-- `decrypt`; none where it raises TOTPCryptoError.
unfoldable pub decrypt : Vault → Text → Option Text
decrypt v stored =
    if is_blank stored || not (starts_with stored enc_prefix) || is_blank v.enc_key
    then none
    else v.unseal_any (v.enc_key ∷ old_keys v) (after_prefix stored)

-- `is_on_primary_key`; none where it raises TOTPCryptoError.
unfoldable pub is_on_primary_key : Vault → Text → Option Bool
is_on_primary_key v stored =
    if is_blank stored || not (starts_with stored enc_prefix)
    then some false
    else if is_blank v.enc_key
    then none
    else some (is_some (v.unseal v.enc_key (after_prefix stored)))

-- `_verify`, with `isdigit` of ASCII digits.
abbrev pub spaceless : Text → Text
spaceless code = keep (λ c. not (c == 32)) (strip code)

unfoldable pub verify : Vault → ℕ → Text → Text → Bool
verify v now secret code =
    let digits = spaceless code in
    (length digits == 6) && all is_digit digits && v.check_code secret digits now

abbrev pub verify_with : Vault → ℕ → Text → Option Text → Bool
verify_with v now code none = false
verify_with v now code (some plaintext) = verify v now plaintext code

-- The plaintext of a user's secret, where there is one.
abbrev pub secret_of : Vault → Option Text → Option Text
secret_of v none = none
secret_of v (some stored) = decrypt v stored

-- `verify_code`
unfoldable pub verify_code : Vault → ℕ → User → Text → Bool
verify_code v now u code = totp_enabled u && verify_with v now code (secret_of v u.totp_secret)

-- `begin_enrollment`, with the secret that pyotp makes: the user's row; none where it raises.
unfoldable pub begin_enrollment : Vault → Text → User → Option User
begin_enrollment v secret u = elim (encrypt v secret) [
  | none ↦ none
  | some stored ↦ some (record u { totp_secret = some stored; totp_enrolled_at = none })
]

-- `complete_enrollment`: whether the code was right, and the user's row.
unfoldable pub complete_enrollment : Vault → ℕ → Text → User → Bool × User
complete_enrollment v now code u =
    if verify_with v now code (secret_of v u.totp_secret)
    then (true, record u { totp_enrolled_at = some now })
    else (false, u)

-- `role_requires_totp`, of the role of a user.
abbrev pub requires_totp : UserRole → Bool
requires_totp UserRole.compliance = true
requires_totp UserRole.admin = true
requires_totp _ = false

unfoldable pub role_requires_totp : Option Role → Bool
role_requires_totp none = false
role_requires_totp (some r) = requires_totp r.code

-- A row of the command: unchanged where it is on the primary key or under no key.
abbrev pub resealed : Vault → User → Option Text → Option User
resealed v u none = some u
resealed v u (some plaintext) = elim (encrypt v plaintext) [
  | none ↦ none
  | some stored ↦ some (record u { totp_secret = some stored })
]

abbrev rotate_stale : Vault → User → Text → Option Bool → Option User
rotate_stale v u stored none = none
rotate_stale v u stored (some true) = some u
rotate_stale v u stored (some false) = resealed v u (decrypt v stored)

abbrev rotate_secret : Vault → User → Option Text → Option User
rotate_secret v u none = some u
rotate_secret v u (some stored) = rotate_stale v u stored (is_on_primary_key v stored)

unfoldable pub rotate_row : Vault → User → Option User
rotate_row v u = rotate_secret v u u.totp_secret

abbrev pub onto_rows : Option User → Option (List User) → Option (List User)
onto_rows (some u) (some us) = some (u ∷ us)
onto_rows _ _ = none

unfoldable pub rotate_rows : Vault → List User → Option (List User)
rotate_rows v [] = some []
rotate_rows v (u ∷ us) = onto_rows (rotate_row v u) (rotate_rows v us)

-- `totp-rotate-keys --apply`; none where it raises, and nothing is committed.
unfoldable pub rotate_keys : Vault → World → Option World
rotate_keys v w = elim (rotate_rows v w.users) [
  | none ↦ none
  | some us ↦ some (record w { users = us })
]
