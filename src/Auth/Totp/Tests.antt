-- ===== src/Auth/Totp/Tests.antt =====
-- A vault whose tokens are the key and the plaintext, one after the other, and a member of the
-- compliance team whose secret is under the old key.
use qms_bakery.Prelude.{
  ◌==◌, ◌≡◌, refl, true, Option, none, some, List, [], ◌∷◌, ◌++◌, map, if◌then◌else◌, inl, inr,
  arith, Option-cases,
}
use qms_bakery.Prelude.Text.{Text, codes, text_eq, strip, lstrip, is_space}
use qms_bakery.Prelude.Decimal.{split_on}
use qms_bakery.Models.Auth.{User, UserRole}
use qms_bakery.World.{World}
use qms_bakery.Auth.Totp.{
  Vault, encrypt, decrypt, is_on_primary_key, begin_enrollment, verify_code, rotate_keys,
  rotate_rows, rotate_row, old_keys,
}
use qms_bakery.Auth.Totp.Rotated.{IsFernet, first_fit, primary_only, bare, rotate_keys_lem}
use qms_bakery.Auth.Totp.Enrolled.{Completes, complete_enrollment-begin_enrollment}
use qms_bakery.Samples.{plant}

-- The plaintext after a key.
abbrev after_key : Text → Text → Option Text
after_key [] token = some token
after_key (c ∷ key) [] = none
after_key (c ∷ key) (d ∷ token) = let rest = after_key key token in if c == d then rest else none

abbrev open_any : List Text → Text → Option Text
open_any [] token = none
open_any (k ∷ ks) token = elim (after_key k token) [ none ↦ open_any ks token | some p ↦ some p ]

abbrev vault : Vault
vault = record {
  enc_key = codes "new";
  enc_keys_old = codes "old";
  seal = λ key plaintext. key ++ plaintext;
  unseal = after_key;
  unseal_any = open_any;
  check_code = λ secret code now. text_eq code (codes "123456");
}

after_key-append : (key p : Text) → after_key key (key ++ p) ≡ some p
after_key-append [] p = refl
after_key-append (c ∷ key) p = ground (arith, after_key-append key p)

open_any-first_fit : (ks : List Text) (token : Text) → open_any ks token ≡ first_fit vault ks token
open_any-first_fit [] token = refl
open_any-first_fit (k ∷ ks) token =
    let ih = open_any-first_fit ks token in
    elim (Option-cases (after_key k token)) [ inl unfit ↦ cc | inr (p, fit) ↦ cc ]

vault-IsFernet : IsFernet vault
vault-IsFernet = record { opens = after_key-append; tries_in_order = open_any-first_fit }

abbrev marta : User
marta = record {
  id = 4;
  email = codes "marta@bakery.pl";
  password_hash = codes "secret";
  is_active_flag = true;
  failed_attempts = 0;
  locked_until = none;
  last_login_at = none;
  role = some (record { code = UserRole.compliance; permissions = [] });
  totp_secret = some (codes "v1:oldSEED");
  totp_enrolled_at = some 7;
}

abbrev office : World
office = record plant { users = marta ∷ [] }

abbrev rotated : World
rotated = record plant { users = record marta { totp_secret = some (codes "v1:newSEED") } ∷ [] }

rotate_keys_lem_example :
    (map (λ u. verify_code (primary_only vault) 9 u (codes "123 456")) rotated.users
      ≡ map (λ u. verify_code vault 9 u (codes "123 456")) office.users)
    × (map bare rotated.users ≡ map bare office.users)
    × (rotated ≡ record office { users = rotated.users })
unfolding rotate_keys rotate_rows rotate_row is_on_primary_key decrypt encrypt old_keys split_on
    strip lstrip is_space
rotate_keys_lem_example =
    rotate_keys_lem vault 9 (codes "123 456") office rotated vault-IsFernet refl

complete_enrollment-begin_enrollment_example :
    Completes vault
      (codes "SEED")
      9
      39
      (codes "123456")
      (codes "654321")
      (record marta { totp_secret = some (codes "v1:newSEED"); totp_enrolled_at = none })
unfolding begin_enrollment encrypt
complete_enrollment-begin_enrollment_example =
    complete_enrollment-begin_enrollment vault (codes "SEED") marta
      (record marta { totp_secret = some (codes "v1:newSEED"); totp_enrolled_at = none }) 9 39
      (codes "123456") (codes "654321") vault-IsFernet refl
