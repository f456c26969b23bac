-- ===== src/Auth/Totp/Enrolled.antt =====
-- From the enrolment page to the second factor.
use qms_bakery.Prelude.{
  ℕ, ◌≡◌, refl, ap, subst, inl, inr, false, ◌&&◌, none, some, ◌++◌, arith, Bool-cases, Option-cases,
}
use qms_bakery.Prelude.Text.{Text, is_blank}
use qms_bakery.Models.Auth.{User, totp_enabled}
use qms_bakery.Auth.Totp.{
  Vault, enc_prefix, encrypt, decrypt, verify, verify_with, verify_code, begin_enrollment,
  complete_enrollment,
}
use qms_bakery.Auth.Totp.Rotated.{IsFernet, decrypt-known}

decrypt-seal :
    (v : Vault) (plaintext : Text)
    → IsFernet v
    → is_blank v.enc_key ≡ false
    → decrypt v (enc_prefix ++ v.seal v.enc_key plaintext) ≡ some plaintext
decrypt-seal v plaintext fernet set = ground (
  arith,
  set,
  decrypt-known v fernet (enc_prefix ++ v.seal v.enc_key plaintext) refl set,
  fernet.opens v.enc_key plaintext,
)

pub decrypt-encrypt :
    (v : Vault) (plaintext stored : Text)
    → IsFernet v
    → encrypt v plaintext ≡ some stored
    → (decrypt v stored ≡ some plaintext) × (is_blank stored ≡ false)
unfolding encrypt
decrypt-encrypt v plaintext stored fernet h = elim (Bool-cases (is_blank v.enc_key)) [
  | inl unset ↦ absurd (ground (arith, h, unset))
  | inr set ↦ (ground (arith, h, set, decrypt-seal v plaintext fernet set), ground (arith, h, set))
]

-- What an enrolment that began with a secret comes to.
abbrev pub Completes : Vault → Text → ℕ → ℕ → Text → Text → User → Type 0
Completes v secret now later code next_code begun =
    let (right, row) = complete_enrollment v now code begun in
    (right ≡ verify v now secret code)
    × (totp_enabled begun ≡ false)
    × (totp_enabled row ≡ right)
    × (verify_code v later row next_code ≡ (right && verify v later secret next_code))
    × (record row { totp_enrolled_at = none } ≡ begun)

sealed-Completes :
    (v : Vault) (secret stored : Text) (u : User) (now later : ℕ) (code next_code : Text)
    → decrypt v stored ≡ some secret
    → is_blank stored ≡ false
    → Completes v secret now later code next_code
        (record u { totp_secret = some stored; totp_enrolled_at = none })
unfolding complete_enrollment verify_code
sealed-Completes v secret stored u now later code next_code plain full =
    elim (Bool-cases (verify v now secret code)) [
      | inl right ↦
          rw (plain, right, full, complete_enrollment, verify_code)
            (refl, refl, refl, ap (verify_with v later next_code) plain, refl)
      | inr wrong ↦
          rw (plain, wrong, full, complete_enrollment, verify_code) (refl, refl, refl, refl, refl)
    ]

-- An enrolment that began with a secret is complete with a right code for it, and only with one: until
-- then the user has no second factor. From then on a code is right for the user just when it is right
-- for that secret. A code that is not right leaves the row as it is.
pub complete_enrollment-begin_enrollment :
    (v : Vault) (secret : Text) (u begun : User) (now later : ℕ) (code next_code : Text)
    → IsFernet v
    → begin_enrollment v secret u ≡ some begun
    → Completes v secret now later code next_code begun
unfolding begin_enrollment
complete_enrollment-begin_enrollment v secret u begun now later code next_code fernet h =
    elim (Option-cases (encrypt v secret)) [
      | inl raised ↦ absurd (ground (arith, h, raised))
      | inr (stored, sealed) ↦
          let (plain, full) = decrypt-encrypt v secret stored fernet sealed in
          subst (Completes v secret now later code next_code)
            {x = record u { totp_secret = some stored; totp_enrolled_at = none }}
            (ground (arith, h, sealed))
            (sealed-Completes v secret stored u now later code next_code plain full)
    ]
