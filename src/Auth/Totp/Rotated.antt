-- ===== src/Auth/Totp/Rotated.antt =====
-- What the rotation of the key leaves of the second factors.
use qms_bakery.Prelude.{
  ℕ, ◌≡◌, refl, subst, inl, inr, Bool, true, false, not, ◌||◌, Option, none, some, List, [], ◌∷◌,
  ◌++◌, map, arith, Bool-cases, Option-cases,
}
use qms_bakery.Prelude.Text.{Text, is_blank, starts_with, strip, lstrip}
use qms_bakery.Prelude.Decimal.{split_on}
use qms_bakery.Models.Auth.{User, totp_enabled}
use qms_bakery.World.{World}
use qms_bakery.Auth.Totp.{
  Vault, enc_prefix, after_prefix, old_keys, encrypt, decrypt, is_on_primary_key, verify,
  verify_code, secret_of, resealed, rotate_row, rotate_rows, rotate_keys,
}

-- The plaintext under the first key that fits.
abbrev pub first_fit : Vault → List Text → Text → Option Text
first_fit v [] token = none
first_fit v (k ∷ ks) token = elim (v.unseal k token) [
  | none ↦ first_fit v ks token
  | some plaintext ↦ some plaintext
]

-- A row without its secret.
abbrev pub bare : User → User
bare u = record u { totp_secret = none }

-- What Fernet documents: a token opens under its key, and MultiFernet tries its keys in order.
pub record IsFernet (v : Vault) : Type 0 where
  pub opens : (key plaintext : Text) → v.unseal key (v.seal key plaintext) ≡ some plaintext
  pub tries_in_order :
      (keys : List Text) (token : Text) → v.unseal_any keys token ≡ first_fit v keys token

-- The configuration once the old keys are dropped.
abbrev pub primary_only : Vault → Vault
primary_only v = record v { enc_keys_old = [] }

no_old_keys : (v : Vault) → old_keys (primary_only v) ≡ []
unfolding old_keys split_on strip lstrip
no_old_keys v = refl

first_fit-one : (v : Vault) (key token : Text) → first_fit v (key ∷ []) token ≡ v.unseal key token
first_fit-one v key token = elim (Option-cases (v.unseal key token)) [
  | inl unfit ↦ cc
  | inr (p, fit) ↦ cc
]

head_and_tail : {A : Type 0} {b c : A} {bs cs : List A} → b ≡ c → bs ≡ cs → b ∷ bs ≡ c ∷ cs
head_and_tail h t = cc

-- A stored value that `decrypt` refuses without a look at the keys.
abbrev is_foreign : Text → Bool
is_foreign stored = is_blank stored || not (starts_with stored enc_prefix)

pub decrypt-foreign :
    (v : Vault) (stored : Text) → is_foreign stored ≡ true → decrypt v stored ≡ none
unfolding decrypt
decrypt-foreign v stored h = ground (arith, h)

module _ (v : Vault) (fernet : IsFernet v) where
  pub decrypt-known :
      (stored : Text)
      → is_foreign stored ≡ false
      → is_blank v.enc_key ≡ false
      → decrypt v stored ≡ first_fit v (v.enc_key ∷ old_keys v) (after_prefix stored)
  unfolding decrypt
  decrypt-known stored known set =
      ground
        (arith, known, set, fernet.tries_in_order (v.enc_key ∷ old_keys v) (after_prefix stored))

  decrypt-alone :
      (stored : Text)
      → is_foreign stored ≡ false
      → is_blank v.enc_key ≡ false
      → decrypt (primary_only v) stored ≡ v.unseal v.enc_key (after_prefix stored)
  unfolding decrypt
  decrypt-alone stored known set = ground (
    arith,
    known,
    set,
    no_old_keys v,
    fernet.tries_in_order (v.enc_key ∷ []) (after_prefix stored),
    first_fit-one v v.enc_key (after_prefix stored),
  )

  -- What a rotation leaves as it was of a row.
  abbrev Same : User → User → Type 0
  Same u u' =
      (secret_of (primary_only v) u'.totp_secret ≡ secret_of v u.totp_secret)
      × (totp_enabled u' ≡ totp_enabled u)
      × (bare u' ≡ bare u)

  resealed-Same :
      (u u' : User) (stored : Text)
      → u.totp_secret ≡ some stored
      → is_foreign stored ≡ false
      → is_blank v.enc_key ≡ false
      → v.unseal v.enc_key (after_prefix stored) ≡ none
      → resealed v u (decrypt v stored) ≡ some u'
      → Same u u'
  unfolding encrypt
  resealed-Same u u' stored has known set stale h = elim (Option-cases (decrypt v stored)) [
    | inl shut ↦ ground (arith, h, shut, has, decrypt-alone stored known set, stale)
    | inr (p, plain) ↦ elim (Bool-cases (is_blank p)) [
      | inl empty ↦ absurd (ground (arith, h, plain, empty))
      | inr full ↦ ground (
        arith,
        h,
        plain,
        full,
        set,
        has,
        decrypt-alone (enc_prefix ++ v.seal v.enc_key p) refl set,
        fernet.opens v.enc_key p,
      )
    ]
  ]

  rotate_row-Same : (u u' : User) → rotate_row v u ≡ some u' → Same u u'
  unfolding rotate_row is_on_primary_key
  rotate_row-Same u u' h = elim (Option-cases u.totp_secret) [
    | inl bare ↦ ground (arith, h, bare)
    | inr (stored, has) ↦ elim (Bool-cases (is_foreign stored)) [
      | inl foreign ↦ ground (
        arith,
        h,
        has,
        foreign,
        decrypt-foreign v stored foreign,
        decrypt-foreign (primary_only v) stored foreign,
      )
      | inr known ↦ elim (Bool-cases (is_blank v.enc_key)) [
        | inl unset ↦ absurd (ground (arith, h, has, known, unset))
        | inr set ↦ elim (Option-cases (v.unseal v.enc_key (after_prefix stored))) [
          | inl stale ↦
              resealed-Same u u' stored has known set stale
                (ground (arith, h, has, known, set, stale))
          | inr (p, fit) ↦ ground (
            arith,
            h,
            has,
            known,
            set,
            fit,
            decrypt-known stored known set,
            decrypt-alone stored known set,
          )
        ]
      ]
    ]
  ]

  verify_code-Same :
      (now : ℕ) (code : Text) (u u' : User)
      → Same u u'
      → verify_code (primary_only v) now u' code ≡ verify_code v now u code
  unfolding verify_code verify
  verify_code-Same now code u u' (secret, enabled, rest) =
      elim (Option-cases (secret_of v u.totp_secret)) [
        | inl shut ↦ rw (enabled, secret, shut) refl
        | inr (p, plain) ↦ rw (enabled, secret, plain) refl
      ]

  -- What a rotation leaves as it was of the rows.
  abbrev AllSame : ℕ → Text → List User → List User → Type 0
  AllSame now code us us' =
      (map (λ u. verify_code (primary_only v) now u code) us'
        ≡ map (λ u. verify_code v now u code) us)
      × (map bare us' ≡ map bare us)

  rotate_rows-AllSame :
      (now : ℕ) (code : Text) (us us' : List User)
      → rotate_rows v us ≡ some us'
      → AllSame now code us us'
  unfolding rotate_rows
  rotate_rows-AllSame now code [] us' h = (ground (arith, h), ground (arith, h))
  rotate_rows-AllSame now code (u ∷ us) us' h = elim (Option-cases (rotate_row v u)) [
    | inl raised ↦ absurd (ground (arith, h, raised))
    | inr (u', fine) ↦ elim (Option-cases (rotate_rows v us)) [
      | inl raised ↦ absurd (ground (arith, h, fine, raised))
      | inr (vs, rest) ↦
          let same = rotate_row-Same u u' fine in
          let ih = rotate_rows-AllSame now code us vs rest in
          subst (λ l. AllSame now code (u ∷ us) l) {x = u' ∷ vs} (ground (arith, h, fine, rest))
            (head_and_tail (verify_code-Same now code u u' same) ih.0, head_and_tail same.2 ih.1)
    ]
  ]

-- A rotation that comes to its end leaves every second factor as it was: whatever code a user gives, at
-- any moment, with the primary key alone the new rows answer as the old rows did with all the keys, so
-- the old keys can be dropped. Users, their order and all columns but the secret are not touched.
pub rotate_keys_lem :
    (v : Vault) (now : ℕ) (code : Text) (w w' : World)
    → IsFernet v
    → rotate_keys v w ≡ some w'
    → (map (λ u. verify_code (primary_only v) now u code) w'.users
        ≡ map (λ u. verify_code v now u code) w.users)
      × (map bare w'.users ≡ map bare w.users)
      × (w' ≡ record w { users = w'.users })
unfolding rotate_keys
rotate_keys_lem v now code w w' fernet h = elim (Option-cases (rotate_rows v w.users)) [
  | inl raised ↦ absurd (ground (arith, h, raised))
  | inr (us, done) ↦
      let same = rotate_rows-AllSame v fernet now code w.users us done in
      subst
        (λ (x : World).
          (map (λ u. verify_code (primary_only v) now u code) x.users
            ≡ map (λ u. verify_code v now u code) w.users)
          × (map bare x.users ≡ map bare w.users)
          × (x ≡ record w { users = x.users }))
        {x = record w { users = us }} (ground (arith, h, done)) (same.0, same.1, refl)
]
