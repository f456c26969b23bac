-- ===== src/Auth/Login/Stands.antt =====
-- Where a user with a second factor stands in the views of sign-in.
use qms_bakery.Prelude.{
  ℕ, ◌+◌, ◌≤◌, ◌<◌, ◌≡◌, ◌⊎◌, refl, sym, subst, inl, inr, Bool, true, false, not, ◌&&◌, ◌||◌,
  Option, none, some, List, [], ◌∷◌, find, option_eq, ◌==◌, ==_iff, if◌then◌else◌, arith,
  Bool-cases, Option-cases,
}
use qms_bakery.Prelude.Text.{Text}
use qms_bakery.Json.{end}
use qms_bakery.Models.Auth.{User, totp_enabled}
use qms_bakery.Models.Audit.{AuditAction, EntityType}
use qms_bakery.World.{Env, World, now}
use qms_bakery.Audit.{record_entry}
use qms_bakery.Auth.{authenticate}
use qms_bakery.Auth.Totp.{verify_code}
use qms_bakery.Auth.Login.{
  Browser, Site, after_password, login, let_in, audit_login, pended, landed, ask_code, with_pending,
  logout_for, safe_next_url, user_with, pend, login_fits, code_fits,
}
use qms_bakery.Auth.Login.Kept.{
  HasFactor, passwords, second_codes, Counted, Authenticated, authenticate-Authenticated,
  record_entry-Counted, second_codes-record_entry,
}

-- What Flask-Login documents of `login_user`: the user is signed in, or, where not active, nothing changes.
abbrev pub Enters : Site → Type 0
Enters site =
    (u : User) (before : Option ℕ)
    → (site.login_user u before ≡ some u.id) ⊎ (site.login_user u before ≡ before)

-- A user with a second factor stands where the audit trail says, which had `p` passwords and `c` codes.
abbrev pub Stands : ℕ → ℕ → ℕ → Browser → World → Type 0
Stands k p c b w =
    HasFactor k w.users
    × (p ≤ passwords k w)
    × (c ≤ second_codes k w)
    × ((option_eq b.pending_user_id (some k) ≡ false) ⊎ (p < passwords k w))
    × ((option_eq b.user (some k) ≡ false) ⊎ ((p < passwords k w) × (c < second_codes k w)))

abbrev pub IsOther : ℕ → Option ℕ → Type 0
IsOther k o = option_eq o (some k) ≡ false

more_passwords :
    (k p c : ℕ) (o : Option ℕ) (w w' : World)
    → Counted k w w'
    → IsOther k o ⊎ (p < passwords k w)
    → IsOther k o ⊎ (p < passwords k w')
more_passwords k p c o w w' more (inl other) = inl other
more_passwords k p c o w w' (_, a, b) (inr gave) = inr (omega arith)

more_both :
    (k p c : ℕ) (o : Option ℕ) (w w' : World)
    → Counted k w w'
    → IsOther k o ⊎ ((p < passwords k w) × (c < second_codes k w))
    → IsOther k o ⊎ ((p < passwords k w') × (c < second_codes k w'))
more_both k p c o w w' more (inl other) = inl other
more_both k p c o w w' (_, a, b) (inr (gave, typed)) = inr (omega arith, omega arith)

Stands-Counted :
    (k p c : ℕ) (b : Browser) (w w' : World) → Stands k p c b w → Counted k w w' → Stands k p c b w'
Stands-Counted k p c b w w' (_, low, low', waits, is_in) more =
    let (has, a, d) = more in
    (
      has,
      omega arith,
      omega arith,
      more_passwords k p c b.pending_user_id w w' more waits,
      more_both k p c b.user w w' more is_in,
    )

found_id : (id : ℕ) (us : List User) (u : User) → find (λ u. u.id == id) us ≡ some u → u.id ≡ id
found_id id [] u h = absurd (ground arith)
found_id id (v ∷ us) u h = elim (Bool-cases (v.id == id)) [
  | inl here ↦ ground (arith, h, here, ==_iff v.id id)
  | inr later ↦ found_id id us u (ground (arith, h, later))
]

clash : (id i k : ℕ) → i ≡ id → (i == k) ≡ true → (id == k) ≡ false → ⊥
clash id i k same him other = ground arith

later : (p a b : ℕ) → p < a → a ≤ b → p < b
later p a b h le = omega arith

one_more :
    (c a b : ℕ) (him : Bool) → c ≤ a → him ≡ true → b ≡ a + (if true && him then 1 else 0) → c < b
one_more c a b him low h e = ground arith

module _ (site : Site) (enters : Enters site) (k p c : ℕ) where
  -- Somebody else signs in, or nobody does.
  somebody_else :
      {P : Type 0} (u : User) (before : Option ℕ)
      → (u.id == k) ≡ false
      → IsOther k before ⊎ P
      → IsOther k (site.login_user u before) ⊎ P
  somebody_else u before other (inr here) = inr here
  somebody_else u before other (inl was_other) = elim (enters u before) [
    | inl now_in ↦ inl (subst (IsOther k) (sym now_in) other)
    | inr stays ↦ inl (subst (IsOther k) (sym stays) was_other)
  ]

  password_given :
      (u : User) (w w' : World)
      → p ≤ passwords k w
      → passwords u.id w < passwords u.id w'
      → IsOther k (some u.id) ⊎ (p < passwords k w')
  password_given u w w' low gave = elim (Bool-cases (u.id == k)) [
    | inr other ↦ inl other
    | inl same ↦ inr (
        subst (λ j. p ≤ passwords j w → p < passwords j w') ((==_iff u.id k).0 same)
          (λ le. omega arith) low)
  ]

  no_factor :
      (u : User)
      → (not (u.id == k) || totp_enabled u) ≡ true
      → totp_enabled u ≡ false
      → (u.id == k) ≡ false
  no_factor u fine without = ground arith

  pended-Stands :
      (url : Option Text) (b : Browser) (w : World)
      → Stands k p c b w
      → Stands k p c (pended url b).1 w
  pended-Stands none b w s = s
  pended-Stands (some url) b w s = s

  landed-Stands :
      (url : Option Text) (b : Browser) (w : World)
      → Stands k p c b w
      → Stands k p c (landed url b).1 w
  landed-Stands none b w s = s
  landed-Stands (some url) b w (has, low, low', waits, is_in) = (has, low, low', inl refl, is_in)

  pend-Stands :
      (env : Env) (next : Option Text) (u : User) (b : Browser) (w w' : World)
      → Stands k p c b w
      → Counted k w w'
      → passwords u.id w < passwords u.id w'
      → Stands k p c (pend site env next u b).1 w'
  pend-Stands env next u b w w' s more gave =
      let (has, low, low', waits, is_in) = Stands-Counted k p c b w w' s more in
      let given = password_given u w w' s.1 gave in
      pended-Stands (safe_next_url site.dashboard next) _ w' (has, low, low', given, is_in)

  after_password-Stands :
      (env : Env) (next : Option Text) (b : Browser) (w : World) (r : Option User × World)
      → Stands k p c b w
      → Authenticated k w r
      → Stands k p c (after_password site env next b r.0).1 r.1
  unfolding after_password
  after_password-Stands env next b w (none, w') s more = Stands-Counted k p c b w w' s more
  after_password-Stands env next b w (some u, w') s (more, gave, fine) =
      elim (Bool-cases (totp_enabled u)) [
        | inl with_factor ↦
            rw (with_factor, after_password) (pend-Stands env next u b w w' s more gave)
        | inr without ↦
            let (has, low, low', waits, is_in) = Stands-Counted k p c b w w' s more in
            rw (without, after_password)
              (has, low, low', waits, somebody_else u b.user (no_factor u fine without) is_in)
      ]

  pub login-Stands :
      (env : Env) (form : Option (Text × Text)) (next : Option Text) (b : Browser) (w : World)
      → Stands k p c b w
      → let (page, b', w') = login site env form next b w in Stands k p c b' w'
  unfolding login
  login-Stands env none next b w s = s
  login-Stands env (some (email, password)) next b w s =
      elim (Bool-cases (login_fits email password)) [
        | inl fits ↦
            rw (fits, login)
              (after_password-Stands env next b w (authenticate env email password w) s
                (authenticate-Authenticated k env email password w s.0))
        | inr bad ↦ rw (bad, login) s
      ]

  second_given :
      (id : ℕ) (u : User) (b : Browser) (w w' : World)
      → u.id ≡ id
      → Counted k w w'
      → second_codes k w' ≡ second_codes k w + (if true && (u.id == k) then 1 else 0)
      → c ≤ second_codes k w
      → IsOther k (some id) ⊎ (p < passwords k w)
      → IsOther k b.user ⊎ ((p < passwords k w') × (c < second_codes k w'))
      → IsOther k (site.login_user u b.user) ⊎ ((p < passwords k w') × (c < second_codes k w'))
  second_given id u b w w' same more typed low waits is_in = elim (Bool-cases (u.id == k)) [
    | inr other ↦ somebody_else u b.user other is_in
    | inl him ↦ elim waits [
      | inl other ↦ absurd (clash id u.id k same him other)
      | inr gave ↦ inr (later _ _ _ gave more.1, one_more _ _ _ _ low him typed)
    ]
  ]

  let_in-Stands :
      (env : Env) (id : ℕ) (u : User) (b : Browser) (w : World)
      → u.id ≡ id
      → b.pending_user_id ≡ some id
      → Stands k p c b w
      → let (page, b', w') = let_in site env u b w in Stands k p c b' w'
  unfolding let_in
  let_in-Stands env id u b w same waiting s =
      let w' = audit_login site env AuditAction.login_2fa_success u w in
      let more =
        record_entry-Counted k (some u.id) env EntityType.user (some u.id)
          AuditAction.login_2fa_success end w s.0 in
      let (has, low, low', waits, is_in) = Stands-Counted k p c b w w' s more in
      landed-Stands (safe_next_url site.dashboard b.pending_next) _ w' (
        has,
        low,
        low',
        waits,
        second_given id u b w w' same more
            (second_codes-record_entry k u.id env EntityType.user (some u.id)
              AuditAction.login_2fa_success end w)
            s.2 (subst (λ o. IsOther k o ⊎ (p < passwords k w)) waiting s.3) is_in,
      )

  ask_code-Stands :
      (env : Env) (form : Option Text) (id : ℕ) (u : User) (b : Browser) (w : World)
      → u.id ≡ id
      → b.pending_user_id ≡ some id
      → Stands k p c b w
      → let (page, b', w') = ask_code site env form u b w in Stands k p c b' w'
  ask_code-Stands env none id u b w same waiting s = s
  ask_code-Stands env (some code) id u b w same waiting s = elim (Bool-cases (code_fits code)) [
    | inr bad ↦ rw bad s
    | inl fits ↦ elim (Bool-cases (verify_code site.vault (now env) u code)) [
      | inl right ↦ rw (fits, right) (let_in-Stands env id u b w same waiting s)
      | inr wrong ↦
          rw (fits, wrong)
            (Stands-Counted k p c b w (audit_login site env AuditAction.login_2fa_failure u w) s (
              record_entry-Counted k (some u.id) env EntityType.user (some u.id)
                AuditAction.login_2fa_failure end w s.0))
    ]
  ]

  pub with_pending-Stands :
      (env : Env) (form : Option Text) (o : Option ℕ) (b : Browser) (w : World)
      → b.pending_user_id ≡ o
      → Stands k p c b w
      → let (page, b', w') = with_pending site env form o b w in Stands k p c b' w'
  with_pending-Stands env form none b w waiting s = s
  with_pending-Stands env form (some id) b w waiting s =
      elim (Option-cases (user_with site env id w)) [
        | inl gone ↦ rw gone (s.0, s.1, s.2, inl refl, s.4)
        | inr (u, found) ↦
            rw found (ask_code-Stands env form id u b w (found_id id w.users u found) waiting s)
      ]

  pub logout_for-Stands :
      (env : Env) (who : Option User) (b : Browser) (w : World)
      → Stands k p c b w
      → let (page, b', w') = logout_for site env who b w in Stands k p c b' w'
  logout_for-Stands env none b w s = s
  logout_for-Stands env (some u) b w s =
      let w' = record_entry env EntityType.user (some u.id) AuditAction.logout end none w in
      let (has, low, low', waits, is_in) = Stands-Counted k p c b w w' s (
        record_entry-Counted k none env EntityType.user (some u.id) AuditAction.logout end w s.0) in
      (has, low, low', waits, inl refl)
