-- ===== src/Auth/Guesses.antt =====
-- Guessing passwords at `authenticate`: the threshold and the lockout window.
use qms_bakery.Prelude.{
  ℕ, ◌+◌, ◌*◌, ◌<◌, ◌≤◌, ◌≡◌, refl, sym, ap, subst, ◌∙◌, inl, inr, true, false, none, some, List,
  [], ◌∷◌, map, find, length, All, ◌==◌, if◌then◌else◌, arith, Bool-cases,
}
use qms_bakery.Prelude.Text.{Text, text_eq}
use qms_bakery.Models.Auth.{User}
use qms_bakery.World.{Config, Env, World, now}
use qms_bakery.Auth.{authenticate, try_user, try_password, find_user, login_name, served}
use qms_bakery.Auth.Lockout.{authenticate-free, wronged, refuse-wronged, served_lem, wronged_lem}

-- A row that is written under the key of the one that was found is found in its place.
find-put :
    (name : Text) (t s : User) (us : List User)
    → t.id ≡ s.id
    → t.email ≡ s.email
    → find (λ u. text_eq u.email name) us ≡ some s
    → find (λ u. text_eq u.email name) (map (λ u. if u.id == t.id then t else u) us) ≡ some t
find-put name t s [] same_id same_email h = absurd (cc)
find-put name t s (u ∷ us) same_id same_email h =
    ground (arith, find-put name t s us same_id same_email)

-- The user found under a name is active, not locked, has this hash, and has spent `k` attempts.
abbrev pub Facing : Text → Text → ℕ → World → Type 0
Facing name hashed k w =
    (s : User) × (find_user name w ≡ some s)
    × (s.is_active_flag ≡ true)
    × (s.locked_until ≡ none)
    × (s.password_hash ≡ hashed)
    × (s.failed_attempts ≡ k)

-- The user found under a name is locked until a moment.
abbrev pub LockedTill : Text → ℕ → World → Type 0
LockedTill name until w =
    (s : User) × (find_user name w ≡ some s)
    × (s.is_active_flag ≡ true)
    × (s.locked_until ≡ some until)

wronged-keeps :
    (env : Env) (s : User)
    → ((wronged env s).email ≡ s.email)
      × ((wronged env s).is_active_flag ≡ s.is_active_flag)
      × ((wronged env s).password_hash ≡ s.password_hash)
unfolding served
wronged-keeps env s = ground arith

found_after :
    (env : Env) (email password : Text) (s : User) (w : World)
    → find_user (login_name email) w ≡ some s
    → s.is_active_flag ≡ true
    → s.locked_until ≡ none
    → env.check_password password s.password_hash ≡ false
    → find_user (login_name email) (authenticate env email password w).1 ≡ some (wronged env s)
unfolding try_password
found_after env email password s w found active free wrong =
    rw (authenticate-free env email password s w found active (rw free refl))
      (elim (Bool-cases (env.check_password password (served s).password_hash)) [
        | inl right ↦ absurd (cc (served_lem env s).1)
        | inr miss ↦
            rw (miss, try_password)
              (ap (λ (us : List User). find (λ u. text_eq u.email (login_name email)) us)
                  (refuse-wronged env s w)
                ∙ find-put (login_name email) (wronged env s) s w.users (wronged_lem env s).0
                    (wronged-keeps env s).0 found)
      ])

guess-more :
    (env : Env) (email password hashed : Text) (k : ℕ) (w : World)
    → Facing (login_name email) hashed k w
    → env.check_password password hashed ≡ false
    → k + 1 < env.config.lockout_threshold
    → Facing (login_name email) hashed (k + 1) (authenticate env email password w).1
guess-more env email password hashed k w (s, found, active, free, same, count) wrong lt = (
  wronged env s,
  found_after env email password s w found active free (rw same wrong),
  (wronged-keeps env s).1 ∙ active,
  (wronged_lem env s).2 ∙ ground arith,
  (wronged-keeps env s).2 ∙ same,
  (wronged_lem env s).1 ∙ ground arith,
)

guess-last :
    (env : Env) (email password hashed : Text) (k : ℕ) (w : World)
    → Facing (login_name email) hashed k w
    → env.check_password password hashed ≡ false
    → env.config.lockout_threshold ≤ k + 1
    → LockedTill
        (login_name email)
        (now env + env.config.lockout_minutes * 60)
        (authenticate env email password w).1
guess-last env email password hashed k w (s, found, active, free, same, count) wrong le = (
  wronged env s,
  found_after env email password s w found active free (rw same wrong),
  (wronged-keeps env s).1 ∙ active,
  (wronged_lem env s).2 ∙ ground arith,
)

pub attack : Text → List (Env × Text) → World → World
attack email [] w = w
attack email ((env, password) ∷ guesses) w =
    attack email guesses (authenticate env email password w).1

-- Guesses that are all wrong, under one configuration.
abbrev pub AllWrong : Config → Text → List (Env × Text) → Type 0
AllWrong config hashed guesses =
    All (λ (env, password). (env.check_password password hashed ≡ false) × (env.config ≡ config))
      guesses

attack-Facing :
    (config : Config) (email hashed : Text) (k m : ℕ) (guesses : List (Env × Text)) (w : World)
    → AllWrong config hashed guesses
    → Facing (login_name email) hashed k w
    → k + length guesses ≡ m
    → m < config.lockout_threshold
    → Facing (login_name email) hashed m (attack email guesses w)
unfolding attack
attack-Facing config email hashed k m [] w wrong f full lt =
    subst (λ j. Facing (login_name email) hashed j w) (omega arith) f
attack-Facing config email hashed k m ((env, password) ∷ guesses) w wrong f full lt =
    attack-Facing config email hashed (k + 1) m guesses (authenticate env email password w).1
      wrong.1 (guess-more env email password hashed k w f wrong.0.0 (rw wrong.0.1 (omega arith)))
      (omega arith) lt

locked_out :
    (env : Env) (email password : Text) (until : ℕ) (w : World)
    → LockedTill (login_name email) until w
    → now env < until
    → authenticate env email password w ≡ (none, w)
unfolding authenticate try_user
locked_out env email password until w (s, found, active, shut) lt = ground arith

-- After as many wrong passwords as the threshold allows, every further call for that user is turned
-- away and changes nothing, the right password included, until the lockout minutes have passed
-- since the last wrong one. The user is active, not locked and has no failed attempts before.
pub authenticate-lockout :
    (config : Config) (email hashed : Text) (guesses : List (Env × Text)) (env : Env)
    (password : Text) (w : World) (env' : Env) (any_password : Text)
    → AllWrong config hashed (guesses)
    → (env.check_password password hashed ≡ false) × (env.config ≡ config)
    → Facing (login_name email) hashed 0 w
    → length guesses + 1 ≡ config.lockout_threshold
    → now env' < now env + config.lockout_minutes * 60
    → let w' = (authenticate env email password (attack email guesses w)).1 in
      authenticate env' email any_password w' ≡ (none, w')
authenticate-lockout config email hashed guesses env password w env' any_password wrong last f full
      lt =
    locked_out env' email any_password (now env + env.config.lockout_minutes * 60) _
      (guess-last env email password hashed (length guesses) (attack email guesses w)
        (attack-Facing config email hashed 0 (length guesses) guesses w wrong f (omega arith)
          (omega arith))
        last.0 (rw last.1 (omega arith)))
      (subst (λ (c : Config). now env' < now env + c.lockout_minutes * 60) (sym last.1) lt)
