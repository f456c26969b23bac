-- ===== src/Auth/Tests.antt =====
-- Sign-in at the sample plant: the threshold is 3, the lockout 15 minutes.
use qms_bakery.Prelude.{◌≡◌, refl, true, none, some, List, [], ◌∷◌, arith}
use qms_bakery.Prelude.Text.{Text, codes, strip}
use qms_bakery.Models.Auth.{User, UserRole, Permission}
use qms_bakery.World.{Env, World, now}
use qms_bakery.Auth.{authenticate}
use qms_bakery.Auth.Lockout.{Outcome, authenticate-Outcome}
use qms_bakery.Auth.Guesses.{attack, authenticate-lockout}
use qms_bakery.Samples.{config, env, moment, plant}

abbrev anna : User
anna = record {
  id = 1;
  email = codes "anna@bakery.pl";
  password_hash = codes "secret";
  is_active_flag = true;
  failed_attempts = 0;
  locked_until = none;
  last_login_at = none;
  role = some (record { code = UserRole.operator; permissions = Permission.tickets_view ∷ [] });
  totp_secret = none;
  totp_enrolled_at = none;
}

abbrev staffed : World
staffed = record plant { users = anna ∷ [] }

authenticate-Outcome_example :
    Outcome env
      (codes " Anna@bakery.pl")
      (codes "secret")
      staffed
      (authenticate env (codes " Anna@bakery.pl") (codes "secret") staffed)
authenticate-Outcome_example =
    authenticate-Outcome env (codes " Anna@bakery.pl") (codes "secret") staffed

abbrev guesses : List (Env × Text)
guesses = (env, codes "a") ∷ (env, codes "b") ∷ []

abbrev soon : Env
soon = record env { clock = moment 4000 }

authenticate-lockout_example :
    let w' =
      (authenticate env
        (codes "anna@bakery.pl")
        (codes "c")
        (attack (codes "anna@bakery.pl") guesses staffed)).1 in
    authenticate soon (codes "anna@bakery.pl") (codes "secret") w' ≡ (none, w')
unfolding strip now
authenticate-lockout_example =
    authenticate-lockout config (codes "anna@bakery.pl") (codes "secret") guesses env (codes "c")
      staffed soon (codes "secret") ((refl, refl), ((refl, refl), tt)) (refl, refl)
      (anna, refl, refl, refl, refl, refl) refl (omega arith)
