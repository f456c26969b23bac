-- ===== src/Tickets/Views/Tests.antt =====
-- A signed-in operator without permissions, and a member of the compliance team.
use qms_bakery.Prelude.{◌≡◌, refl, true, none, some, [], ◌∷◌}
use qms_bakery.Prelude.Text.{codes}
use qms_bakery.Models.Auth.{User, UserRole, Permission}
use qms_bakery.World.{World}
use qms_bakery.Samples.{env, plant, crumbs}
use qms_bakery.Audit.{record_entry}
use qms_bakery.Auth.{answered, require_permission}
use qms_bakery.Tickets.{create_ticket}
use qms_bakery.Tickets.Views.{denied, Post, post_transition, serve, status_of}
use qms_bakery.Tickets.Views.Permitted.{Permitted, serve-Permitted}

abbrev quality : User
quality = record {
  id = 2;
  email = codes "qa@bakery.pl";
  password_hash = codes "secret";
  is_active_flag = true;
  failed_attempts = 0;
  locked_until = none;
  last_login_at = none;
  role = some (record { code = UserRole.qa; permissions = Permission.tickets_classify ∷ [] });
  totp_secret = none;
  totp_enrolled_at = none;
}

abbrev one_ticket : World
one_ticket = (create_ticket env crumbs plant).1

abbrev closing : Post
closing = post_transition 10 (codes "closed") none

serve-Permitted_example :
    Permitted closing
      (some quality)
      one_ticket
      (serve env (codes "/tickets/10/transition") closing (some quality) one_ticket).1
serve-Permitted_example =
    serve-Permitted env (codes "/tickets/10/transition") closing (some quality) one_ticket

closing_denied :
    (serve env (codes "/tickets/10/transition") closing (some quality) one_ticket).0
    ≡ answered denied
unfolding serve require_permission create_ticket status_of record_entry
closing_denied = refl
