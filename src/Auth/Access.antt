-- ===== src/Auth/Access.antt =====
-- `require_permission`, on every branch.
use qms_bakery.Prelude.{
  ◌≡◌, refl, true, false, Option, none, some, [], ◌∷◌, ◌++◌, Bool-cases, inl, inr,
}
use qms_bakery.Prelude.Text.{Text}
use qms_bakery.Models.Auth.{User, Permission, has_permission}
use qms_bakery.Models.Audit.{AuditLog, AuditAction}
use qms_bakery.World.{Env, World, now}
use qms_bakery.Audit.{record_entry}
use qms_bakery.Auth.{Answer, login_redirect, forbidden, answered, require_permission}

-- What a guarded call has done, by how it answered.
abbrev pub Guarded :
    {A : Type 0}
    → Env
    → Permission
    → Option User
    → (World → A × World)
    → World
    → Answer A × World
    → Type 0
Guarded env p user view w (login_redirect, w') = (user ≡ none) × (w' ≡ w)
Guarded env p user view w (forbidden, w') =
    (u : User) × (user ≡ some u)
    × (has_permission p u ≡ false)
    × ((e : AuditLog) × (w' ≡ record w { audit_log = w.audit_log ++ e ∷ [] })
        × (e.action ≡ AuditAction.denied)
        × (e.occurred_at ≡ now env))
Guarded env p user view w (answered a, w') =
    (u : User) × (user ≡ some u) × (has_permission p u ≡ true) × (view w ≡ (a, w'))

-- A guarded view runs exactly for a signed-in user whose role has the permission. Anyone else is
-- sent to the login page, where nothing changes, or refused, where the refusal is the one change:
-- an audit entry.
pub require_permission-Guarded :
    {A : Type 0} (env : Env) (p : Permission) (path : Text) (user : Option User)
    (view : World → A × World) (w : World)
    → Guarded env p user view w (require_permission env p path user view w)
unfolding require_permission record_entry
require_permission-Guarded env p path none view w = (refl, refl)
require_permission-Guarded env p path (some u) view w = elim (Bool-cases (has_permission p u)) [
  | inl may ↦ rw (may, require_permission) (u, refl, may, refl)
  | inr may_not ↦ rw (may_not, require_permission) (u, refl, may_not, (_, refl, refl, refl))
]
