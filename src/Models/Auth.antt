-- ===== src/Models/Auth.antt =====
-- app/models/auth.py and app/permissions.py
use qms_bakery.Prelude.{
  ℕ, Bool, false, not, ◌&&◌, Option, none, some, List, any, ltb, ◌==◌, is_some,
}
use qms_bakery.Prelude.Text.{Text, codes, is_blank}

pub data UserRole : Type 0 where
  operator qa line_manager compliance plant_manager admin : UserRole

-- `Perm`
pub data Permission : Type 0 where
  tickets_create tickets_view tickets_classify tickets_corrective_action : Permission
  tickets_close ccp_measure ccp_define salsa_respond salsa_define : Permission
  pipeline_configure triggers_define users_manage audit_view audit_export : Permission
  reports_generate dashboard_view system_configure dlq_manage : Permission
  training_author training_review training_send : Permission

abbrev permission_index : Permission → ℕ
permission_index tickets_create = 0
permission_index tickets_view = 1
permission_index tickets_classify = 2
permission_index tickets_corrective_action = 3
permission_index tickets_close = 4
permission_index ccp_measure = 5
permission_index ccp_define = 6
permission_index salsa_respond = 7
permission_index salsa_define = 8
permission_index pipeline_configure = 9
permission_index triggers_define = 10
permission_index users_manage = 11
permission_index audit_view = 12
permission_index audit_export = 13
permission_index reports_generate = 14
permission_index dashboard_view = 15
permission_index system_configure = 16
permission_index dlq_manage = 17
permission_index training_author = 18
permission_index training_review = 19
permission_index training_send = 20

pub record Role : Type 0 where
  pub code : UserRole
  pub permissions : List Permission

pub record User : Type 0 where
  pub id : ℕ
  pub email : Text
  pub password_hash : Text
  pub is_active_flag : Bool
  pub failed_attempts : ℕ
  pub locked_until : Option ℕ
  pub last_login_at : Option ℕ
  pub role : Option Role
  pub totp_secret : Option Text
  pub totp_enrolled_at : Option ℕ

-- `Role.has_permission`
abbrev pub role_has : Permission → Role → Bool
role_has p r = any (λ q. permission_index q == permission_index p) r.permissions

-- `User.has_permission`
abbrev pub has_permission : Permission → User → Bool
has_permission p u = elim u.role [ none ↦ false | some r ↦ role_has p r ]

-- `User.totp_enabled`
abbrev pub totp_enabled : User → Bool
totp_enabled u = elim u.totp_secret [
  | none ↦ false
  | some s ↦ not (is_blank s) && is_some u.totp_enrolled_at
]

-- `User.is_locked`
abbrev pub is_locked : ℕ → User → Bool
is_locked now u = elim u.locked_until [ none ↦ false | some t ↦ ltb now t ]

-- The string of a permission, as the audit trail shows it.
abbrev pub permission_value : Permission → Text
permission_value tickets_create = codes "tickets.create"
permission_value tickets_view = codes "tickets.view"
permission_value tickets_classify = codes "tickets.classify"
permission_value tickets_corrective_action = codes "tickets.corrective_action"
permission_value tickets_close = codes "tickets.close"
permission_value ccp_measure = codes "ccp.measure"
permission_value ccp_define = codes "ccp.define"
permission_value salsa_respond = codes "salsa.respond"
permission_value salsa_define = codes "salsa.define"
permission_value pipeline_configure = codes "pipeline.configure"
permission_value triggers_define = codes "triggers.define"
permission_value users_manage = codes "users.manage"
permission_value audit_view = codes "audit.view"
permission_value audit_export = codes "audit.export"
permission_value reports_generate = codes "reports.generate"
permission_value dashboard_view = codes "dashboard.view"
permission_value system_configure = codes "system.configure"
permission_value dlq_manage = codes "dlq.manage"
permission_value training_author = codes "training.author"
permission_value training_review = codes "training.review"
permission_value training_send = codes "training.send"
