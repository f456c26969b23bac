-- ===== src/Models/Quality.antt =====
-- app/models/haccp.py and app/models/salsa.py
use qms_bakery.Prelude.{ℕ, Bool, false, not, ◌&&◌, Option, none, some, List}
use qms_bakery.Prelude.Int.{ℤ, ltb_ℤ}
use qms_bakery.Prelude.Text.{Text}

-- Limits and values are in thousandths of the unit.
pub record CcpDefinition : Type 0 where
  pub id : ℕ
  pub line_id : ℕ
  pub code : Text
  pub parameter : Text
  pub unit : Text
  pub critical_limit_min : Option ℤ
  pub critical_limit_max : Option ℤ
  pub is_active : Bool

abbrev below_min : Option ℤ → ℤ → Bool
below_min none v = false
below_min (some m) v = ltb_ℤ v m

abbrev above_max : Option ℤ → ℤ → Bool
above_max none v = false
above_max (some m) v = ltb_ℤ m v

-- `CcpDefinition.is_within_limits`
unfoldable pub is_within_limits : CcpDefinition → ℤ → Bool
is_within_limits c v =
    not (below_min c.critical_limit_min v) && not (above_max c.critical_limit_max v)

pub record CcpMeasurement : Type 0 where
  pub id : ℕ
  pub ccp_id : ℕ
  pub measured_value : ℤ
  pub measured_at : ℕ
  pub measured_by_user_id : Option ℕ
  pub device_id : Option Text
  pub is_within_limits : Bool
  pub notes : Option Text
  pub linked_ticket_id : Option ℕ

pub record SalsaItem : Type 0 where
  pub key : Text
  pub prompt_en : Option Text

pub record SalsaChecklist : Type 0 where
  pub id : ℕ
  pub code : Text
  pub line_id : Option ℕ
  pub is_active : Bool
  pub items : List SalsaItem

-- One cleaned answer of a response.
pub record SalsaAnswer : Type 0 where
  pub key : Text
  pub ok : Bool
  pub comment : Option Text

pub record SalsaResponse : Type 0 where
  pub id : ℕ
  pub checklist_id : ℕ
  pub responded_by_user_id : Option ℕ
  pub responded_at : ℕ
  pub answers : List SalsaAnswer
  pub nonconformities_count : ℕ
  pub linked_ticket_id : Option ℕ
