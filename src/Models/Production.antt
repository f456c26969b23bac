-- ===== src/Models/Production.antt =====
-- app/models/production.py
use qms_bakery.Prelude.{ℕ, Bool, List}
use qms_bakery.Prelude.Text.{Text}

pub record ProductionLine : Type 0 where
  pub id : ℕ
  pub code : Text
  pub is_active : Bool

-- The stages are their identities, in the order of `order_index`.
pub record Pipeline : Type 0 where
  pub id : ℕ
  pub line_id : ℕ
  pub version : ℕ
  pub is_active : Bool
  pub stages : List ℕ
