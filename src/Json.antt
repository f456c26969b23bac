-- ===== src/Json.antt =====
-- JSON values, as the columns `condition`, `config`, `payload`, `diff` and `metadata` hold them.
-- A string that is a row's UUID is `uid`, an ISO moment is `moment`; any other string is `str`. Numbers are in thousandths.
use qms_bakery.Prelude.{ℕ, Bool, true, false, not, Option, none, some, if◌then◌else◌}
use qms_bakery.Prelude.Int.{ℤ, pos, negsuc}
use qms_bakery.Prelude.Text.{Text, text_eq, is_blank}

mutual
  pub data Json : Type 0 where
    null : Json
    bool : Bool → Json
    num : ℤ → Json
    str : Text → Json
    uid : ℕ → Json
    moment : ℕ → Json
    arr : Items → Json
    obj : Fields → Json

  pub data Items : Type 0 where
    nil : Items
    item : Json → Items → Items

  pub data Fields : Type 0 where
    end : Fields
    field : Text → Json → Fields → Fields

-- `d.get(key)`: the first entry of the key. None stands for a missing key.
unfoldable pub get : Text → Fields → Option Json
get k end = none
get k (field j v d) = if text_eq k j then some v else get k d

-- `bool(value)`
abbrev pub truthy : Json → Bool
truthy null = false
truthy (bool b) = b
truthy (num (pos ℕ.zero)) = false
truthy (num (pos (ℕ.suc n))) = true
truthy (num (negsuc n)) = true
truthy (str s) = not (is_blank s)
truthy (uid n) = true
truthy (moment t) = true
truthy (arr nil) = false
truthy (arr (item x xs)) = true
truthy (obj end) = false
truthy (obj (field k v d)) = true

-- `d.get(key)` where the value counts only if it is truthy, as in `d.get(a) or d.get(b)`.
abbrev pub get_truthy : Text → Fields → Option Json
get_truthy k d = elim (get k d) [ none ↦ none | some v ↦ if truthy v then some v else none ]

-- The UUID that a value is, if it is one.
abbrev pub as_uid : Json → Option ℕ
as_uid (uid n) = some n
as_uid _ = none

abbrev pub option_uid : Option ℕ → Json
option_uid none = null
option_uid (some n) = uid n

abbrev pub option_str : Option Text → Json
option_str none = null
option_str (some t) = str t
