-- ===== src/Triggers/Condition.antt =====
-- app/services/triggers.py: `evaluate_condition` and `_scope_matches`. Values are compared as Python
-- compares them; an order between values of different kinds is a TypeError, which is False.
use qms_bakery.Prelude.{Bool, true, false, not, ◌||◌, Option, none, some, ltb, ◌==◌, if◌then◌else◌}
use qms_bakery.Prelude.Int.{ℤ, pos, ltb_ℤ, eqb_ℤ}
use qms_bakery.Prelude.Text.{Text, codes, text_eq, is_blank}
use qms_bakery.Json.{Json, null, bool, num, str, uid, moment, Fields, get}
use qms_bakery.World.{Env}
use qms_bakery.Tickets.Number.{text_lt}

-- A number, in thousandths; True is 1.
abbrev as_num : Json → Option ℤ
as_num (num n) = some n
as_num (bool true) = some (pos 1000)
as_num (bool false) = some (pos 0)
as_num _ = none

abbrev pub as_text : Env → Json → Option Text
as_text env (str s) = some s
as_text env (uid n) = some (env.uuid n)
as_text env _ = none

abbrev num_eq : Option ℤ → Option ℤ → Bool
num_eq (some a) (some b) = eqb_ℤ a b
num_eq _ _ = false

abbrev str_eq : Option Text → Option Text → Bool
str_eq (some a) (some b) = text_eq a b
str_eq _ _ = false

-- `a == b`, of readings that are no lists and no objects.
unfoldable pub json_eq : Env → Json → Json → Bool
json_eq env null null = true
json_eq env (moment s) (moment t) = s == t
json_eq env a b = num_eq (as_num a) (as_num b) || str_eq (as_text env a) (as_text env b)

abbrev num_lt : Option ℤ → Option ℤ → Option Bool
num_lt (some a) (some b) = some (ltb_ℤ a b)
num_lt _ _ = none

abbrev str_lt : Option Text → Option Text → Option Bool
str_lt (some a) (some b) = some (text_lt a b)
str_lt _ _ = none

abbrev first_of : Option Bool → Option Bool → Option Bool
first_of none other = other
first_of (some b) other = some b

-- `a < b`, or none for a TypeError.
unfoldable pub json_lt : Env → Json → Json → Option Bool
json_lt env (moment s) (moment t) = some (ltb s t)
json_lt env a b = first_of (num_lt (as_num a) (as_num b)) (str_lt (as_text env a) (as_text env b))

abbrev or_false : Option Bool → Bool
or_false none = false
or_false (some b) = b

abbrev or_equal : Bool → Option Bool → Option Bool
or_equal e none = none
or_equal e (some b) = some (b || e)

-- `_OPERATORS`
pub data Operator : Type 0 where
  equal unequal less at_most greater at_least : Operator

unfoldable pub operator_of : Text → Option Operator
operator_of s =
    if text_eq s (codes "==")
    then some equal
    else if text_eq s (codes "!=")
    then some unequal
    else if text_eq s (codes "<")
    then some less
    else if text_eq s (codes "<=")
    then some at_most
    else if text_eq s (codes ">")
    then some greater
    else if text_eq s (codes ">=")
    then some at_least
    else none

-- `bool(_OPERATORS[op](a, b))`, with the TypeError as False.
unfoldable pub compare_values : Env → Operator → Json → Json → Bool
compare_values env equal a b = json_eq env a b
compare_values env unequal a b = not (json_eq env a b)
compare_values env less a b = or_false (json_lt env a b)
compare_values env at_most a b = or_false (or_equal (json_eq env a b) (json_lt env a b))
compare_values env greater a b = or_false (json_lt env b a)
compare_values env at_least a b = or_false (or_equal (json_eq env a b) (json_lt env b a))

abbrev text_at : Env → Text → Fields → Option Text
text_at env key d = elim (get key d) [ none ↦ none | some v ↦ as_text env v ]

-- `condition.get("value")`
abbrev or_null : Option Json → Json
or_null none = null
or_null (some v) = v

abbrev operator_at : Env → Fields → Option Operator
operator_at env condition = elim (text_at env (codes "operator") condition) [
  | none ↦ none
  | some s ↦ operator_of s
]

abbrev judge : Env → Json → Option Operator → Option Json → Bool
judge env threshold (some op) (some reading) = compare_values env op reading threshold
judge env threshold _ _ = false

abbrev reading_at : Option Text → Fields → Option Json
reading_at none payload = none
reading_at (some metric) payload = get metric payload

-- `evaluate_condition`
unfoldable pub evaluate_condition : Env → Fields → Fields → Bool
evaluate_condition env condition payload =
    judge env (or_null (get (codes "value") condition)) (operator_at env condition)
      (reading_at (text_at env (codes "metric") condition) payload)

-- `payload.get("scope")`
abbrev pub payload_scope : Env → Fields → Option Text
payload_scope env payload = text_at env (codes "scope") payload

-- `_scope_matches`
abbrev pub scope_matches : Option Text → Option Text → Bool
scope_matches none scope = true
scope_matches (some t) none = is_blank t
scope_matches (some t) (some s) = is_blank t || text_eq t s
