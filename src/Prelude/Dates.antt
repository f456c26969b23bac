-- ===== src/Prelude/Dates.antt =====
-- Calendar arithmetic: `datetime`, `calendar.monthrange` and the instants that are compared.
use qms_bakery.Prelude.Tests.{◌==◌, if◌then◌else◌}
use Prim.Native.Nat.{ℕ, zero, suc, ◌+◌, ◌-◌, ◌*◌, ◌/◌, ◌%◌, ◌≤◌, ◌<◌}
use mathlib.Core.Path.{◌≡◌}
use mathlib.Core.Bool.{Bool, true, false, not, ◌||◌}
use native.Mathlib.Omega.{arith}

-- An aware datetime in UTC; `clock` is the second of the day.
pub record DateTime : Type 0 where
  pub year : ℕ
  pub month : ℕ
  pub day : ℕ
  pub clock : ℕ

pub is_leap : ℕ → Bool
is_leap y = if not (y % 4 == 0) then false else if not (y % 100 == 0) then true else y % 400 == 0

-- `calendar.monthrange(year, month)[1]`
unfoldable pub month_days : ℕ → ℕ → ℕ
unfolding is_leap
month_days y m =
    if m == 2
    then (if is_leap y then 29 else 28)
    else if (m == 4) || (m == 6) || (m == 9) || (m == 11)
    then 30
    else 31

unfoldable pub year_days : ℕ → ℕ
year_days y = if is_leap y then 366 else 365

-- The days of the first `m` months of a year.
unfoldable pub days_through : ℕ → ℕ → ℕ
days_through y zero = 0
days_through y (suc m) = days_through y m + month_days y (suc m)

-- The days of the years below `y`.
unfoldable pub days_before : ℕ → ℕ
days_before zero = 0
days_before (suc y) = days_before y + year_days y

unfoldable pub ordinal : DateTime → ℕ
ordinal t = days_before t.year + days_through t.year (t.month - 1) + t.day

-- The seconds up to a moment, by which moments are compared.
unfoldable pub instant : DateTime → ℕ
unfolding ordinal days_before year_days days_through month_days
instant t = ordinal t * 86400 + t.clock

-- `timedelta(days=n)`, in seconds
abbrev pub days : ℕ → ℕ
days n = n * 86400

-- `.date()` of an instant: equal for two instants of one day.
abbrev pub date_of : ℕ → ℕ
date_of t = t / 86400

pub record IsDate (t : DateTime) : Type 0 where
  pub month_low : 1 ≤ t.month
  pub month_high : t.month ≤ 12
  pub day_low : 1 ≤ t.day
  pub day_high : t.day ≤ month_days t.year t.month
  pub clock_high : t.clock < 86400

pub month_days_bounds : (y m : ℕ) → (28 ≤ month_days y m) × (month_days y m ≤ 31)
unfolding month_days
month_days_bounds y m = ground arith

pub days_through_year : (y : ℕ) → days_through y 12 ≡ year_days y
unfolding days_through year_days month_days
days_through_year y = ground arith
