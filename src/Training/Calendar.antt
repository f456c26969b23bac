-- ===== src/Training/Calendar.antt =====
-- app/services/training.py, `_add_months`, and the civil dates that links are sent with.
use qms_bakery.Prelude.{
  ℕ, zero, suc, ◌+◌, ◌-◌, ◌*◌, ◌/◌, ◌%◌, ◌≤◌, ◌<◌, ◌≡◌, refl, subst, inl, inr, [], ◌∷◌, ◌++◌, ltb,
  if◌then◌else◌, arith, Bool-cases,
}
use qms_bakery.Prelude.Text.{Text, codes}
use qms_bakery.Prelude.Dates.{
  DateTime, IsDate, month_days, year_days, days_before, days_through, days_through_year, ordinal,
  instant, month_days_bounds,
}

-- `min(day, calendar.monthrange(year, month)[1])`
abbrev clamp : ℕ → ℕ → ℕ
clamp d last = if ltb last d then last else d

-- `_add_months`
unfoldable pub add_months : DateTime → ℕ → DateTime
add_months t months =
    let total = t.month - 1 + months in
    let y = t.year + total / 12 in
    let m = total % 12 + 1 in
    record { year = y; month = m; day = clamp t.day (month_days y m); clock = t.clock }

abbrev next_day : DateTime → DateTime
next_day t =
    if ltb t.day (month_days t.year t.month)
    then record t { day = t.day + 1 }
    else if ltb t.month 12
    then record t { month = t.month + 1; day = 1 }
    else record t { year = t.year + 1; month = 1; day = 1 }

-- `t + timedelta(days=n)`, as a civil date.
unfoldable pub plus_days : DateTime → ℕ → DateTime
plus_days t zero = t
plus_days t (suc n) = plus_days (next_day t) n

abbrev two_digits : ℕ → Text
two_digits n = (48 + n / 10 % 10) ∷ (48 + n % 10) ∷ []

-- `f"{t:%Y-%m-%d}"`
abbrev pub iso_date : DateTime → Text
iso_date t =
    two_digits (t.year / 100)
    ++ two_digits t.year
    ++ codes "-"
    ++ two_digits t.month
    ++ codes "-"
    ++ two_digits t.day

-- The months of the calendar up to a moment's month.
abbrev pub month_index : DateTime → ℕ
month_index t = t.year * 12 + (t.month - 1)

clamp_lem :
    (d last : ℕ)
    → (clamp d last ≤ d) × (clamp d last ≤ last) × (1 ≤ d → 1 ≤ last → 1 ≤ clamp d last)
clamp_lem d last = ground arith

-- The month that is so many months later, with the day cut to that month's length and the time of
-- day unchanged; the outcome is a date of the calendar.
pub add_months_lem :
    (t : DateTime) (months : ℕ)
    → IsDate t
    → IsDate (add_months t months)
      × (month_index (add_months t months) ≡ month_index t + months)
      × ((add_months t months).day ≤ t.day)
      × ((add_months t months).clock ≡ t.clock)
unfolding add_months
add_months_lem t months ok =
    let total = t.month - 1 + months in
    let b = month_days_bounds (t.year + total / 12) (total % 12 + 1) in
    let c = clamp_lem t.day (month_days (t.year + total / 12) (total % 12 + 1)) in
    (
      record {
        month_low = omega arith;
        month_high = omega arith;
        day_low = c.2 ok.day_low (omega (arith, b));
        day_high = c.1;
        clock_high = ok.clock_high;
      },
      omega (arith, ok),
      c.0,
      refl,
    )

-- The days before the month with index `i`.
month_start : ℕ → ℕ
month_start i = days_before (i / 12) + days_through (i / 12) (i % 12)

month_start-suc : (i : ℕ) → month_start (suc i) ≡ month_start i + month_days (i / 12) (suc (i % 12))
unfolding month_start days_before days_through
month_start-suc i = elim (Bool-cases (ltb (i % 12) 11)) [
  | inl within ↦
      let same_year : suc i / 12 ≡ i / 12 = ground arith in
      let next_month : suc i % 12 ≡ suc (i % 12) = ground arith in
      rw (same_year, next_month) (omega arith)
  | inr last ↦
      let december : i % 12 ≡ 11 = ground arith in
      let next_year : suc i / 12 ≡ suc (i / 12) = ground arith in
      let january : suc i % 12 ≡ 0 = ground arith in
      rw (december, next_year, january) (omega (arith, days_through_year (i / 12)))
]

month_start_mono : (i n : ℕ) → month_start i ≤ month_start (i + n)
month_start_mono i zero =
    let same : i ≡ i + 0 = omega arith in
    subst (λ j. month_start i ≤ month_start j) same (omega arith)
month_start_mono i (suc n) =
    let same : suc (i + n) ≡ i + suc n = omega arith in
    subst (λ j. month_start i ≤ month_start j) same
      (omega (arith, month_start_mono i n, month_start-suc (i + n)))

ordinal-month_start : (t : DateTime) → IsDate t → ordinal t ≡ month_start (month_index t) + t.day
unfolding month_start ordinal
ordinal-month_start t ok =
    let y : month_index t / 12 ≡ t.year = omega (arith, ok) in
    let m : month_index t % 12 ≡ t.month - 1 = omega (arith, ok) in rw (y, m) refl

-- The last day of a month is before the first of the next.
ordinal-before : (t : DateTime) → IsDate t → ordinal t ≤ month_start (suc (month_index t))
unfolding month_start
ordinal-before t ok =
    let y : month_index t / 12 ≡ t.year = omega (arith, ok) in
    let m : suc (month_index t % 12) ≡ t.month = omega (arith, ok) in
    let ends : month_days (month_index t / 12) (suc (month_index t % 12))
        ≡ month_days t.year t.month =
      rw (y, m) refl in
    omega (arith, ordinal-month_start t ok, month_start-suc (month_index t), ends, ok.day_high)

-- A certificate that is valid for at least a month ends after it begins.
pub add_months-later :
    (t : DateTime) (months : ℕ) → IsDate t → 1 ≤ months → instant t < instant (add_months t months)
unfolding instant
add_months-later t months ok some_months =
    let (ok', index, _, same_clock) = add_months_lem t months ok in
    let split : suc (month_index t) + (months - 1) ≡ month_index (add_months t months) =
      omega (arith, index) in
    let mono : month_start (suc (month_index t)) ≤ month_start (month_index (add_months t months)) =
      subst (λ j. month_start (suc (month_index t)) ≤ month_start j) split
        (month_start_mono (suc (month_index t)) (months - 1)) in
    let apart : ordinal t < ordinal (add_months t months) = omega (
      arith,
      mono,
      ordinal-before t ok,
      ordinal-month_start (add_months t months) ok',
      ok'.day_low,
    ) in
    omega (arith, apart, same_clock)

days_through-month : (y m : ℕ) → 1 ≤ m → days_through y m ≡ days_through y (m - 1) + month_days y m
unfolding days_through
days_through-month y zero low = absurd (omega arith)
days_through-month y (suc m) low = let same : suc m - 1 ≡ m = omega arith in rw same refl

days_through_none : (y : ℕ) → days_through y 0 ≡ 0
unfolding days_through
days_through_none y = refl

days_before-next : (y : ℕ) → days_before (y + 1) ≡ days_before y + year_days y
unfolding days_before
days_before-next y = let same : y + 1 ≡ suc y = omega arith in rw same refl

next_day_lem :
    (t : DateTime)
    → IsDate t
    → IsDate (next_day t)
      × (ordinal (next_day t) ≡ suc (ordinal t))
      × ((next_day t).clock ≡ t.clock)
unfolding ordinal
next_day_lem t ok = elim (Bool-cases (ltb t.day (month_days t.year t.month))) [
  | inl within ↦ rw within (
    record {
      month_low = ok.month_low;
      month_high = ok.month_high;
      day_low = omega arith;
      day_high = ground arith;
      clock_high = ok.clock_high;
    },
    omega arith,
    refl,
  )
  | inr over ↦
      let last : t.day ≡ month_days t.year t.month = ground (arith, ok.day_high) in
      let whole = days_through-month t.year t.month ok.month_low in
      elim (Bool-cases (ltb t.month 12)) [
        | inl more ↦
            let same : t.month + 1 - 1 ≡ t.month = omega arith in
            let closes : days_before t.year + days_through t.year (t.month + 1 - 1) + 1
                ≡ suc (ordinal t) =
              rw same (omega (arith, last, whole)) in
            rw (over, more)
              (
                record {
                  month_low = omega arith;
                  month_high = ground arith;
                  day_low = omega arith;
                  day_high = omega (arith, month_days_bounds t.year (t.month + 1));
                  clock_high = ok.clock_high;
                },
                closes,
                refl,
              )
        | inr december ↦
            let twelve : t.month ≡ 12 = ground (arith, ok.month_high) in
            let year : days_through t.year t.month ≡ year_days t.year =
              rw twelve (days_through_year t.year) in
            let ends_year : days_before (t.year + 1) + days_through (t.year + 1) 0 + 1
                ≡ suc (ordinal t) =
              omega (
                arith,
                last,
                whole,
                year,
                days_before-next t.year,
                days_through_none (t.year + 1),
              ) in
            rw (over, december)
              (
                record {
                  month_low = omega arith;
                  month_high = omega arith;
                  day_low = omega arith;
                  day_high = omega (arith, month_days_bounds (t.year + 1) 1);
                  clock_high = ok.clock_high;
                },
                ends_year,
                refl,
              )
      ]
]

-- So many days later is that many times 86400 seconds later, at the same time of day.
pub plus_days-instant :
    (t : DateTime) (n : ℕ)
    → IsDate t
    → IsDate (plus_days t n) × (instant (plus_days t n) ≡ instant t + n * 86400)
unfolding plus_days instant
plus_days-instant t zero ok = (ok, omega arith)
plus_days-instant t (suc n) ok =
    let (ok', later, same_clock) = next_day_lem t ok in
    let (ok'', rest) = plus_days-instant (next_day t) n ok' in
    (ok'', omega (arith, later, same_clock, rest))
