-- ===== src/Clock/Reference.antt =====
-- The Gregorian calendar: the days of its months and years, counted from the first of January of the
-- year 1.
use mblue.Common.{ℕ, zero, suc, ◌+◌, ◌-◌, ◌%◌, ◌≤◌, ◌||◌, ◌==◌, if◌then◌else◌}

abbrev pub leap : ℕ → ℕ
leap y = if y % 4 == 0 then (if y % 100 == 0 then (if y % 400 == 0 then 1 else 0) else 1) else 0

abbrev pub month_length : ℕ → ℕ → ℕ
month_length y m =
    if m == 2 then 28 + leap y else if (m == 4) || (m == 6) || (m == 9) || (m == 11) then 30 else 31

-- The days of the months before month `suc n`, and of the years before year `suc n`.
abbrev pub days_of_months : ℕ → ℕ → ℕ
days_of_months y zero = 0
days_of_months y (suc n) = days_of_months y n + month_length y (suc n)

abbrev pub days_of_years : ℕ → ℕ
days_of_years zero = 0
days_of_years (suc n) = days_of_years n + 365 + leap (suc n)

-- The number of a date, 1 for the first of January of the year 1.
abbrev pub ordinal : ℕ → ℕ → ℕ → ℕ
ordinal y m d = days_of_years (y - 1) + days_of_months y (m - 1) + d

pub record IsDate (y m d : ℕ) : Type 0 where
  pub year_low : 1 ≤ y
  pub month_low : 1 ≤ m
  pub month_high : m ≤ 12
  pub day_low : 1 ≤ d
  pub day_high : d ≤ month_length y m
