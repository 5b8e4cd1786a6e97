-- ===== src/Clock/Convert.antt =====
-- convert_utc_to_calendar against the Gregorian calendar.
use mblue.Common.{
  ℕ, zero, suc, ◌+◌, ◌-◌, ◌*◌, ◌/◌, ◌%◌, ◌≤◌, ◌<◌, ◌≡◌, ap, Option, none, some, arith,
}
use mblue.Common.Words.{u8}
use mblue.Clock.{year_to_days, Calendar, month_loop, from_march, convert_utc_to_calendar}
use mblue.Clock.Reference.{ordinal, IsDate}
use mblue.Clock.Years.{year_days, year_to_days_lem, year_loop_lem}
use mblue.Clock.Months.{month_loop_lem, month-IsDay}

-- The calendar names the second: its date exists, its time is one of a day, and its days since the
-- first of January of the year 1, of which 719162 are before 1970, are those of the second.
pub record IsCalendar (seconds : ℕ) (c : Calendar) : Type 0 where
  pub date : IsDate c.year c.month c.day
  pub hour_high : c.hour < 24
  pub minute_high : c.minute < 60
  pub second_high : c.second < 60
  pub names :
      (ordinal c.year c.month c.day * 24 + c.hour) * 3600 + c.minute * 60 + c.second
      ≡ seconds + 719163 * 86400

names_of :
    (o days seconds : ℕ)
    → o + 336 ≡ days
    → days ≡ seconds / 60 / 60 / 24 + 719499
    → (o * 24 + u8 (seconds / 60 / 60 % 24)) * 3600
        + u8 (seconds / 60 % 60) * 60
        + u8 (seconds % 60)
      ≡ seconds + 719163 * 86400
names_of o days seconds e day = omega arith

from_march-IsCalendar :
    (k s seconds : ℕ)
    → suc k < 65535
    → 30 < s
    → year_days (suc k) + s ≤ year_days (suc (suc k)) + 30
    → year_days (suc k) + s ≡ seconds / 60 / 60 / 24 + 719499
    → IsCalendar seconds
        (from_march (suc k) s (seconds / 60 / 60 % 24) (seconds / 60 % 60) (seconds % 60))
unfolding from_march
from_march-IsCalendar k s seconds small behind in_year day =
    let (low, high, after, upto) = month_loop_lem 11 1 s (omega arith) (omega arith) in
    let (date, number) = month-IsDay k (month_loop 11 1 s) s small low high after upto in_year in
    record {
      date = date;
      hour_high = omega arith;
      minute_high = omega arith;
      second_high = omega arith;
      names = names_of _ (year_days (suc k) + s) seconds number day;
    }

year-IsCalendar :
    (year seconds : ℕ)
    → 1 ≤ year
    → year < 65535
    → year_days year + 30 < seconds / 60 / 60 / 24 + 719499
    → seconds / 60 / 60 / 24 + 719499 ≤ year_days (suc year) + 30
    → IsCalendar seconds (
        from_march year
          (seconds / 60 / 60 / 24 + 719499 - year_to_days year)
          (seconds / 60 / 60 % 24)
          (seconds / 60 % 60)
          (seconds % 60))
year-IsCalendar zero seconds positive small behind upto = absurd (omega arith)
year-IsCalendar (suc k) seconds positive small behind upto =
    let closed = year_to_days_lem (suc k) (omega arith) in
    from_march-IsCalendar k (seconds / 60 / 60 / 24 + 719499 - year_to_days (suc k)) seconds small
      (omega arith) (omega arith) (omega arith)

-- Before the year 65535, with fuel for a round for every 365 days, the loops end and the calendar is
-- the Gregorian one: a date that exists and the time of day, whose seconds are those that were given.
pub convert_utc_to_calendar-IsCalendar :
    (fuel seconds : ℕ)
    → seconds < 2000000000000
    → seconds / 86400 + 719499 ≤ 365 * (1969 + fuel)
    → fuel < 10000000
    → (c : Calendar) × (convert_utc_to_calendar fuel seconds ≡ some c) × IsCalendar seconds c
unfolding convert_utc_to_calendar
convert_utc_to_calendar-IsCalendar fuel seconds small enough bound =
    let days = seconds / 60 / 60 / 24 + 719499 in
    let (year, e, after, high, (behind, upto)) =
      year_loop_lem fuel 1969 days (omega arith) (omega arith) (omega arith) in
    (
      from_march year (days - year_to_days year) (seconds / 60 / 60 % 24) (seconds / 60 % 60)
          (seconds % 60),
      ap
          (λ (o : Option ℕ). elim o [
            | none ↦ none
            | some y ↦ some (
                from_march y (days - year_to_days y) (seconds / 60 / 60 % 24) (seconds / 60 % 60)
                  (seconds % 60))
          ])
          e,
      year-IsCalendar year seconds (omega arith) (omega arith) behind upto,
    )
