-- ===== src/Tests/Clock.antt =====
-- Runs of the calendar.
use mblue.Common.{ℕ, ◌≡◌, refl, some, arith}
use mblue.Clock.{Calendar, convert_utc_to_calendar, year_loop, year_to_days, from_march, month_loop}
use mblue.Clock.Convert.{IsCalendar, convert_utc_to_calendar-IsCalendar}

-- 2004-02-29 12:34:56
abbrev leap_day : ℕ
leap_day = 1078058096

leap_day_date :
    convert_utc_to_calendar 40 leap_day
    ≡ some (record { year = 2004; month = 2; day = 29; hour = 12; minute = 34; second = 56 })
unfolding convert_utc_to_calendar year_loop year_to_days from_march month_loop
leap_day_date = refl

convert_utc_to_calendar-IsCalendar_example :
    (c : Calendar) × (convert_utc_to_calendar 60 leap_day ≡ some c) × IsCalendar leap_day c
convert_utc_to_calendar-IsCalendar_example =
    convert_utc_to_calendar-IsCalendar 60 leap_day (omega arith) (omega arith) (omega arith)
