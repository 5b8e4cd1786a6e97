-- ===== src/Log/Terminal.antt =====
-- What the log manager hands to its stream.
use mblue.Common.{
  ℕ, suc, ◌+◌, ◌-◌, ◌/◌, ◌%◌, ◌≤◌, ◌<◌, ◌≡◌, ◌≢◌, refl, List, [], ◌∷◌, ◌++◌, ltb, if_intro, some,
  take, length, length-append, arith,
}
use mblue.Clock.{Calendar, Tm, get_system_calendar, mblue_get_calendar}
use mblue.Log.{date_text, line}
use mblue.Log.Text.{IsText, append-IsText, decimal, decimal-IsText}

-- The calendar's numbers have as many digits as the buffer of the date provides for.
pub record IsShort (c : Calendar) : Type 0 where
  pub year : c.year < 10000
  pub month : c.month < 100
  pub day : c.day < 100
  pub hour : c.hour < 100
  pub minute : c.minute < 100
  pub second : c.second < 100

-- What C documents of `localtime`, before the year 10000.
pub record IsTm (p : Tm) : Type 0 where
  pub year : p.tm_year < 8100
  pub month : p.tm_mon < 12
  pub day : p.tm_mday < 32
  pub hour : p.tm_hour < 24
  pub minute : p.tm_min < 60
  pub second : p.tm_sec < 61

-- The calendars that the clock hands out until then are short enough.
pub mblue_get_calendar-IsShort :
    (p : Tm) (mce : Calendar)
    → IsTm p
    → (c : Calendar) × (mblue_get_calendar (some p) mce ≡ (some c, c)) × IsShort c
unfolding mblue_get_calendar get_system_calendar
mblue_get_calendar-IsShort p mce valid = (
  (get_system_calendar (some p) mce).1,
  refl,
  record {
    year = omega (arith, valid.year);
    month = omega (arith, valid.month);
    day = omega (arith, valid.day);
    hour = omega (arith, valid.hour);
    minute = omega (arith, valid.minute);
    second = omega (arith, valid.second);
  },
)

length-decimal-suc :
    (fuel n k : ℕ) → length (decimal fuel (n / 10)) ≤ k → length (decimal (suc fuel) n) ≤ suc k
unfolding decimal
length-decimal-suc fuel n k h =
    if_intro (λ rest. length (rest ++ ((48 + n % 10) ∷ [])) ≤ suc k) (ltb n 10) {x = []}
      {y = decimal fuel (n / 10)} (λ digit. omega arith)
      (λ digits. omega (arith, h, length-append (decimal fuel (n / 10)) ((48 + n % 10) ∷ [])))

length-decimal_digit : (fuel n : ℕ) → n < 10 → length (decimal (suc fuel) n) ≤ 1
unfolding decimal
length-decimal_digit fuel n h =
    if_intro (λ rest. length (rest ++ ((48 + n % 10) ∷ [])) ≤ 1) (ltb n 10) {x = []}
      {y = decimal fuel (n / 10)} (λ digit. omega arith) (λ digits. absurd (ground (arith, digits)))

length-decimal_2 : (fuel n : ℕ) → n < 100 → length (decimal (suc (suc fuel)) n) ≤ 2
length-decimal_2 fuel n h =
    length-decimal-suc (suc fuel) n 1 (length-decimal_digit fuel (n / 10) (omega arith))

length-decimal_4 : (fuel n : ℕ) → n < 10000 → length (decimal (suc (suc (suc (suc fuel)))) n) ≤ 4
length-decimal_4 fuel n h = length-decimal-suc (suc (suc (suc fuel))) n 3 (
    length-decimal-suc (suc (suc fuel)) (n / 10) 2
      (length-decimal_2 fuel (n / 10 / 10) (omega arith)))

abbrev part : ℕ → ℕ → List ℕ
part separator n = separator ∷ decimal 10 n

part-IsText : (separator n : ℕ) → separator ≢ 0 → IsText (part separator n)
part-IsText separator n ne = (ne, decimal-IsText 10 n)

-- A part of two digits in front of others.
length-part :
    (separator n k : ℕ) (rest : List ℕ)
    → n < 100
    → length rest ≤ k
    → length (part separator n ++ rest) ≤ 3 + k
length-part separator n k rest h room =
    omega (arith, length-decimal_2 8 n h, room, length-append (part separator n) rest)

pub length-date_text : (c : Calendar) → IsShort c → length (date_text c) ≤ 19
unfolding date_text
length-date_text c short =
    let seconds = part b':' c.second in
    let minutes = part b':' c.minute ++ seconds in
    let hours = part b' ' c.hour ++ minutes in
    let days = part b'-' c.day ++ hours in
    let months = part b'-' c.month ++ days in
    let in_seconds : length seconds ≤ 3 = omega (arith, length-decimal_2 8 c.second short.second) in
    let in_minutes = length-part b':' c.minute 3 seconds short.minute in_seconds in
    let in_hours = length-part b' ' c.hour 6 minutes short.hour in_minutes in
    let in_days = length-part b'-' c.day 9 hours short.day in_hours in
    let in_months = length-part b'-' c.month 12 days short.month in_days in
    omega (
      arith,
      in_months,
      length-decimal_4 6 c.year short.year,
      length-append (decimal 10 c.year) months,
    )

pub date_text-IsText : (c : Calendar) → IsText (date_text c)
unfolding date_text
date_text-IsText c =
    let seconds = part b':' c.second in
    let minutes = part b':' c.minute ++ seconds in
    let hours = part b' ' c.hour ++ minutes in
    let days = part b'-' c.day ++ hours in
    let months = part b'-' c.month ++ days in
    append-IsText (decimal 10 c.year) months (decimal-IsText 10 c.year) (
      append-IsText (part b'-' c.month) days (part-IsText b'-' c.month (omega arith)) (
        append-IsText (part b'-' c.day) hours (part-IsText b'-' c.day (omega arith)) (
          append-IsText (part b' ' c.hour) minutes (part-IsText b' ' c.hour (omega arith)) (
            append-IsText (part b':' c.minute) seconds (part-IsText b':' c.minute (omega arith))
              (part-IsText b':' c.second (omega arith))))))

-- The text of a line behind its date, cut at the end of the cache.
abbrev pub shown : Calendar → List ℕ → List ℕ
shown c data_text = date_text c ++ take (127 - length (date_text c)) (line data_text)
