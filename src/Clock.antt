-- ===== src/Clock.antt =====
-- pal/clock: the calendar of a count of seconds since 1970, and that of the system.
pub mod Reference
pub mod Years
pub mod Months
pub mod Convert
use mblue.Common.{
  ℕ, zero, suc, ◌+◌, ◌-◌, ◌*◌, ◌/◌, ◌%◌, ◌^◌, Bool, true, false, not, ◌&&◌, ◌||◌, List, [], ◌∷◌,
  ltb, ◌==◌, if◌then◌else◌, Option, none, some,
}
use mblue.Common.Int.{ℤ, pos, negsuc, int_eq}
use mblue.Common.Words.{u8, u16, u32}

-- `leap_year`
unfoldable pub leap_year : ℕ → ℕ
leap_year y = if (y % 4 == 0) && not (y % 100 == 0) || (y % 400 == 0) then 1 else 0

-- The macro YEAR_TO_DAYS of a `uint32_t`
unfoldable pub year_to_days : ℕ → ℕ
year_to_days y = u32 (y * 365 + y / 4 - y / 100 + y / 400)

-- What `convert_utc_to_calendar` writes.
pub record Calendar : Type 0 where
  pub year : ℕ
  pub month : ℕ
  pub day : ℕ
  pub hour : ℕ
  pub minute : ℕ
  pub second : ℕ

-- The loop for the year; `none` when the fuel is used up.
unfoldable pub year_loop : ℕ → ℕ → ℕ → Option ℕ
unfolding year_to_days
year_loop zero year seconds = none
year_loop (suc fuel) year seconds =
    let rest = year_loop fuel (u32 (year + 1)) seconds in
    if ltb (u32 (year_to_days (u32 (year + 1)) + 30)) seconds then rest else some year

-- The loop for the month, with 12 - month rounds to go.
unfoldable pub month_loop : ℕ → ℕ → ℕ → ℕ
month_loop zero month seconds = month
month_loop (suc left) month seconds =
    let rest = month_loop left (month + 1) seconds in
    if ltb (367 * (month + 1) / 12) seconds then rest else month

-- The calendar of day `seconds` of the year that begins in March.
unfoldable pub from_march : ℕ → ℕ → ℕ → ℕ → ℕ → Calendar
unfolding month_loop
from_march year seconds hour minute second =
    let march = month_loop 11 1 seconds in
    let month = march + 2 in
    record {
      year = u16 (if ltb 12 month then u32 (year + 1) else year);
      month = u8 (if ltb 12 month then month - 12 else month);
      day = u8 (seconds - 367 * march / 12);
      hour = u8 hour;
      minute = u8 minute;
      second = u8 second;
    }

unfoldable pub convert_utc_to_calendar : ℕ → ℕ → Option Calendar
unfolding year_loop from_march
convert_utc_to_calendar fuel seconds =
    let days = seconds / 60 / 60 / 24 + 719499 in
    elim (year_loop fuel 1969 days) [
      | none ↦ none
      | some year ↦ some (
          from_march year (days - year_to_days year) (seconds / 60 / 60 % 24) (seconds / 60 % 60)
            (seconds % 60))
    ]

-- What `localtime` returns, a `struct tm`.
pub record Tm : Type 0 where
  pub tm_year : ℕ
  pub tm_mon : ℕ
  pub tm_mday : ℕ
  pub tm_hour : ℕ
  pub tm_min : ℕ
  pub tm_sec : ℕ

-- `get_system_calendar` into a calendar; the argument is the answer of `localtime`, `none` for NULL.
unfoldable pub get_system_calendar : Option Tm → Calendar → ℤ × Calendar
get_system_calendar none c = (negsuc 0, c)
get_system_calendar (some p) c = (
  pos 0,
  record {
    year = u16 (1900 + p.tm_year);
    month = u8 (1 + p.tm_mon);
    day = u8 p.tm_mday;
    hour = u8 p.tm_hour;
    minute = u8 p.tm_min;
    second = u8 p.tm_sec;
  },
)

-- `mblue_get_calendar` over the clock's `_mce`; `none` is NULL.
unfoldable pub mblue_get_calendar : Option Tm → Calendar → Option Calendar × Calendar
unfolding get_system_calendar
mblue_get_calendar p mce =
    let (rc, filled) = get_system_calendar p mce in
    (if int_eq rc (pos 0) then some filled else none, filled)

-- The clock cannot be set.
unfoldable pub set_system_calendar : Calendar → ℤ
set_system_calendar c = negsuc 0

unfoldable pub mblue_set_calendar : Calendar → ℤ
unfolding set_system_calendar
mblue_set_calendar calendar = set_system_calendar calendar

unfoldable pub set_system_utc_tick : ℕ → ℤ
set_system_utc_tick seconds = negsuc 0

unfoldable pub mblue_set_utc : ℕ → ℤ
unfolding set_system_utc_tick
mblue_set_utc seconds = set_system_utc_tick seconds
