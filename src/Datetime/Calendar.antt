-- ===== src/Datetime/Calendar.antt =====
-- datetime/calendar.go: a CalendarDate is a uint32, the year in the high 16 bits, then a byte each for
-- the month and the day.
pub mod Cycle
mod Tests
use go_pkgs.Common.{
  ℕ, ◌+◌, ◌-◌, ◌*◌, ◌/◌, ◌%◌, ◌^◌, min, max, bit_or, Bool, ◌&&◌, Option, some, get_elem?, leb, ◌==◌,
  if◌then◌else◌, ◌>>=◌,
}
use go_pkgs.Datetime.Year.{is_leap, days_in_month_for_year, days_of, month_index}
use go_pkgs.Datetime.Dates.{Date, clamp_day, calc_day_of_year}
use go_pkgs.Datetime.YearDay

-- `uint32(year&0xffff)<<16 | uint32(month)<<8 | uint32(day)`, for numbers that are not negative.
unfoldable pub new_calendar_date : ℕ → ℕ → ℕ → ℕ
new_calendar_date year month day =
    bit_or (bit_or (year % 2 ^ 16 * 2 ^ 16) (month * 2 ^ 8)) (day % 2 ^ 32)

-- newCalendarDate8, whose day is a uint8.
unfoldable pub new_calendar_date8 : ℕ → ℕ → ℕ → ℕ
unfolding new_calendar_date
new_calendar_date8 year month day = new_calendar_date year month day

unfoldable pub year : ℕ → ℕ
year cd = cd / 2 ^ 16 % 2 ^ 16

unfoldable pub month : ℕ → ℕ
month cd = cd / 2 ^ 8 % 2 ^ 8

unfoldable pub day : ℕ → ℕ
day cd = cd % 2 ^ 8

-- CalendarDate.Date
unfoldable pub date : ℕ → Date
date cd = cd % 2 ^ 16

unfoldable pub normalize : ℕ → Bool → Option ℕ
normalize cd first_of_month = do
  let m = min (max (month cd) 1) 12
  dm ← get_elem? (days_in_month_for_year (year cd)) (month_index m)
  some (new_calendar_date (year cd) m (clamp_day (day cd) dm first_of_month))

unfoldable pub day_of_year : ℕ → Option ℕ
day_of_year cd = calc_day_of_year (cd / 2 ^ 8 % 2 ^ 8) (cd % 2 ^ 8) (is_leap (year cd))

unfoldable pub tomorrow : ℕ → Option ℕ
tomorrow cd =
    if month cd == 12 && day cd == 31 then some (new_calendar_date (year cd + 1) 1 1) else (do
      dm ← days_of (year cd) (month cd)
      some (
          if day cd == dm
          then new_calendar_date (year cd) ((month cd + 1) % 256) 1
          else new_calendar_date (year cd) (month cd) (day cd + 1)))

unfoldable pub yesterday : ℕ → Option ℕ
yesterday cd =
    if month cd == 1 && day cd == 1
    then some (new_calendar_date8 ((year cd + 2 ^ 16 - 1) % 2 ^ 16) 12 31)
    else if day cd == 1
    then (do
      dm ← days_of (year cd) (month cd)
      some (new_calendar_date8 (year cd) (month_index (month cd)) dm))
    else some (new_calendar_date8 (year cd) (month cd) ((day cd + 255) % 256))

-- YearDay.CalendarDate
unfoldable pub of_year_day : ℕ → Option ℕ
of_year_day yd = do
  d ← YearDay.date yd
  some (new_calendar_date (YearDay.year yd) (d / 2 ^ 8) (d % 2 ^ 8))
