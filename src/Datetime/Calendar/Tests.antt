-- ===== src/Datetime/Calendar/Tests.antt =====
-- Runs of calendar dates, and the theorems at concrete inputs.
use go_pkgs.Common.{ℕ, ◌≤◌, ◌≡◌, ◌≢◌, refl, some, arith}
use go_pkgs.Datetime.Year.{is_leap, days_in_month, days_in_month_leap, days_in_year}
use go_pkgs.Datetime.Dates.{new_date, day_of_year}
use go_pkgs.Datetime.Dates.Packing.{is_date, table}
use go_pkgs.Datetime.Dates.Cycle.{next_date}
use go_pkgs.Datetime.YearDay
use go_pkgs.Datetime.YearDay.{new_year_day}
use go_pkgs.Datetime.YearDay.RoundTrip.{date-day_of_year}
use go_pkgs.Datetime.Calendar
use go_pkgs.Datetime.Calendar.{new_calendar_date, of_year_day}
use go_pkgs.Datetime.Calendar.Cycle.{tomorrow-next_date, yesterday_fails}
use go_pkgs.Datetime.TimeOfDay
use go_pkgs.Datetime.TimeOfDay.{normalize_to_last}

of_year_day_runs : of_year_day (new_year_day 2024 60) ≡ some (new_calendar_date 2024 2 29)
unfolding of_year_day new_year_day YearDay.date new_date new_calendar_date days_in_year is_leap
    YearDay.year days_in_month_leap
of_year_day_runs = refl

tomorrow-next_date_example :
    Calendar.tomorrow (new_calendar_date 2023 12 31) ≡ some (new_calendar_date 2024 1 1)
unfolding is_date next_date is_leap days_in_month
tomorrow-next_date_example = tomorrow-next_date 2023 12 31 (omega arith) refl

-- The last day of February, then March 1.
yesterday_fails_example :
    (t : ℕ) × (Calendar.tomorrow (new_calendar_date 2023 2 28) ≡ some t)
    × (Calendar.yesterday t ≢ some (new_calendar_date 2023 2 28))
unfolding table is_leap days_in_month
yesterday_fails_example =
    yesterday_fails 2023 3 (omega arith) (omega arith) (omega arith) (omega arith)

date-day_of_year_example :
    (n : ℕ) × (day_of_year (new_date 12 31) 2024 ≡ some n)
    × (1 ≤ n)
    × (n ≤ days_in_year 2024)
    × (YearDay.date (new_year_day 2024 n) ≡ some (new_date 12 31))
unfolding is_date is_leap days_in_month_leap
date-day_of_year_example = date-day_of_year 2024 12 31 (omega arith) refl

normalize_to_last_example :
    TimeOfDay.normalize (TimeOfDay.new_time_of_day 9 30 0) ≡ TimeOfDay.new_time_of_day 23 59 59
normalize_to_last_example = normalize_to_last 9 30 0 (omega arith) (omega arith) (omega arith)
