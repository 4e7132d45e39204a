-- ===== src/Datetime/Dates/Tests.antt =====
-- The theorems on dates at concrete inputs.
use go_pkgs.Common.{◌/◌, ◌%◌, ◌≡◌, refl, true, false, some, get_or}
use go_pkgs.Datetime.Year.{is_leap, days_in_month_leap}
use go_pkgs.Datetime.Dates.{Date, new_date, tomorrow, yesterday, normalize, clamp_day}
use go_pkgs.Datetime.Dates.Packing.{is_date, table}
use go_pkgs.Datetime.Dates.Cycle.{next_date, yesterday-tomorrow}
use go_pkgs.Datetime.Dates.Normalize.{IsDateOf, clamp_month, normalize_lem}

-- February 29.
yesterday-tomorrow_example :
    (is_date true 3 1 ≡ true)
    × (tomorrow (new_date 2 29) 2024 ≡ some (new_date 3 1))
    × (yesterday (new_date 3 1) 2024 ≡ some (new_date 2 29))
unfolding is_date next_date is_leap days_in_month_leap
yesterday-tomorrow_example = yesterday-tomorrow 2024 2 29 refl

-- The end of month 13.
normalize_lem_example :
    (r : Date) × (normalize 0x0d00 2023 false ≡ some r)
    × IsDateOf 2023 r
    × (r / 256 ≡ clamp_month 0x0d00)
    × (r % 256 ≡ clamp_day 0 (get_or (table (is_leap 2023)) 11 0) false)
    × (IsDateOf 2023 0x0d00 → r ≡ 0x0d00)
normalize_lem_example = normalize_lem 2023 0x0d00 false
