-- ===== src/Datetime/YearDay.antt =====
-- The YearDay of datetime/yearplace.go: a uint32, the year in the high 16 bits and the day of the year
-- in the low ones.
pub mod RoundTrip
use go_pkgs.Common.{
  ℕ, ◌+◌, ◌-◌, ◌*◌, ◌/◌, ◌%◌, ◌^◌, bit_or, List, [], ◌∷◌, Option, none, some, ltb, leb,
  if◌then◌else◌, ◌>>=◌,
}
use go_pkgs.Datetime.Year.{is_leap, days_in_year, days_in_month, days_in_month_leap}
use go_pkgs.Datetime.Dates.{Date, new_date, day_of_year}

unfoldable pub year : ℕ → ℕ
year yd = yd / 2 ^ 16

unfoldable pub day : ℕ → ℕ
day yd = yd % 2 ^ 16

-- The loop of dateFromDay over the months left, from `month` on; `none` is its panic.
unfoldable pub date_from_day : ℕ → List ℕ → ℕ → Option Date
date_from_day d [] month = none
date_from_day d (dm ∷ rest) month =
    let later = date_from_day (d - dm) rest (month + 1) in
    if leb d dm then some (new_date month d) else later

unfoldable pub date : ℕ → Option Date
unfolding date_from_day
date yd =
    let d = yd % 2 ^ 16 in
    if leb d 0
    then some (new_date 1 1)
    else if is_leap (yd / 2 ^ 16)
    then (if ltb 366 d then some (new_date 12 31) else date_from_day d days_in_month_leap 1)
    else (if ltb 365 d then some (new_date 12 31) else date_from_day d days_in_month 1)

-- NewYearDay, for a day that is not negative.
unfoldable pub new_year_day : ℕ → ℕ → ℕ
new_year_day y d = let n = days_in_year y in bit_or (y * 2 ^ 16 % 2 ^ 32) (if ltb n d then n else d)

-- Date.YearDay
unfoldable pub year_day : Date → ℕ → Option ℕ
year_day d y = do n ← day_of_year d y; some (new_year_day y n)
