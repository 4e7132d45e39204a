-- ===== src/Datetime/Dates.antt =====
-- datetime/dates.go: a Date is a uint16, the month in the high byte and the day in the low one.
pub mod Packing
pub mod Normalize
pub mod Cycle
mod Tests
use go_pkgs.Common.{
  ℕ, ◌+◌, ◌-◌, ◌*◌, ◌/◌, ◌%◌, min, max, bit_or, Bool, true, false, ◌&&◌, List, Option, none, some,
  get_elem?, ltb, leb, ◌==◌, if◌then◌else◌, ◌>>=◌,
}
use go_pkgs.Datetime.Year.{
  is_leap, days_in_month, days_in_month_leap, day_of_year_table, day_of_year_leap, month_index,
  days_in_month_for_year,
}

abbrev pub Date : Type 0
Date = ℕ

unfoldable pub new_date8 : ℕ → ℕ → Date
new_date8 month day = bit_or (month % 256 * 256) (day % 256)

-- NewDate, for a day that is not negative.
unfoldable pub new_date : ℕ → ℕ → Date
unfolding new_date8
new_date month day = new_date8 month day

unfoldable pub month : Date → ℕ
month d = d / 256

unfoldable pub day : Date → ℕ
day d = d % 256

-- The day of Normalize, from the length of its month.
abbrev pub clamp_day : ℕ → ℕ → Bool → ℕ
clamp_day d dm first_of_month = min (if d == 0 then (if first_of_month then 1 else dm) else d) dm

unfoldable pub normalize : Date → ℕ → Bool → Option Date
normalize d year first_of_month = do
  let m = min (max (d / 256) 1) 12
  dm ← get_elem? (days_in_month_for_year year) (month_index m)
  some (new_date8 m (clamp_day (d % 256) dm first_of_month))

-- calcDayOfYear
unfoldable pub calc_day_of_year : ℕ → ℕ → Bool → Option ℕ
calc_day_of_year m d leap = do
  dm ← get_elem? (if leap then days_in_month_leap else days_in_month) (month_index m)
  before ← get_elem? (if leap then day_of_year_leap else day_of_year_table) (month_index m)
  some (before + (if ltb dm d then dm else d))

unfoldable pub day_of_year : Date → ℕ → Option ℕ
day_of_year d year = calc_day_of_year (d / 256 % 256) (d % 256) (is_leap year)

-- Date.tomorrow, over the days of each month. `&&` and the lookups are made as in the source.
unfoldable pub tomorrow_in : List ℕ → Date → Option Date
unfolding new_date
tomorrow_in table d =
    let dd = d % 256 in
    let m = d / 256 in
    if m == 12 && dd == 31 then some (new_date 1 1) else (do
      dm ← get_elem? table (month_index m)
      some (if leb dm dd then new_date ((m + 1) % 256) 1 else new_date m ((dd + 1) % 256)))

unfoldable pub tomorrow : Date → ℕ → Option Date
tomorrow d year = tomorrow_in (days_in_month_for_year year) d

-- Date.yesterday
unfoldable pub yesterday_in : List ℕ → Date → Option Date
unfolding new_date
yesterday_in table d =
    let dd = d % 256 in
    let m = d / 256 in
    if m == 1 && dd == 1
    then some (new_date 12 31)
    else if leb dd 1
    then (do dm ← get_elem? table ((m + 254) % 256); some (new_date8 (month_index m) dm))
    else some (new_date8 m (dd - 1))

unfoldable pub yesterday : Date → ℕ → Option Date
yesterday d year = yesterday_in (days_in_month_for_year year) d
