-- ===== src/Datetime/Dates/Normalize.antt =====
-- Date.Normalize gives a date of the year.
use go_pkgs.Common.{
  ℕ, ◌-◌, ◌/◌, ◌%◌, ◌^◌, ◌≤◌, ◌<◌, ◌≡◌, refl, min, max, Bool, true, some, arith, get_or,
  get_elem?-eq-get_or,
}
use go_pkgs.Datetime.Year.{is_leap, month_index}
use go_pkgs.Datetime.Dates.{Date, new_date8, clamp_day, normalize}
use go_pkgs.Datetime.Dates.Packing.{
  table, is_date, is_date_bounds, new_date8-eq, table_for_year, month_lengths, twelve_months,
}

-- `d` is a date of the year.
abbrev pub IsDateOf : ℕ → Date → Type 0
IsDateOf year d = is_date (is_leap year) (d / 256) (d % 256) ≡ true

pub IsDateOf-lt : (year : ℕ) (d : Date) → IsDateOf year d → d < 2 ^ 16
IsDateOf-lt year d h = omega (arith, is_date_bounds (is_leap year) (d / 256) (d % 256) h)

-- The month that Normalize takes, and the length of it.
abbrev pub clamp_month : Date → ℕ
clamp_month d = min (max (d / 256) 1) 12

module _ (year : ℕ) (d : Date) (first : Bool) where
  abbrev length_of : ℕ
  length_of = get_or (table (is_leap year)) (clamp_month d - 1) 0

  -- Normalize never panics. It clamps the month to 1 to 12, takes the first or the last day of the
  -- month for a day of 0, clamps the day to the month's last, and leaves every date of the year as
  -- it is; so the result is always a date of the year.
  pub normalize_lem :
      (r : Date) × (normalize d year first ≡ some r)
      × IsDateOf year r
      × (r / 256 ≡ clamp_month d)
      × (r % 256 ≡ clamp_day (d % 256) length_of first)
      × (IsDateOf year d → r ≡ d)
  unfolding normalize is_date
  normalize_lem =
      let m = clamp_month d in
      let index : month_index m ≡ m - 1 = omega arith in
      let found =
        get_elem?-eq-get_or (table (is_leap year)) (m - 1) 0
          (omega (arith, twelve_months (is_leap year))) in
      let (long, short) = month_lengths (is_leap year) (m - 1) (omega arith) in
      let k = clamp_day (d % 256) length_of first in
      let bounds : (1 ≤ k) × (k ≤ length_of) = ground arith in
      let packed = new_date8-eq m k (omega arith) (omega arith) in
      let high : new_date8 m k / 256 ≡ m = omega arith in
      let low : new_date8 m k % 256 ≡ k = omega arith in
      (
        new_date8 m k,
        rw (table_for_year year, index, found) refl,
        rw (high, low) (ground arith),
        high,
        low,
        λ v. ground arith,
      )
