-- ===== src/Datetime/Calendar/Cycle.antt =====
-- Tomorrow and Yesterday of calendar dates.
use go_pkgs.Common.{
  ℕ, ◌+◌, ◌-◌, ◌*◌, ◌%◌, ◌^◌, ◌≤◌, ◌<◌, ◌≡◌, ◌≢◌, refl, ap, ap₂, ◌∙◌, Bool, true, false, ◌&&◌, some,
  arith, get_or, get_elem?-eq-get_or, ◌==◌, if◌then◌else◌, ℕ_discrete,
}
use go_pkgs.Common.Bits.{bit_or-disjoint}
use go_pkgs.Datetime.Year.{is_leap, days_in_month, days_in_month_leap, days_of, month_index}
use go_pkgs.Datetime.Dates.Packing.{
  table, is_date, is_date_bounds, table_for_year, twelve_months, month_lengths,
}
use go_pkgs.Datetime.Dates.Cycle.{next_date}
use go_pkgs.Datetime.Calendar
use go_pkgs.Datetime.Calendar.{new_calendar_date, new_calendar_date8}

module _ (y m d : ℕ) (hy : y < 2 ^ 16) (hm : m < 256) (hd : d < 256) where
  pub new_calendar_date-eq : new_calendar_date y m d ≡ y * 2 ^ 16 + m * 2 ^ 8 + d
  unfolding new_calendar_date
  new_calendar_date-eq =
      let high : y % 2 ^ 16 * 2 ^ 16 ≡ y * 2 ^ 16 = omega arith in
      let low : d % 2 ^ 32 ≡ d = omega arith in
      let upper = bit_or-disjoint 16 y (m * 2 ^ 8) (omega arith) in
      let shape : y * 2 ^ 16 + m * 2 ^ 8 ≡ (y * 256 + m) * 2 ^ 8 = omega arith in
      rw (high, low, upper, shape) (bit_or-disjoint 8 (y * 256 + m) d (omega arith))

  -- Year, Month and Day give back what NewCalendarDate was given.
  pub fields :
      (Calendar.year (new_calendar_date y m d) ≡ y)
      × (Calendar.month (new_calendar_date y m d) ≡ m)
      × (Calendar.day (new_calendar_date y m d) ≡ d)
  unfolding Calendar.year Calendar.month Calendar.day
  fields = omega (arith, new_calendar_date-eq)

-- The days of month `m`.
abbrev pub month_days : ℕ → ℕ → ℕ
month_days y m = get_or (table (is_leap y)) (m - 1) 0

december : (leap : Bool) → get_or (table leap) 11 0 ≡ 31
unfolding table days_in_month days_in_month_leap
december true = refl
december false = refl

days_of-month_days : (y m : ℕ) → 1 ≤ m → m < 13 → days_of y m ≡ some (month_days y m)
unfolding days_of
days_of-month_days y m lower upper =
    let index : month_index m ≡ m - 1 = omega arith in
    rw (table_for_year y, index)
      (get_elem?-eq-get_or (table (is_leap y)) (m - 1) 0 (omega (arith, twelve_months (is_leap y))))

-- The year of the next date, in 16 bits.
abbrev pub next_year : ℕ → ℕ → ℕ → ℕ
next_year y m d = if m == 12 && d == 31 then (y + 1) % 2 ^ 16 else y

wraps : (y : ℕ) → new_calendar_date (y + 1) 1 1 ≡ new_calendar_date ((y + 1) % 2 ^ 16) 1 1
unfolding new_calendar_date
wraps y = let e : (y + 1) % 2 ^ 16 % 2 ^ 16 ≡ (y + 1) % 2 ^ 16 = omega arith in rw e refl

-- For every date of a year of 16 bits Tomorrow never panics and is the next day of the month, or else
-- the first of the next month, or else January 1 of the next year, which after 65535 is year 0.
pub tomorrow-next_date :
    (y m d : ℕ)
    → y < 2 ^ 16
    → is_date (is_leap y) m d ≡ true
    → let (m', d') = next_date (is_leap y) m d in
      Calendar.tomorrow (new_calendar_date y m d) ≡ some (new_calendar_date (next_year y m d) m' d')
unfolding Calendar.tomorrow next_date is_date
tomorrow-next_date y m d small h =
    let (low, high, first, last) = is_date_bounds (is_leap y) m d h in
    let (ey, em, ed) = fields y m d small (omega arith) (omega arith) in
    let next : (m + 1) % 256 ≡ m + 1 = omega arith in
    rw (ey, em, ed, days_of-month_days y m low high, next)
      (elim (ℕ_discrete m 12) [
        | yes e ↦ rw e (let h' = rw e at h in ground (arith, december (is_leap y), wraps y))
        | no ne ↦ ground arith
      ])

-- Yesterday of the first of a month, from February on, has the days of that month, not those of the
-- month before.
pub yesterday_of_first :
    (y m : ℕ)
    → y < 2 ^ 16
    → 2 ≤ m
    → m ≤ 12
    → Calendar.yesterday (new_calendar_date y m 1)
      ≡ some (new_calendar_date y (m - 1) (month_days y m))
unfolding Calendar.yesterday new_calendar_date8
yesterday_of_first y m small low high =
    let (ey, em, ed) = fields y m 1 small (omega arith) (omega arith) in
    let not_january : (m == 1 && 1 == 1) ≡ false = ground arith in
    let index : month_index m ≡ m - 1 = omega arith in
    rw (ey, em, ed, not_january, days_of-month_days y m (omega arith) (omega arith), index) refl

last_day-is_date :
    (leap : Bool) (m : ℕ) → 1 ≤ m → m ≤ 12 → is_date leap m (get_or (table leap) (m - 1) 0) ≡ true
unfolding is_date
last_day-is_date leap m low high = ground (arith, (month_lengths leap (m - 1) (omega arith)).0)

-- Yesterday does not undo Tomorrow at the end of a month that is followed, in its year, by a month of
-- another length: Tomorrow of its last day is some date, and Yesterday of that is not the last day.
pub yesterday_fails :
    (y m : ℕ)
    → y < 2 ^ 16
    → 2 ≤ m
    → m ≤ 12
    → month_days y (m - 1) ≢ month_days y m
    → let last = new_calendar_date y (m - 1) (month_days y (m - 1)) in
      (t : ℕ) × (Calendar.tomorrow last ≡ some t) × (Calendar.yesterday t ≢ some last)
unfolding next_date is_date
yesterday_fails y m small low high differ =
    let k = month_days y (m - 1) in
    let valid = last_day-is_date (is_leap y) (m - 1) (omega arith) (omega arith) in
    let (_, _, _, short) = is_date_bounds (is_leap y) (m - 1) k valid in
    let valid' = last_day-is_date (is_leap y) m (omega arith) high in
    let (_, _, _, short') = is_date_bounds (is_leap y) m (month_days y m) valid' in
    (
      new_calendar_date y m 1,
      tomorrow-next_date y (m - 1) k small valid
          ∙ ap some (ap₂ (λ a b. new_calendar_date a b.0 b.1) (ground arith) (next k)),
      λ e. differ (
          ground (
            arith,
            yesterday_of_first y m small low high,
            new_calendar_date-eq y (m - 1) k small (omega arith) (omega arith),
            new_calendar_date-eq y (m - 1) (month_days y m) small (omega arith) (omega arith),
          )),
    )
  where
    next : (k : ℕ) → next_date (is_leap y) (m - 1) (month_days y (m - 1)) ≡ (m, 1)
    next k = ground arith
