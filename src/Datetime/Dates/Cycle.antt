-- ===== src/Datetime/Dates/Cycle.antt =====
-- Tomorrow and Yesterday go round the dates of a year.
use go_pkgs.Common.{
  ℕ, ◌+◌, ◌≡◌, refl, Bool, true, false, not, ◌&&◌, ◌||◌, some, arith, ◌==◌, if◌then◌else◌,
}
use go_pkgs.Common.Finite.{every, every_holds, yields, yields→eq}
use go_pkgs.Datetime.Year.{days_in_month, days_in_month_leap, is_leap}
use go_pkgs.Datetime.Dates.{new_date, tomorrow_in, yesterday_in, tomorrow, yesterday}
use go_pkgs.Datetime.Dates.Packing.{table, is_date, is_date_bounds, table_for_year}

-- The date after, and the date before, written as month and day.
unfoldable pub next_date : Bool → ℕ → ℕ → ℕ × ℕ
unfolding is_date
next_date leap m d =
    if is_date leap m (d + 1) then (m, d + 1) else if m == 12 then (1, 1) else (m + 1, 1)

check_cycle : Bool → ℕ → ℕ → Bool
unfolding is_date
check_cycle leap m d =
    let (m', d') = next_date leap m d in
    not (is_date leap m d)
    || is_date leap m' d'
      && yields (tomorrow_in (table leap) (new_date m d)) (new_date m' d')
      && yields (yesterday_in (table leap) (new_date m' d')) (new_date m d)

cycle_table : (leap : Bool) → every (λ m. every (check_cycle leap m) 32) 13 ≡ true
unfolding every check_cycle next_date tomorrow_in yesterday_in days_in_month days_in_month_leap
cycle_table true = refl
cycle_table false = refl

-- A check of every month and every day holds of each date.
pub dates_hold :
    (p : ℕ → ℕ → Bool) (leap : Bool) (m d : ℕ)
    → every (λ m. every (p m) 32) 13 ≡ true
    → is_date leap m d ≡ true
    → p m d ≡ true
dates_hold p leap m d all h =
    let (_, hm, _, hd) = is_date_bounds leap m d h in
    every_holds (p m) 32 (every_holds (λ m. every (p m) 32) 13 all m hm) d hd

cycle_in :
    (leap : Bool) (m d : ℕ)
    → is_date leap m d ≡ true
    → let (m', d') = next_date leap m d in
      (is_date leap m' d' ≡ true)
      × (tomorrow_in (table leap) (new_date m d) ≡ some (new_date m' d'))
      × (yesterday_in (table leap) (new_date m' d') ≡ some (new_date m d))
unfolding check_cycle
cycle_in leap m d h =
    let (m', d') = next_date leap m d in
    let checked = dates_hold (check_cycle leap) leap m d (cycle_table leap) h in
    (
      ground arith,
      yields→eq (tomorrow_in (table leap) (new_date m d)) _ (ground arith),
      yields→eq (yesterday_in (table leap) (new_date m' d')) _ (ground arith),
    )

-- For every date of a year Tomorrow never panics and gives the next day of the month, or else the
-- first of the next month, or else January 1; and Yesterday of that gives the date back.
pub yesterday-tomorrow :
    (year m d : ℕ)
    → is_date (is_leap year) m d ≡ true
    → let (m', d') = next_date (is_leap year) m d in
      (is_date (is_leap year) m' d' ≡ true)
      × (tomorrow (new_date m d) year ≡ some (new_date m' d'))
      × (yesterday (new_date m' d') year ≡ some (new_date m d))
unfolding tomorrow yesterday
yesterday-tomorrow year m d h = rw (table_for_year year) (cycle_in (is_leap year) m d h)
