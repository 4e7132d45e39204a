-- ===== src/Datetime/YearDay/RoundTrip.antt =====
-- The dates of a year and its days by number are one another's inverse.
use go_pkgs.Common.{
  ℕ, ◌+◌, ◌*◌, ◌/◌, ◌%◌, ◌^◌, ◌≤◌, ◌<◌, ◌≡◌, refl, ◌∙◌, inl, inr, Bool, true, false, not, ◌&&◌,
  ◌||◌, Option, none, some, arith, leb, ltb, if◌then◌else◌, Bool-cases, Option-cases,
}
use go_pkgs.Common.Bits.{bit_or-disjoint}
use go_pkgs.Common.Finite.{every, every_holds, yields, yields→eq}
use go_pkgs.Datetime.Year.{
  days_in_month, days_in_month_leap, day_of_year_table, day_of_year_leap, is_leap, days_in_year,
}
use go_pkgs.Datetime.Dates.{Date, new_date, calc_day_of_year, day_of_year}
use go_pkgs.Datetime.Dates.Packing.{table, is_date}
use go_pkgs.Datetime.Dates.Cycle.{dates_hold}
use go_pkgs.Datetime.YearDay
use go_pkgs.Datetime.YearDay.{date_from_day, new_year_day}

-- The days of a year of this kind.
abbrev pub year_length : Bool → ℕ
year_length true = 366
year_length false = 365

number : Bool → Date → Option ℕ
number leap d = calc_day_of_year (d / 256 % 256) (d % 256) leap

check_date : Bool → ℕ → ℕ → Bool
check_date leap m d = not (is_date leap m d) || elim (number leap (new_date m d)) [
  | none ↦ false
  | some n ↦
      leb 1 n && leb n (year_length leap) && yields (date_from_day n (table leap) 1) (new_date m d)
]

check_number : Bool → ℕ → Bool
check_number leap n =
    not (leb 1 n && leb n (year_length leap))
    || elim (date_from_day n (table leap) 1) [ none ↦ false | some d ↦ yields (number leap d) n ]

date_table : (leap : Bool) → every (λ m. every (check_date leap m) 32) 13 ≡ true
unfolding every check_date number date_from_day calc_day_of_year is_date new_date days_in_month
    days_in_month_leap day_of_year_table day_of_year_leap
date_table true = refl
date_table false = refl

number_table : (leap : Bool) → every (check_number leap) 367 ≡ true
unfolding every check_number number date_from_day calc_day_of_year table new_date days_in_month
    days_in_month_leap day_of_year_table day_of_year_leap
number_table true = refl
number_table false = refl

days_in_year-length : (y : ℕ) → days_in_year y ≡ year_length (is_leap y)
unfolding days_in_year
days_in_year-length y = elim (Bool-cases (is_leap y)) [ inl e ↦ rw e refl | inr e ↦ rw e refl ]

year_length-le : (leap : Bool) → year_length leap ≤ 366
year_length-le true = omega arith
year_length-le false = omega arith

module _ (y n : ℕ) (small : y < 2 ^ 16) (lower : 1 ≤ n) (upper : n ≤ year_length (is_leap y)) where
  new_year_day-eq : new_year_day y n ≡ y * 2 ^ 16 + n
  unfolding new_year_day
  new_year_day-eq =
      let inside : (if ltb (year_length (is_leap y)) n then year_length (is_leap y) else n) ≡ n =
        ground arith in
      let kept : y * 2 ^ 16 % 2 ^ 32 ≡ y * 2 ^ 16 = omega arith in
      rw (days_in_year-length y, inside, kept)
        (bit_or-disjoint 16 y n (omega (arith, year_length-le (is_leap y))))

  -- YearDay keeps the year and the day.
  pub parts : (YearDay.year (new_year_day y n) ≡ y) × (YearDay.day (new_year_day y n) ≡ n)
  unfolding YearDay.year YearDay.day
  parts = omega (arith, new_year_day-eq, year_length-le (is_leap y))

  date-number : YearDay.date (new_year_day y n) ≡ date_from_day n (table (is_leap y)) 1
  unfolding YearDay.date table
  date-number =
      let whole = new_year_day-eq in
      let low : (y * 2 ^ 16 + n) % 2 ^ 16 ≡ n = omega (arith, year_length-le (is_leap y)) in
      let high : (y * 2 ^ 16 + n) / 2 ^ 16 ≡ y = omega (arith, year_length-le (is_leap y)) in
      let some_day : leb n 0 ≡ false = ground arith in
      rw (whole, low, high, some_day)
        (elim (Bool-cases (is_leap y)) [
          | inl e ↦ let fits : ltb 366 n ≡ false = ground arith in rw (e, fits) refl
          | inr e ↦ let fits : ltb 365 n ≡ false = ground arith in rw (e, fits) refl
        ])

-- Date.DayOfYear and YearDay.Date, from the date: for every date of a year of 16 bits DayOfYear never
-- panics, its number lies between 1 and the days of that year, and Date of that day is the date.
pub date-day_of_year :
    (y m d : ℕ)
    → y < 2 ^ 16
    → is_date (is_leap y) m d ≡ true
    → (n : ℕ) × (day_of_year (new_date m d) y ≡ some n)
      × (1 ≤ n)
      × (n ≤ days_in_year y)
      × (YearDay.date (new_year_day y n) ≡ some (new_date m d))
unfolding day_of_year check_date
date-day_of_year y m d small h = elim (Option-cases (number (is_leap y) (new_date m d))) [
  | inl nothing ↦ absurd (ground (arith, checked))
  | inr (n, e) ↦
      let lower : 1 ≤ n = ground (arith, checked) in
      let upper : n ≤ year_length (is_leap y) = ground (arith, checked) in
      (
        n,
        unfold number in e,
        lower,
        omega (arith, days_in_year-length y),
        date-number y n small lower upper
            ∙ yields→eq (date_from_day n (table (is_leap y)) 1) (new_date m d)
                (ground (arith, checked)),
      )
]
  where
    checked : check_date (is_leap y) m d ≡ true
    checked = dates_hold (check_date (is_leap y)) (is_leap y) m d (date_table (is_leap y)) h

-- The same from the number: every day of a year, numbered from 1, is a date whose DayOfYear is that
-- number.
pub day_of_year-date :
    (y n : ℕ)
    → y < 2 ^ 16
    → 1 ≤ n
    → n ≤ days_in_year y
    → (d : Date) × (YearDay.date (new_year_day y n) ≡ some d) × (day_of_year d y ≡ some n)
unfolding day_of_year check_number
day_of_year-date y n small lower upper =
    elim (Option-cases (date_from_day n (table (is_leap y)) 1)) [
      | inl nothing ↦ absurd (ground (arith, checked, fits))
      | inr (d, e) ↦ (
        d,
        date-number y n small lower fits ∙ e,
        unfold number in yields→eq (number (is_leap y) d) n (ground (arith, checked, fits)),
      )
    ]
  where
    fits : n ≤ year_length (is_leap y)
    fits = omega (arith, days_in_year-length y)

    checked : check_number (is_leap y) n ≡ true
    checked =
        every_holds (check_number (is_leap y)) 367 (number_table (is_leap y)) n
          (omega (arith, fits, year_length-le (is_leap y)))
