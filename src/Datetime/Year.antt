-- ===== src/Datetime/Year.antt =====
-- datetime/yearplace.go: leap years and the tables of days, which `init` fills. A Month is a uint8, and
-- a year a natural number. `none` is an index out of range.
use go_pkgs.Common.{
  ℕ, ◌+◌, ◌%◌, Bool, not, ◌&&◌, ◌||◌, List, [], ◌∷◌, Option, some, map, get_elem?, ◌==◌,
  if◌then◌else◌, ◌>>=◌,
}

unfoldable pub is_leap : ℕ → Bool
is_leap year = year % 4 == 0 && not (year % 100 == 0) || year % 400 == 0

unfoldable pub days_in_feb : ℕ → ℕ
unfolding is_leap
days_in_feb year = if is_leap year then 29 else 28

unfoldable pub days_in_year : ℕ → ℕ
days_in_year year = if is_leap year then 366 else 365

unfoldable pub days_in_month_for_year_init : ℕ → ℕ → ℕ
unfolding days_in_feb
days_in_month_for_year_init year month =
    if month == 2
    then days_in_feb year
    else if month == 4 || month == 6 || month == 9 || month == 11
    then 30
    else 31

-- The first loop of `init`, for a year of one kind.
unfoldable pub month_table : ℕ → List ℕ
unfolding days_in_month_for_year_init
month_table year =
    map (days_in_month_for_year_init year) (1 ∷ 2 ∷ 3 ∷ 4 ∷ 5 ∷ 6 ∷ 7 ∷ 8 ∷ 9 ∷ 10 ∷ 11 ∷ 12 ∷ [])

unfoldable pub days_in_month : List ℕ
unfolding month_table
days_in_month = month_table 2023

unfoldable pub days_in_month_leap : List ℕ
unfolding month_table
days_in_month_leap = month_table 2024

-- The second loop: the days before each month.
unfoldable pub cumulative : ℕ → List ℕ → List ℕ
cumulative before [] = []
cumulative before (d ∷ ds) = before ∷ cumulative (before + d) ds

unfoldable pub day_of_year_table : List ℕ
unfolding cumulative days_in_month
day_of_year_table = cumulative 0 days_in_month

unfoldable pub day_of_year_leap : List ℕ
unfolding cumulative days_in_month_leap
day_of_year_leap = cumulative 0 days_in_month_leap

-- `month-1` of a uint8.
abbrev pub month_index : ℕ → ℕ
month_index month = (month + 255) % 256

unfoldable pub days_in_month_for_year : ℕ → List ℕ
days_in_month_for_year year = if is_leap year then days_in_month_leap else days_in_month

-- DaysInMonth
unfoldable pub days_of : ℕ → ℕ → Option ℕ
days_of year month = get_elem? (days_in_month_for_year year) (month_index month)

unfoldable pub mirror_month : ℕ → Option ℕ
mirror_month month = do
  m ← get_elem? (10 ∷ 9 ∷ 8 ∷ 7 ∷ 6 ∷ 5 ∷ 4 ∷ 3 ∷ 2 ∷ 1 ∷ 0 ∷ 11 ∷ []) (month_index month)
  some (m + 1)
