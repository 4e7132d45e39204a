-- ===== src/Datetime/Dates/Packing.antt =====
-- The parts of a Date, and the dates of a year.
use go_pkgs.Common.{
  ℕ, zero, suc, ◌+◌, ◌-◌, ◌*◌, ◌%◌, ◌≤◌, ◌<◌, ◌≡◌, refl, inl, inr, Bool, true, false, List, [], ◌∷◌,
  arith, length, get_or, leb, ◌&&◌, Bool-cases,
}
use go_pkgs.Common.Bits.{bit_or-disjoint}
use go_pkgs.Common.Finite.{every, every_holds}
use go_pkgs.Datetime.Year.{days_in_month, days_in_month_leap, is_leap, days_in_month_for_year}
use go_pkgs.Datetime.Dates.{new_date8}

pub new_date8-eq : (m d : ℕ) → m < 256 → d < 256 → new_date8 m d ≡ m * 256 + d
unfolding new_date8
new_date8-eq m d hm hd = omega (arith, bit_or-disjoint 8 (m % 256) (d % 256) (omega arith))

abbrev every_le : List ℕ → Bool
every_le [] = true
every_le (x ∷ xs) = leb x 31 && every_le xs

-- The days of each month of a year of either kind.
unfoldable pub table : Bool → List ℕ
table true = days_in_month_leap
table false = days_in_month

-- Month `m` of a year of this kind has a day `d`.
unfoldable pub is_date : Bool → ℕ → ℕ → Bool
unfolding table
is_date leap m d = leb 1 m && leb m 12 && leb 1 d && leb d (get_or (table leap) (m - 1) 0)

short : (xs : List ℕ) → every_le xs ≡ true → (i : ℕ) → get_or xs i 0 ≤ 31
short [] h i = omega arith
short (x ∷ xs) h zero = ground arith
short (x ∷ xs) h (suc i) = short xs (ground arith) i

table-short : (leap : Bool) → every_le (table leap) ≡ true
unfolding table days_in_month days_in_month_leap
table-short true = refl
table-short false = refl

pub is_date_bounds :
    (leap : Bool) (m d : ℕ) → is_date leap m d ≡ true → (1 ≤ m) × (m < 13) × (1 ≤ d) × (d < 32)
unfolding is_date
is_date_bounds leap m d h = ground (arith, short (table leap) (table-short leap) (m - 1))

pub table_for_year : (year : ℕ) → days_in_month_for_year year ≡ table (is_leap year)
unfolding days_in_month_for_year table
table_for_year year = elim (Bool-cases (is_leap year)) [ inl e ↦ rw e refl | inr e ↦ rw e refl ]

pub twelve_months : (leap : Bool) → length (table leap) ≡ 12
unfolding table days_in_month days_in_month_leap
twelve_months true = refl
twelve_months false = refl

check_days : Bool → ℕ → Bool
check_days leap i = leb 28 (get_or (table leap) i 0) && leb (get_or (table leap) i 0) 31

days_table : (leap : Bool) → every (check_days leap) 12 ≡ true
unfolding every check_days table days_in_month days_in_month_leap
days_table true = refl
days_table false = refl

-- A month has 28 to 31 days.
pub month_lengths :
    (leap : Bool) (i : ℕ) → i < 12 → (28 ≤ get_or (table leap) i 0) × (get_or (table leap) i 0 ≤ 31)
unfolding check_days
month_lengths leap i h = ground (arith, every_holds (check_days leap) 12 (days_table leap) i h)
