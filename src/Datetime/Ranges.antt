-- ===== src/Datetime/Ranges.antt =====
-- datetime/date_range.go: a DateRange is a uint32 of four bytes, from the top: the month of the first
-- date, the month of the last, the day of the first and the day of the last.
pub mod Fields
pub mod Bound
mod Tests
use go_pkgs.Common.{
  ℕ, ◌+◌, ◌*◌, ◌/◌, ◌%◌, ◌^◌, min, max, bit_or, Bool, true, false, not, ◌&&◌, List, [], ◌∷◌, Option,
  some, ltb, leb, ◌==◌, if◌then◌else◌, ◌>>=◌,
}
use go_pkgs.Datetime.Year.{is_leap}
use go_pkgs.Datetime.Dates
use go_pkgs.Datetime.Dates.{Date, new_date8}

abbrev pub DateRange : Type 0
DateRange = ℕ

-- newDateRange
unfoldable pub pack : Date → Date → DateRange
pack from to =
    bit_or
      (bit_or (bit_or (Dates.month from % 256 * 2 ^ 24) (Dates.month to % 256 * 2 ^ 16))
        (Dates.day from * 2 ^ 8))
      (Dates.day to)

unfoldable pub from_date : DateRange → Date
from_date dr = new_date8 (dr / 2 ^ 24 % 256) (dr / 2 ^ 8 % 256)

unfoldable pub to_date : DateRange → Date
to_date dr = new_date8 (dr / 2 ^ 16 % 256) (dr % 256)

-- DateRange.From
unfoldable pub from : DateRange → ℕ → Date
from dr year =
    let m = dr / 2 ^ 24 % 256 in
    let d = dr / 2 ^ 8 % 256 in
    if m == 2 && d == 29 && not (is_leap year) then new_date8 m 28 else new_date8 m d

-- DateRange.To
unfoldable pub to : DateRange → ℕ → Date
to dr year =
    let m = dr / 2 ^ 16 % 256 in
    let d = dr % 256 in
    if m == 2 && d == 29 && not (is_leap year) then new_date8 2 28 else new_date8 m d

unfoldable pub new_date_range : Date → Date → DateRange
new_date_range a b = if ltb b a then pack b a else pack a b

unfoldable pub include : DateRange → Date → Bool
include dr d = leb (from_date dr) d && leb d (to_date dr)

unfoldable pub normalize : DateRange → ℕ → Option DateRange
normalize dr year = do
  a ← Dates.normalize (from dr year) year true
  b ← Dates.normalize (to dr year) year false
  some (pack a b)

-- DateRange.Bound
unfoldable pub bound : DateRange → ℕ → DateRange → Option DateRange
bound dr year limits = do
  drn ← normalize dr year
  bn ← normalize limits year
  let first = max (from drn year) (from bn year)
  let last = min (to drn year) (to bn year)
  some (if ltb last first then 0 else pack first last)

unfoldable pub equal : DateRange → ℕ → DateRange → Option Bool
equal dr year dr2 = do
  a ← normalize dr year
  b ← normalize dr2 year
  some (from a year == from b year && to a year == to b year)

-- DateRangeList.Bound: ranges that are empty once bounded are left out.
unfoldable pub bound_all : List DateRange → ℕ → DateRange → Option (List DateRange)
bound_all [] year limits = some []
bound_all (dr ∷ drl) year limits = do
  b ← bound dr year limits
  rest ← bound_all drl year limits
  some (if b == 0 then rest else b ∷ rest)
