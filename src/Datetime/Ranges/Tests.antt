-- ===== src/Datetime/Ranges/Tests.antt =====
-- Runs of date ranges, and the theorems at concrete inputs.
use go_pkgs.Common.{◌==◌, ltb, min, max, ◌≡◌, refl, ◌&&◌, some, arith}
use go_pkgs.Datetime.Year.{days_in_month, is_leap, days_in_month_for_year}
use go_pkgs.Datetime.Dates
use go_pkgs.Datetime.Ranges.{DateRange, bound, normalize, include, pack, from, to}
use go_pkgs.Datetime.Ranges.Bound.{include-bound}

-- February 10 to the end of April, with a day of 0, and the whole of March to June 5.
abbrev spring : DateRange
spring = 0x02040a00

abbrev limits : DateRange
limits = 0x03060105

bound_runs : bound spring 2023 limits ≡ some 0x0304011e
unfolding bound normalize pack from to Dates.normalize Dates.new_date8 Dates.month Dates.day
    days_in_month is_leap days_in_month_for_year
bound_runs = refl

-- March 15.
include-bound_example :
    (r a b : DateRange) × (bound spring 2023 limits ≡ some r)
    × (normalize spring 2023 ≡ some a)
    × (normalize limits 2023 ≡ some b)
    × (include r 0x030f ≡ (include a 0x030f && include b 0x030f))
    × ((r == 0) ≡ ltb (min (to a 2023) (to b 2023)) (max (from a 2023) (from b 2023)))
include-bound_example = include-bound 2023 spring limits 0x030f (omega arith)
