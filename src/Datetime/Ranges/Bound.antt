-- ===== src/Datetime/Ranges/Bound.antt =====
-- DateRange.Bound is the intersection of two ranges.
use go_pkgs.Common.{
  ℕ, ◌/◌, ◌%◌, ◌^◌, ◌<◌, ◌≡◌, refl, sym, ap₂, ◌∙◌, min, max, true, false, ◌&&◌, inl, inr, some,
  arith, ltb, leb, ◌==◌, if◌then◌else◌, Bool-cases,
}
use go_pkgs.Datetime.Dates.{Date}
use go_pkgs.Datetime.Dates.Packing.{is_date_bounds, new_date8-eq}
use go_pkgs.Datetime.Year.{is_leap}
use go_pkgs.Datetime.Dates.Normalize.{IsDateOf, IsDateOf-lt, normalize_lem}
use go_pkgs.Datetime.Ranges.{
  DateRange, pack, from_date, to_date, from, to, include, normalize, bound,
}
use go_pkgs.Datetime.Ranges.Fields.{from_date-pack, to_date-pack, from-pack, to-pack, pack-eq}

-- A range of two dates of the year, and the dates that it includes.
pub record Normalized (year : ℕ) (dr : DateRange) : Type 0 where
  pub range : DateRange
  pub first : Date
  pub last : Date
  pub returned : normalize dr year ≡ some range
  pub from_range : from range year ≡ first
  pub to_range : to range year ≡ last
  pub first_valid : IsDateOf year first
  pub last_valid : IsDateOf year last
  pub includes : (d : Date) → include range d ≡ (leb first d && leb d last)

include-pack :
    (f t d : Date) → f < 2 ^ 16 → t < 2 ^ 16 → include (pack f t) d ≡ (leb f d && leb d t)
unfolding include
include-pack f t d hf ht = rw (from_date-pack f t hf ht, to_date-pack f t hf ht) refl

pub normalize-Normalized : (year : ℕ) (dr : DateRange) → Normalized year dr
unfolding normalize
normalize-Normalized year dr =
    let (a, ea, va, _, _, _) = normalize_lem year (from dr year) true in
    let (b, eb, vb, _, _, _) = normalize_lem year (to dr year) false in
    record {
      range = pack a b;
      first = a;
      last = b;
      returned = rw (ea, eb) refl;
      from_range = from-pack year a b va vb;
      to_range = to-pack year a b va vb;
      first_valid = va;
      last_valid = vb;
      includes = λ d. include-pack a b d (IsDateOf-lt year a va) (IsDateOf-lt year b vb);
    }

include-zero : (d : Date) → 0 < d → include 0 d ≡ false
unfolding include from_date to_date
include-zero d h = ground (arith, new_date8-eq 0 0)

max-IsDateOf : (year : ℕ) (a b : Date) → IsDateOf year a → IsDateOf year b → IsDateOf year (max a b)
max-IsDateOf year a b va vb = elim (Bool-cases (ltb a b)) [
  | inl less ↦ let e : max a b ≡ b = ground arith in rw e vb
  | inr more ↦ let e : max a b ≡ a = ground arith in rw e va
]

min-IsDateOf : (year : ℕ) (a b : Date) → IsDateOf year a → IsDateOf year b → IsDateOf year (min a b)
min-IsDateOf year a b va vb = elim (Bool-cases (ltb a b)) [
  | inl less ↦ let e : min a b ≡ a = ground arith in rw e va
  | inr more ↦ let e : min a b ≡ b = ground arith in rw e vb
]

-- The range of the later first date and the earlier last one.
meet :
    (f f' t t' d : Date)
    → max f f' < 2 ^ 16
    → min t t' < 2 ^ 16
    → 0 < d
    → include (if ltb (min t t') (max f f') then 0 else pack (max f f') (min t t')) d
      ≡ (leb f d && leb d t && (leb f' d && leb d t'))
meet f f' t t' d hf ht pos = elim (Bool-cases (ltb (min t t') (max f f'))) [
  | inl empty ↦ rw (empty, include-zero d pos) (ground arith)
  | inr some_dates ↦ rw (some_dates, include-pack (max f f') (min t t') d hf ht) (ground arith)
]

-- No range of two dates is 0.
is_empty :
    (f t : Date)
    → f < 2 ^ 16
    → t < 2 ^ 16
    → 0 < f
    → ((if ltb t f then 0 else pack f t) == 0) ≡ ltb t f
is_empty f t hf ht positive = elim (Bool-cases (ltb t f)) [
  | inl empty ↦ rw empty refl
  | inr some_dates ↦ rw some_dates (ground (arith, pack-eq f t hf ht))
]

-- Bound never panics, whatever the ranges. The range that it returns includes exactly the dates, other
-- than the number 0, that both normalized ranges include; and it is 0 exactly when the later of their
-- first dates is after the earlier of their last ones.
pub include-bound :
    (year : ℕ) (dr limits : DateRange) (d : Date)
    → 0 < d
    → (r a b : DateRange) × (bound dr year limits ≡ some r)
      × (normalize dr year ≡ some a)
      × (normalize limits year ≡ some b)
      × (include r d ≡ (include a d && include b d))
      × ((r == 0) ≡ ltb (min (to a year) (to b year)) (max (from a year) (from b year)))
unfolding bound
include-bound year dr limits d pos =
    let n = normalize-Normalized year dr in
    let m = normalize-Normalized year limits in
    let first =
      IsDateOf-lt year _ (max-IsDateOf year n.first m.first n.first_valid m.first_valid) in
    let last = IsDateOf-lt year _ (min-IsDateOf year n.last m.last n.last_valid m.last_valid) in
    (
      if ltb (min n.last m.last) (max n.first m.first)
          then 0
          else pack (max n.first m.first) (min n.last m.last),
      n.range,
      m.range,
      rw (n.returned, m.returned, n.from_range, m.from_range, n.to_range, m.to_range) refl,
      n.returned,
      m.returned,
      meet n.first m.first n.last m.last d first last pos
          ∙ ap₂ ◌&&◌ (sym (n.includes d)) (sym (m.includes d)),
      rw (n.from_range, m.from_range, n.to_range, m.to_range)
          (is_empty (max n.first m.first) (min n.last m.last) first last (
            omega (
              arith,
              is_date_bounds (is_leap year) (n.first / 256) (n.first % 256) n.first_valid,
            ))),
    )
