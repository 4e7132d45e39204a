-- ===== src/Datetime/Ranges/Fields.antt =====
-- The two dates of a DateRange.
use go_pkgs.Common.{
  ℕ, ◌+◌, ◌*◌, ◌/◌, ◌%◌, ◌^◌, ◌<◌, ◌≡◌, ◌∙◌, inl, inr, false, not, ◌&&◌, arith, ◌==◌, Bool-cases,
  ℕ_discrete,
}
use go_pkgs.Common.Bits.{bit_or-disjoint}
use go_pkgs.Datetime.Year.{is_leap, days_in_month}
use go_pkgs.Datetime.Dates
use go_pkgs.Datetime.Dates.{Date, new_date8}
use go_pkgs.Datetime.Dates.Packing.{table, is_date, new_date8-eq}
use go_pkgs.Datetime.Dates.Normalize.{IsDateOf, IsDateOf-lt}
use go_pkgs.Datetime.Ranges.{pack, from_date, to_date, from, to}

module _ (f t : Date) (hf : f < 2 ^ 16) (ht : t < 2 ^ 16) where
  pub pack-eq : pack f t ≡ f / 256 * 2 ^ 24 + t / 256 * 2 ^ 16 + f % 256 * 2 ^ 8 + t % 256
  unfolding pack Dates.month Dates.day
  pack-eq =
      let fm : f / 256 % 256 ≡ f / 256 = omega arith in
      let tm : t / 256 % 256 ≡ t / 256 = omega arith in
      let split : f / 256 * 2 ^ 24 ≡ f / 256 * 256 * 2 ^ 16 = omega arith in
      let two = bit_or-disjoint 24 (f / 256) (t / 256 * 2 ^ 16) (omega arith) in
      let s₁ : f / 256 * 2 ^ 24 + t / 256 * 2 ^ 16 ≡ (f / 256 * 256 + t / 256) * 2 ^ 16 =
        omega arith in
      let three = bit_or-disjoint 16 (f / 256 * 256 + t / 256) (f % 256 * 2 ^ 8) (omega arith) in
      let s₂ : (f / 256 * 256 + t / 256) * 2 ^ 16 + f % 256 * 2 ^ 8
          ≡ ((f / 256 * 256 + t / 256) * 256 + f % 256) * 2 ^ 8 =
        omega arith in
      let four =
        bit_or-disjoint 8 ((f / 256 * 256 + t / 256) * 256 + f % 256) (t % 256) (omega arith) in
      rw (fm, tm, two, s₁, three, s₂, four) (omega arith)

  parts :
      (pack f t / 2 ^ 24 % 256 ≡ f / 256)
      × (pack f t / 2 ^ 16 % 256 ≡ t / 256)
      × (pack f t / 2 ^ 8 % 256 ≡ f % 256)
      × (pack f t % 256 ≡ t % 256)
  parts = omega (arith, pack-eq)

  pub from_date-pack : from_date (pack f t) ≡ f
  unfolding from_date
  from_date-pack =
      let (fm, _, fd, _) = parts in
      rw (fm, fd) (new_date8-eq (f / 256) (f % 256) (omega arith) (omega arith) ∙ omega arith)

  pub to_date-pack : to_date (pack f t) ≡ t
  unfolding to_date
  to_date-pack =
      let (_, tm, _, td) = parts in
      rw (tm, td) (new_date8-eq (t / 256) (t % 256) (omega arith) (omega arith) ∙ omega arith)

-- A date of the year is no February 29 of another.
no_leap_day :
    (year : ℕ) (d : Date)
    → IsDateOf year d
    → (d / 256 == 2 && d % 256 == 29 && not (is_leap year)) ≡ false
unfolding is_date table days_in_month
no_leap_day year d h = elim (Bool-cases (is_leap year)) [
  | inl leap ↦ rw leap (ground arith)
  | inr plain ↦ rw plain (elim (ℕ_discrete (d / 256) 2) [
    | yes e ↦ let h' = rw (plain, e) at h in ground arith
    | no ne ↦ ground arith
  ])
]

module _ (year : ℕ) (f t : Date) (vf : IsDateOf year f) (vt : IsDateOf year t) where
  pub from-pack : from (pack f t) year ≡ f
  unfolding from
  from-pack =
      let (fm, _, fd, _) = parts f t (IsDateOf-lt year f vf) (IsDateOf-lt year t vt) in
      rw (fm, fd, no_leap_day year f vf)
        (new_date8-eq (f / 256) (f % 256) (omega (arith, IsDateOf-lt year f vf)) (omega arith)
          ∙ omega arith)

  pub to-pack : to (pack f t) year ≡ t
  unfolding to
  to-pack =
      let (_, tm, _, td) = parts f t (IsDateOf-lt year f vf) (IsDateOf-lt year t vt) in
      rw (tm, td, no_leap_day year t vt)
        (new_date8-eq (t / 256) (t % 256) (omega (arith, IsDateOf-lt year t vt)) (omega arith)
          ∙ omega arith)
