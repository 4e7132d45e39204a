-- ===== src/Datetime/TimeOfDay.antt =====
-- datetime/timeofday.go: a TimeOfDay is a uint32, the hour in the high 16 bits, then a byte each for
-- the minute and the second. Only what does not need package time or text is modelled.
use go_pkgs.Common.{
  ℕ, ◌+◌, ◌*◌, ◌/◌, ◌%◌, ◌^◌, ◌<◌, ◌≡◌, refl, ◌∙◌, ap, max, bit_or, Option, none, some, ◌&&◌, not,
  arith, ltb, ◌==◌, if◌then◌else◌,
}
use go_pkgs.Common.Bits.{bit_or-disjoint}

-- `hour<<16 | minute<<8 | second`, for numbers that are not negative.
pub new_time_of_day : ℕ → ℕ → ℕ → ℕ
new_time_of_day hour minute second =
    bit_or (bit_or (hour * 2 ^ 16) (minute * 2 ^ 8)) second % 2 ^ 32

pub hour : ℕ → ℕ
hour t = t / 2 ^ 16

pub minute : ℕ → ℕ
minute t = t / 2 ^ 8 % 2 ^ 8

pub second : ℕ → ℕ
second t = t % 2 ^ 8

pub normalize : ℕ → ℕ
normalize t = new_time_of_day (max (hour t) 23) (max (minute t) 59) (max (second t) 59)

-- parseHour, for what Atoi made of the text: 1 is "am", 2 is "pm", 0 is neither.
pub parse_hour : Option ℕ → ℕ → Option ℕ
parse_hour none ampm = none
parse_hour (some h) ampm =
    if ltb 23 h
    then none
    else if not (ampm == 0) && ltb 12 h
    then none
    else some (if ampm == 2 then h + 12 else h)

module _ (h m s : ℕ) (hh : h < 2 ^ 16) (hm : m < 2 ^ 8) (hs : s < 2 ^ 8) where
  new_time_of_day-eq : new_time_of_day h m s ≡ h * 2 ^ 16 + m * 2 ^ 8 + s
  unfolding new_time_of_day
  new_time_of_day-eq =
      let upper = bit_or-disjoint 16 h (m * 2 ^ 8) (omega arith) in
      let shape : h * 2 ^ 16 + m * 2 ^ 8 ≡ (h * 256 + m) * 2 ^ 8 = omega arith in
      rw (upper, shape)
        (ap (λ t. t % 2 ^ 32) (bit_or-disjoint 8 (h * 256 + m) s (omega arith)) ∙ omega arith)

  fields :
      (hour (new_time_of_day h m s) ≡ h)
      × (minute (new_time_of_day h m s) ≡ m)
      × (second (new_time_of_day h m s) ≡ s)
  unfolding hour minute second
  fields = omega (arith, new_time_of_day-eq)

-- Normalize takes every time of a day, from 00:00:00 to 23:59:59, to 23:59:59.
pub normalize_to_last :
    (h m s : ℕ)
    → h < 24
    → m < 60
    → s < 60
    → normalize (new_time_of_day h m s) ≡ new_time_of_day 23 59 59
unfolding normalize
normalize_to_last h m s hh hm hs =
    let (eh, em, es) = fields h m s (omega arith) (omega arith) (omega arith) in
    let high : max h 23 ≡ 23 = omega arith in
    let middle : max m 59 ≡ 59 = omega arith in
    let low : max s 59 ≡ 59 = omega arith in rw (eh, em, es, high, middle, low) refl
