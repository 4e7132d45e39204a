-- ===== src/Bitmap/Scan.antt =====
-- NextSet and NextClear against a linear search of the bits.
use native.Mathlib.Nat.{zero-sub, suc-sub-suc}
use go_pkgs.Common.{
  ℕ, zero, suc, ◌+◌, ◌-◌, ◌*◌, ◌/◌, ◌%◌, ◌^◌, ◌≤◌, ◌<◌, bit_and, ◌≡◌, refl, ◌∙◌, ap, ap₂, inl, inr,
  Bool, true, false, not, ◌&&◌, Option, none, some, arith, length, get_or, leb, ◌==◌, if◌then◌else◌,
  Bool-cases, ℕ_discrete,
}
use go_pkgs.Common.Int.{ℤ, pos, negsuc, pos_part, leb_ℤ}
use go_pkgs.Common.Bits.{bit, bit-zero, bit-ones}
use go_pkgs.Bitmap
use go_pkgs.Bitmap.{Bitmap, max_uint64, minus_one, last_of, scan}
use go_pkgs.Bitmap.Bits.{contains, load_word, bit_tested}

-- The first of the `n` numbers from `i` on that satisfies `p`.
unfoldable pub first : (ℕ → Bool) → ℕ → ℕ → Option ℕ
first p i zero = none
first p i (suc n) = if p i then some i else first p (i + 1) n

-- -1 for "none".
abbrev pub index_or_minus_one : Option ℕ → ℤ
index_or_minus_one none = minus_one
index_or_minus_one (some n) = pos n

-- Numbers that do not satisfy `p` can be passed over.
first-skip :
    (p : ℕ → Bool) (m i n : ℕ)
    → ((j : ℕ) → i ≤ j → j < i + m → p j ≡ false)
    → first p i n ≡ first p (i + m) (n - m)
unfolding first
first-skip p zero i n h = ap₂ (first p) (omega arith) (omega arith)
first-skip p (suc m) i zero h = rw (zero-sub (suc m)) refl
first-skip p (suc m) i (suc n) h =
    rw (h i (omega arith) (omega arith), suc-sub-suc)
      (first-skip p m (i + 1) n (λ j lo hi. h j (omega arith) (omega arith))
        ∙ ap (λ k. first p k (n - m)) (omega arith))

first-step :
    (p : ℕ → Bool) (i last : ℕ)
    → i < last
    → first p i (last - i) ≡ (if p i then some i else first p (i + 1) (last - (i + 1)))
unfolding first
first-step p i last h = ap (first p i) (let e : last - i ≡ suc (last - (i + 1)) = omega arith in e)

-- The loop, for a test of the masked word that reads one bit, and a skipped word that holds no such
-- bit.
module _ (skip : ℕ) (accept : ℕ → Bool) (q : ℕ → Bool)
    (tested : (w k : ℕ) → accept (bit_and w (2 ^ k)) ≡ q (bit w k))
    (skipped : (k : ℕ) → k < 64 → q (bit skip k) ≡ false) (b : Bitmap) where
  abbrev wanted : ℕ → Bool
  wanted i = q (bit (get_or b (i / 64) 0) (i % 64))

  none_in_word :
      (nb : ℕ)
      → nb % 64 ≡ 0
      → get_or b (nb / 64) 0 ≡ skip
      → (j : ℕ) → nb ≤ j
      → j < nb + 64
      → wanted j ≡ false
  none_in_word nb aligned e j lo hi =
      let same : j / 64 ≡ nb / 64 = omega arith in rw (same, e) (skipped (j % 64) (omega arith))

  scan-eq-first :
      (fuel nb last : ℕ)
      → last - nb < fuel
      → last ≤ length b * 64
      → scan skip accept fuel b nb last ≡ some (index_or_minus_one (first wanted nb (last - nb)))
  unfolding scan
  scan-eq-first zero nb last f h = absurd (omega arith)
  scan-eq-first (suc fuel) nb last f h = elim (Bool-cases (leb last nb)) [
    | inl over ↦ let done : last - nb ≡ 0 = ground arith in rw (over, done) (unfold first in refl)
    | inr more ↦
        let inside : nb < length b * 64 = ground arith in
        rw (more, load_word b nb inside, tested)
          (elim (Bool-cases (nb % 64 == 0 && get_or b (nb / 64) 0 == skip)) [
            | inl skipping ↦
                let none_here =
                  first-skip wanted 64 nb (last - nb)
                    (none_in_word nb (ground arith) (ground arith)) in
                let count : last - nb - 64 ≡ last - (nb + 64) = omega arith in
                rw (skipping, none_here, count) (scan-eq-first fuel (nb + 64) last (ground arith) h)
            | inr looking ↦
                rw (looking, first-step wanted nb last (ground arith))
                  (ground (arith, scan-eq-first fuel (nb + 1) last (ground arith) h))
          ])
  ]

-- What NextSet and NextClear return: the first index that `p` holds of, from `start` up to the
-- bitmap's end or `size`.
abbrev pub next_where : (ℕ → Bool) → Bitmap → ℤ → ℤ → ℤ
next_where p b (negsuc _) size = minus_one
next_where p b (pos start) size =
    index_or_minus_one (first p start (pos_part (last_of b size) - start))

first-none : (p : ℕ → Bool) (i n : ℕ) → n ≡ 0 → first p i n ≡ none
unfolding first
first-none p i zero h = refl
first-none p i (suc n) h = absurd (omega arith)

pub last_of-le : (b : Bitmap) (size : ℤ) → pos_part (last_of b size) ≤ length b * 64
last_of-le b (pos n) = ground arith
last_of-le b (negsuc n) = ground arith

past_last : (l : ℤ) (start : ℕ) → leb_ℤ l (pos start) ≡ true → pos_part l - start ≡ 0
past_last (pos n) start h = ground arith
past_last (negsuc n) start h = omega arith

-- NextSet(start, size) never panics. It returns the least set bit from `start` on, below both `size`
-- and the bitmap's end, and -1 if there is none or `start` is negative.
pub next_set_lem :
    (b : Bitmap) (start size : ℤ)
    → Bitmap.next_set b start size ≡ some (next_where (contains b) b start size)
unfolding Bitmap.next_set contains
next_set_lem b (negsuc _) size = refl
next_set_lem b (pos start) size = elim (Bool-cases (leb_ℤ (last_of b size) (pos start))) [
  | inl out ↦ rw (out, first-none (contains b) start _ (past_last (last_of b size) start out))
  | inr within ↦ rw within (
      scan-eq-first 0 (λ m. not (m == 0)) (λ x. x == 1) bit_tested (λ k h. rw (bit-zero k)) b
        (suc (pos_part (last_of b size))) start (pos_part (last_of b size)) (omega arith)
        (last_of-le b size))
]

clear_tested : (w k : ℕ) → (bit_and w (2 ^ k) == 0) ≡ not (bit w k == 1)
clear_tested w k = ground (arith, bit_tested w k)

-- NextClear(start, size) never panics. It returns the least clear bit from `start` on, below both
-- `size` and the bitmap's end, and -1 if there is none or `start` is negative.
pub next_clear_lem :
    (b : Bitmap) (start size : ℤ)
    → Bitmap.next_clear b start size ≡ some (next_where (λ i. not (contains b i)) b start size)
unfolding Bitmap.next_clear contains
next_clear_lem b (negsuc _) size = refl
next_clear_lem b (pos start) size = elim (Bool-cases (leb_ℤ (last_of b size) (pos start))) [
  | inl out ↦
      rw (out, first-none (λ i. not (contains b i)) start _ (past_last (last_of b size) start out))
  | inr within ↦ rw within (
      scan-eq-first max_uint64 (λ m. m == 0) (λ x. not (x == 1)) clear_tested
        (λ k h. rw (bit-ones 64 k h)) b (suc (pos_part (last_of b size))) start
        (pos_part (last_of b size)) (omega arith) (last_of-le b size))
]

-- What holds from `i + 1` on and at `i` holds from `i` on.
first_of_rest :
    (p : ℕ → Bool) (i k : ℕ)
    → p i ≡ false
    → ((j : ℕ) → i + 1 ≤ j → j < k → p j ≡ false)
    → (j : ℕ) → i ≤ j
    → j < k
    → p j ≡ false
first_of_rest p i k here rest j lo hi = elim (ℕ_discrete i j) [
  | yes e ↦ rw e at here
  | no n ↦ rest j (omega arith) hi
]

-- `first` finds the least such number.
pub first-found :
    (p : ℕ → Bool) (i n k : ℕ)
    → first p i n ≡ some k
    → (i ≤ k) × (k < i + n) × (p k ≡ true) × ((j : ℕ) → i ≤ j → j < k → p j ≡ false)
unfolding first
first-found p i zero k h = cc
first-found p i (suc n) k h = elim (Bool-cases (p i)) [
  | inl here ↦
      let e : i ≡ k = ground arith in
      (omega arith, omega arith, rw (← e) here, λ j lo hi. absurd (omega arith))
  | inr past ↦
      let (lower, upper, holds, least) = first-found p (i + 1) n k (ground arith) in
      (omega arith, omega arith, holds, first_of_rest p i k past least)
]

pub first-absent :
    (p : ℕ → Bool) (i n : ℕ) → first p i n ≡ none → (j : ℕ) → i ≤ j → j < i + n → p j ≡ false
unfolding first
first-absent p i zero h j lo hi = absurd (omega arith)
first-absent p i (suc n) h j lo hi = elim (Bool-cases (p i)) [
  | inl here ↦ ground arith
  | inr past ↦
      first_of_rest p i (i + suc n) past
        (λ k lo' hi'. first-absent p (i + 1) n (ground arith) k lo' (omega arith)) j lo hi
]
