-- ===== src/LargeFile/Range/Partition.antt =====
-- RangeForIndex cuts the content into disjoint ranges; Ranges visits such ranges in order.
use native.Mathlib.Nat.{div-eq_of_lt-le, lt-div-mul-add, div-mul-le_self}
use go_pkgs.Common.{
  ℕ, zero, suc, ◌+◌, ◌-◌, ◌*◌, ◌/◌, ◌^◌, ◌≤◌, ◌<◌, min, ◌≡◌, ◌↔◌, refl, ap, Bool, true, false, ◌||◌,
  List, [], ◌∷◌, some, arith, if◌then◌else◌,
}
use go_pkgs.Common.Int.{
  pos, wrap64, wrap64-pos, +ℤ-pos, -ℤ-pos, *ℤ-pos, min_ℤ-pos, ◌+ℤ◌, ◌-ℤ◌, ◌*ℤ◌, min_ℤ, ltb_ℤ, leb_ℤ,
}
use go_pkgs.Bitmap.Iterate.{for_each}
use go_pkgs.LargeFile.Range
use go_pkgs.LargeFile.Range.{ByteRange, ranges_from}
use go_pkgs.LargeFile.Range.Blocks.{
  blocks, blocks-le, start-lt, num_blocks-blocks, range_for_index-block_range,
}

-- The byte `p` lies in the range.
abbrev pub InRange : ByteRange → ℕ → Type 0
InRange r p = (leb_ℤ r.from (pos p) ≡ true) × (leb_ℤ (pos p) r.to ≡ true)

in_block_quotient :
    (n k i p : ℕ)
    → 0 < k
    → i * k < n
    → i * k ≤ p
    → p ≤ min (i * k + k) n - 1
    → (p < n) × (p / k ≡ i)
in_block_quotient n k i p h inside lo hi =
    (omega arith, div-eq_of_lt-le {k = i} k {m = p} lo (omega arith))

quotient_in_block :
    (n k i p : ℕ) → 0 < k → p < n → p / k ≡ i → (i * k ≤ p) × (p ≤ min (i * k + k) n - 1)
quotient_in_block n k i p h inside e =
    rw (← e) (div-mul-le_self p k, omega (arith, lt-div-mul-add {a = p} h))

-- For a block size above 0, and a content and a block size whose sum is at most 2^63, RangeForIndex
-- of the index `i` of one of the blocks holds a byte exactly when it is a byte of the content and
-- `i` is its position divided by the block size: the ranges of the blocks do not meet and cover the
-- content.
pub range_for_index_partition :
    (n k i p : ℕ)
    → 0 < k
    → n + k ≤ 2 ^ 63
    → i < blocks n k
    → InRange (Range.range_for_index (pos i) (pos n) (pos k)) p ↔ (p < n) × (p / k ≡ i)
range_for_index_partition n k i p h small lt = rw (range_for_index-block_range i n k h small lt) (
  λ (lo, hi). in_block_quotient n k i p h (start-lt n k i h lt) (ground arith) (ground arith),
  λ (inside, e).
      let (lo, hi) = quotient_in_block n k i p h inside e in (ground arith, ground arith),
)

-- The size of a block is the block size, or what is left of the content for the last one.
pub size-range_for_index :
    (n k i : ℕ)
    → 0 < k
    → n + k ≤ 2 ^ 63
    → i < blocks n k
    → Range.size (Range.range_for_index (pos i) (pos n) (pos k)) ≡ pos (min k (n - i * k))
unfolding Range.size
size-range_for_index n k i h small lt =
    let inside = start-lt n k i h lt in
    let last = min (i * k + k) n - 1 in
    let shape : last - i * k + 1 ≡ min k (n - i * k) = omega arith in
    let proper : (ltb_ℤ (pos (i * k)) (pos 0) || ltb_ℤ (pos last) (pos (i * k))) ≡ false =
      ground arith in
    rw
      (
        range_for_index-block_range i n k h small lt,
        proper,
        -ℤ-pos last (i * k) (omega arith),
        wrap64-pos (last - i * k) (omega arith),
        +ℤ-pos (last - i * k) 1,
        wrap64-pos (last - i * k + 1) (omega arith),
      )
      (ap pos shape)

-- The `n` numbers from `i` on.
unfoldable pub upto : ℕ → ℕ → List ℕ
upto i zero = []
upto i (suc n) = i ∷ upto (suc i) n

-- Block `i` of the `n` bytes from `from` on.
abbrev pub shifted_range : ℕ → ℕ → ℕ → ℕ → ByteRange
shifted_range from i n k = record {
  from = pos (from + i * k);
  to = pos (from + min (i * k + k) n - 1);
}

if_then {ℓ} :
    {A : Type ℓ} (b : Bool) {x y : A} (z : A) → x ≡ y → (if b then x else z) ≡ (if b then y else z)
if_then b z e = ap (λ t. if b then t else z) e

module _ {ℓ} {S : Type ℓ} (from n k : ℕ) (yield : ByteRange → S → Bool × S) (positive : 0 < k)
    (small : from + n + k < 2 ^ 63) where
  range_at :
      (i : ℕ)
      → i < blocks n k
      → record {
        from = wrap64 (pos from +ℤ wrap64 (pos i *ℤ pos k));
        to = wrap64 (
            min_ℤ (wrap64 (wrap64 (pos from +ℤ wrap64 (pos i *ℤ pos k)) +ℤ pos k)) (pos (from + n))
            -ℤ pos 1);
      }
        ≡ shifted_range from i n k
  range_at i lt =
      let inside = start-lt n k i positive lt in
      rw
        (
          *ℤ-pos i k,
          wrap64-pos (i * k) (omega arith),
          +ℤ-pos from (i * k),
          wrap64-pos (from + i * k) (omega arith),
          +ℤ-pos (from + i * k) k,
          wrap64-pos (from + i * k + k) (omega arith),
          min_ℤ-pos (from + i * k + k) (from + n),
          -ℤ-pos (min (from + i * k + k) (from + n)) 1 (omega arith),
          wrap64-pos (min (from + i * k + k) (from + n) - 1) (omega arith),
        )
        (ap (λ t. record { from = pos (from + i * k); to = pos t }) (omega arith))

  one_past : 0 < n → wrap64 (pos (from + n - 1) +ℤ pos 1) ≡ pos (from + n)
  one_past h =
      let sum : from + n - 1 + 1 ≡ from + n = omega arith in
      rw (+ℤ-pos (from + n - 1) 1, sum, wrap64-pos (from + n) (omega arith))

  ranges_from-blocks :
      (m i : ℕ) (s : S)
      → i + m ≤ blocks n k
      → ranges_from (pos from) (pos (from + n - 1)) (pos k) yield m i s
        ≡ for_each (λ j. yield (shifted_range from j n k)) (upto i m) s
  unfolding ranges_from upto for_each
  ranges_from-blocks zero i s room = refl
  ranges_from-blocks (suc m) i s room =
      rw (one_past (omega (arith, blocks-le n k positive)), range_at i (omega arith))
        (if_then (yield (shifted_range from i n k) s).0 (yield (shifted_range from i n k) s).1
          (ranges_from-blocks m (suc i) (yield (shifted_range from i n k) s).1 (omega arith)))

  -- For `n` and `k` above 0 and from + n + k below 2^63, Ranges(from, from + n - 1, k) hands to its
  -- caller the blocks of `k` bytes that make up those `n` bytes, each once and in ascending order,
  -- the last one cut to end with them, until the caller stops it; it then does not panic.
  pub ranges_lem :
      (s : S)
      → 0 < n
      → Range.ranges (pos from) (pos (from + n - 1)) (pos k) yield s
        ≡ some (for_each (λ j. yield (shifted_range from j n k)) (upto 0 (blocks n k)) s)
  unfolding Range.ranges
  ranges_lem s some_bytes =
      let above : leb_ℤ (pos k) (pos 0) ≡ false = ground arith in
      let count : from + n - 1 - from + 1 ≡ n = omega arith in
      rw (
        above,
        -ℤ-pos (from + n - 1) from (omega arith),
        wrap64-pos (from + n - 1 - from) (omega arith),
        +ℤ-pos (from + n - 1 - from) 1,
        count,
        wrap64-pos n (omega arith),
        num_blocks-blocks n k positive (omega arith),
        ranges_from-blocks (blocks n k) 0 s (omega arith),
      )
