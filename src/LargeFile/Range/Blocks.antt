-- ===== src/LargeFile/Range/Blocks.antt =====
-- NumBlocks and RangeForIndex on sizes that do not overflow.
use native.Mathlib.Nat.{div-add-mod', mod-lt, div-lt_iff_lt-mul, mul-le-mul_right}
use go_pkgs.Common.{
  ℕ, suc, ◌+◌, ◌-◌, ◌*◌, ◌/◌, ◌%◌, ◌^◌, ◌≤◌, ◌<◌, min, ◌≡◌, ◌≢◌, ◌||◌, false, some, arith, ◌==◌,
  if◌then◌else◌, ℕ_discrete,
}
use go_pkgs.Common.Int.{pos, wrap64-pos, +ℤ-pos, -ℤ-pos, *ℤ-pos, min_ℤ-pos, quot, rem, ltb_ℤ, leb_ℤ}
use go_pkgs.LargeFile.Range
use go_pkgs.LargeFile.Range.{ByteRange}

-- The number of blocks of `k` that cover `n`: the quotient, and one more for a remainder.
unfoldable pub blocks : ℕ → ℕ → ℕ
blocks n k = if n % k == 0 then n / k else n / k + 1

blocks_exact : (n k : ℕ) → n % k ≡ 0 → blocks n k ≡ n / k
unfolding blocks
blocks_exact n k e = rw e

blocks_rest : (n k : ℕ) → n % k ≢ 0 → blocks n k ≡ n / k + 1
unfolding blocks
blocks_rest n k ne = ground arith

quotient-le : (n k : ℕ) → 0 < k → n / k + n % k ≤ n
quotient-le n k h = grind (arith, div-add-mod' n k)

-- They cover the content, and one fewer does not.
pub blocks_cover : (n k : ℕ) → 0 < k → (n ≤ blocks n k * k) × (blocks n k * k < n + k)
blocks_cover n k h = elim (ℕ_discrete (n % k) 0) [
  | yes e ↦ rw (blocks_exact n k e) (omega (arith, div-add-mod' n k))
  | no ne ↦ rw (blocks_rest n k ne) (omega (arith, div-add-mod' n k, mod-lt n h))
]

pub blocks-le : (n k : ℕ) → 0 < k → blocks n k ≤ n
blocks-le n k h = elim (ℕ_discrete (n % k) 0) [
  | yes e ↦ rw (blocks_exact n k e) (omega (arith, quotient-le n k h))
  | no ne ↦ rw (blocks_rest n k ne) (omega (arith, quotient-le n k h))
]

-- NumBlocks of a content size below 2 ^ 63 and a block size above 0 does not panic, nor overflow.
pub num_blocks-blocks :
    (n k : ℕ) → 0 < k → n < 2 ^ 63 → Range.num_blocks (pos n) (pos k) ≡ some (pos (blocks n k))
unfolding Range.num_blocks quot rem
num_blocks-blocks n k h small =
    let nonzero : (k + 0 == 0) ≡ false = ground arith in
    let fits : n / k < 2 ^ 63 = omega (arith, quotient-le n k h) in
    rw (nonzero, wrap64-pos (n / k) fits, +ℤ-pos (n / k) 1)
      (elim (ℕ_discrete (n % k) 0) [
        | yes e ↦ rw (e, blocks_exact n k e)
        | no ne ↦
            let rest : (n % k + 0 == 0) ≡ false = ground arith in
            rw (rest, wrap64-pos (n / k + 1) (omega (arith, quotient-le n k h)), blocks_rest n k ne)
      ])

-- The block that holds a position is one of them.
pub block-lt : (n k p : ℕ) → 0 < k → p < n → p / k < blocks n k
block-lt n k p h lt = (div-lt_iff_lt-mul h).1 (omega (arith, blocks_cover n k h))

-- A block starts inside the content.
pub start-lt : (n k i : ℕ) → 0 < k → i < blocks n k → i * k < n
start-lt n k i h lt =
    let up : suc i * k ≤ blocks n k * k = mul-le-mul_right k lt in
    omega (arith, up, blocks_cover n k h)

-- What RangeForIndex computes: from the start of the block to its end or the last byte.
abbrev pub block_range : ℕ → ℕ → ℕ → ByteRange
block_range i n k = record { from = pos (i * k); to = pos (min (i * k + k) n - 1) }

pub range_for_index-block_range :
    (i n k : ℕ)
    → 0 < k
    → n + k ≤ 2 ^ 63
    → i < blocks n k
    → Range.range_for_index (pos i) (pos n) (pos k) ≡ block_range i n k
unfolding Range.range_for_index
range_for_index-block_range i n k h small lt =
    let inside = start-lt n k i h lt in
    let proper : (ltb_ℤ (pos i) (pos 0) || leb_ℤ (pos n) (pos 0) || leb_ℤ (pos k) (pos 0)) ≡ false =
      ground arith in
    rw (
      proper,
      *ℤ-pos i k,
      wrap64-pos (i * k) (omega arith),
      +ℤ-pos (i * k) k,
      wrap64-pos (i * k + k) (omega arith),
      min_ℤ-pos (i * k + k) n,
      -ℤ-pos (min (i * k + k) n) 1 (omega arith),
      wrap64-pos (min (i * k + k) n - 1) (omega arith),
    )
