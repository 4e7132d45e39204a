-- ===== src/LargeFile/ByteRanges/Search.antt =====
-- NextClear, NextSet and the iterators of ByteRanges: the ranges of the clear or set blocks, in order.
use go_pkgs.Common.{
  ℕ, zero, suc, ◌+◌, ◌-◌, ◌*◌, ◌≤◌, ◌<◌, ◌≡◌, refl, ap, inl, inr, Bool, not, Option, none, some,
  arith, length, if◌then◌else◌, Bool-cases, Option-cases,
}
use go_pkgs.Common.Int.{pos, pos_part, +ℤ-pos}
use go_pkgs.Bitmap.{Bitmap, minus_one, last_of}
use go_pkgs.Bitmap.Bits.{contains}
use go_pkgs.Bitmap.Scan.{first, first-found, index_or_minus_one, next_set_lem, next_clear_lem}
use go_pkgs.Bitmap.Iterate.{for_each, select, all_set_lem, all_clear_lem}
use go_pkgs.LargeFile.Range
use go_pkgs.LargeFile.Range.{ByteRange}
use go_pkgs.LargeFile.Range.Blocks.{blocks, block_range, range_for_index-block_range}
use go_pkgs.LargeFile.ByteRanges
use go_pkgs.LargeFile.ByteRanges.{Blocks, ByteRanges, Found, found}
use go_pkgs.LargeFile.ByteRanges.Marks.{Sized}

-- The answer for the block found, if any: where to go on, and the block's range.
abbrev pub found_block : ℕ → ℕ → Option ℕ → Found
found_block n k none = (minus_one, none)
found_block n k (some i) = (pos (i + 1), some (block_range i n k))

last_of-room : (b : Bitmap) (m : ℕ) → m ≤ length b * 64 → pos_part (last_of b (pos m)) ≡ m
last_of-room b m h = ground arith

-- Loops that do the same at every index below `m`.
for_each-congr {ℓ} :
    {S : Type ℓ} (f g : ℕ → S → Bool × S) (p : ℕ → Bool) (m : ℕ)
    → ((i : ℕ) → i < m → f i ≡ g i)
    → (i n : ℕ) (s : S) → i + n ≤ m
    → for_each f (select p i n) s ≡ for_each g (select p i n) s
unfolding for_each select
for_each-congr f g p m same i zero s h = refl
for_each-congr f g p m same i (suc n) s h = elim (Bool-cases (p i)) [
  | inl here ↦
      let rest = for_each-congr f g p m same (i + 1) n (g i s).1 (omega arith) in
      rw (here, same i (omega arith)) (ap (λ t. if (g i s).0 then t else (g i s).1) rest)
  | inr past ↦ rw past (for_each-congr f g p m same (i + 1) n s (omega arith))
]

module _ (n k : ℕ) (br : Blocks) (v : Sized n k br) where
  found-block :
      (p : ℕ → Bool) (start : ℕ)
      → found br (index_or_minus_one (first p start (blocks n k - start)))
        ≡ found_block n k (first p start (blocks n k - start))
  found-block p start = elim (Option-cases (first p start (blocks n k - start))) [
    | inl nothing ↦ rw nothing
    | inr (i, e) ↦
        let (lower, upper, _, _) = first-found p start (blocks n k - start) i e in
        rw (
          e,
          v.content,
          v.step,
          +ℤ-pos i 1,
          range_for_index-block_range i n k v.positive v.small (omega arith),
        )
  ]

  -- NextClear(start) never panics. It returns the range of the first clear block from `start` on, and
  -- the index after it, or -1 and no range when every block from `start` on is set.
  pub next_clear_block :
      (start : ℕ)
      → ByteRanges.next_clear br (pos start)
        ≡ some
            (found_block n k (first (λ i. not (contains br.bitmap i)) start (blocks n k - start)))
  unfolding ByteRanges.next_clear
  next_clear_block start = rw (
    v.count,
    next_clear_lem br.bitmap (pos start) (pos (blocks n k)),
    last_of-room br.bitmap (blocks n k) v.room,
    found-block (λ i. not (contains br.bitmap i)) start,
  )

  -- NextSet(start) never panics. It returns the range of the first set block from `start` on, and the
  -- index after it, or -1 and no range when every block from `start` on is clear.
  pub next_set_block :
      (start : ℕ)
      → ByteRanges.next_set br (pos start)
        ≡ some (found_block n k (first (contains br.bitmap) start (blocks n k - start)))
  unfolding ByteRanges.next_set
  next_set_block start = rw (
    v.count,
    next_set_lem br.bitmap (pos start) (pos (blocks n k)),
    last_of-room br.bitmap (blocks n k) v.room,
    found-block (contains br.bitmap) start,
  )

  pub range_of_index :
      (i : ℕ)
      → i < blocks n k
      → Range.range_for_index (pos i) br.content_size br.block_size ≡ block_range i n k
  range_of_index i lt =
      rw (v.content, v.step, range_for_index-block_range i n k v.positive v.small lt)

-- For a `start` from 0 to the number of blocks, a block size above 0, and a content and a block
-- size whose sum is at most 2^63, AllClear(start) hands to its caller the ranges of the clear
-- blocks from `start` on, each once and in ascending order, until the caller stops it; it then ends
-- and does not panic. The caller does not change the blocks meanwhile.
pub all_clear-blocks {ℓ} :
    {S : Type ℓ} (n k : ℕ) (br : ByteRanges) (start : ℕ) (yield : ByteRange → S → Bool × S) (s : S)
    → Sized n k br.inner
    → start ≤ blocks n k
    → ByteRanges.all_clear br (pos start) yield s
      ≡ some (
          for_each
            (λ i. yield (block_range i n k))
            (select (λ i. not (contains br.inner.bitmap i)) start (blocks n k - start))
            s)
unfolding ByteRanges.all_clear
all_clear-blocks n k br start yield s v h = rw (
  v.count,
  all_clear_lem br.inner.bitmap (pos start) (pos (blocks n k)),
  last_of-room br.inner.bitmap (blocks n k) v.room,
  for_each-congr _ (λ i. yield (block_range i n k)) (λ i. not (contains br.inner.bitmap i))
      (blocks n k) (λ i lt. ap yield (range_of_index n k br.inner v i lt)) start
      (blocks n k - start) s (omega arith),
)

-- The same for AllSet(start), which hands over the ranges of the set blocks.
pub all_set-blocks {ℓ} :
    {S : Type ℓ} (n k : ℕ) (br : ByteRanges) (start : ℕ) (yield : ByteRange → S → Bool × S) (s : S)
    → Sized n k br.inner
    → start ≤ blocks n k
    → ByteRanges.all_set br (pos start) yield s
      ≡ some (
          for_each
            (λ i. yield (block_range i n k))
            (select (contains br.inner.bitmap) start (blocks n k - start))
            s)
unfolding ByteRanges.all_set
all_set-blocks n k br start yield s v h = rw (
  v.count,
  all_set_lem br.inner.bitmap (pos start) (pos (blocks n k)),
  last_of-room br.inner.bitmap (blocks n k) v.room,
  for_each-congr _ (λ i. yield (block_range i n k)) (contains br.inner.bitmap) (blocks n k)
      (λ i lt. ap yield (range_of_index n k br.inner v i lt)) start (blocks n k - start) s
      (omega arith),
)
