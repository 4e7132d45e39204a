-- ===== src/LargeFile/ByteRanges.antt =====
-- file/largefile/byte_ranges.go. byteRanges keeps one bit for each block; ByteRanges adds the tracker
-- of the contiguous head, whose bitmap is the same array as byteRanges' own. The locks of ByteRanges
-- make each method one step.
pub mod Marks
pub mod Search
pub mod Head
pub mod Tail
mod Tests
use go_pkgs.Common.{
  ℕ, zero, suc, ◌+◌, Bool, true, false, not, ◌||◌, List, [], Option, none, some, if◌then◌else◌,
  ◌>>=◌,
}
use go_pkgs.Common.Int.{
  ℤ, pos, negsuc, pos_part, neg_part, ltb_ℤ, leb_ℤ, min_ℤ, wrap64, quot, ◌+ℤ◌, ◌-ℤ◌, ◌*ℤ◌,
}
use go_pkgs.Bitmap
use go_pkgs.Bitmap.{Bitmap, minus_one}
use go_pkgs.Contiguous
use go_pkgs.Contiguous.{Contiguous, Store}
use go_pkgs.LargeFile.Range
use go_pkgs.LargeFile.Range.{ByteRange, is_zero}

-- byteRanges
pub record Blocks : Type 0 where
  pub content_size : ℤ
  pub bitmap_size : ℤ
  pub block_size : ℤ
  pub bitmap : Bitmap

unfoldable pub new_blocks : ℤ → ℤ → Option Blocks
new_blocks content_size block_size = do
  nb ← Range.num_blocks content_size block_size
  some (record {
    content_size = content_size;
    bitmap_size = nb;
    block_size = block_size;
    bitmap = Bitmap.new nb;
  })

-- An index, with the range when there is one: `*nbr` is written only then.
abbrev pub Found : Type 0
Found = ℤ × Option ByteRange

-- The end that NextClear and NextSet share.
abbrev found : Blocks → ℤ → Found
found br (negsuc _) = (minus_one, none)
found br (pos i) =
    (pos i +ℤ pos 1, some (Range.range_for_index (pos i) br.content_size br.block_size))

unfoldable pub next_clear : Blocks → ℤ → Option Found
next_clear br start = do i ← Bitmap.next_clear br.bitmap start br.bitmap_size; some (found br i)

unfoldable pub next_set : Blocks → ℤ → Option Found
next_set br start = do i ← Bitmap.next_set br.bitmap start br.bitmap_size; some (found br i)

unfoldable pub block : Blocks → ℤ → Option ℤ
block br p =
    if ltb_ℤ p (pos 0) || leb_ℤ br.content_size p
    then some minus_one
    else (if is_zero br.block_size
        then none
        else (let index = wrap64 (quot p br.block_size) in
            if ltb_ℤ index (pos 0) || leb_ℤ br.bitmap_size index
            then some minus_one
            else some index))

-- byteRanges.Set
unfoldable pub set_block : Blocks → ℤ → Option Blocks
set_block br p = do
  index ← block br p
  if ltb_ℤ index (pos 0)
      then some br
      else (do bitmap ← Bitmap.set_unsafe br.bitmap index; some (record br { bitmap = bitmap }))

-- byteRanges.clear, which is ByteRangesTracker.Clear
unfoldable pub clear : Blocks → ℤ → Option Blocks
clear br p = do
  index ← block br p
  if ltb_ℤ index (pos 0)
      then some br
      else (do bitmap ← Bitmap.clear br.bitmap index; some (record br { bitmap = bitmap }))

unfoldable pub is_set : Blocks → ℤ → Option Bool
is_set br p = do
  index ← block br p
  if ltb_ℤ index (pos 0) then some false else Bitmap.is_set_unsafe br.bitmap index

unfoldable pub is_clear : Blocks → ℤ → Option Bool
is_clear br p = do
  index ← block br p
  if ltb_ℤ index (pos 0) then some false else (do s ← Bitmap.is_set br.bitmap index; some (not s))

-- ByteRanges; `none` is a nil `contiguous`.
pub record ByteRanges : Type 0 where
  pub inner : Blocks
  pub contiguous : Option Contiguous
  pub channels : List Bool

unfoldable pub new : ℤ → ℤ → List Bool → Option ByteRanges
new content_size block_size channels = do
  br ← new_blocks content_size block_size
  c ← Contiguous.new_with_bitmap br.bitmap (pos 0) br.bitmap_size
  some (record { inner = br; contiguous = c; channels = channels })

abbrev pub store_of : ByteRanges → Store
store_of br = record { bits = br.inner.bitmap; channels = br.channels }

abbrev pub with_store : ByteRanges → Contiguous → Store → ByteRanges
with_store br c s = record br {
  inner = record br.inner { bitmap = s.bits };
  contiguous = some c;
  channels = s.channels;
}

-- A method of a nil Contiguous panics.
unfoldable pub set : ByteRanges → ℤ → Option ByteRanges
set br p = do
  index ← block br.inner p
  if ltb_ℤ index (pos 0) then some br else (do
    c ← br.contiguous
    (c', s) ← Contiguous.set c (store_of br) index
    some (with_store br c' s))

unfoldable pub notify : ByteRanges → Option (ℕ × ByteRanges)
notify br = do
  c ← br.contiguous
  (id, c', s) ← Contiguous.notify c (store_of br)
  some (id, with_store br c' s)

unfoldable pub tail : ByteRanges → Option (ByteRange × Bool)
tail br = do
  c ← br.contiguous
  let blk = Contiguous.tail c
  if ltb_ℤ blk (pos 0)
      then some (record { from = pos 0; to = pos 0 }, false)
      else (let covered = wrap64 (wrap64 (blk +ℤ pos 1) *ℤ br.inner.block_size) in
          let to = wrap64 (min_ℤ covered br.inner.content_size -ℤ pos 1) in
          some (record { from = pos 0; to = to }, true))

-- The iterators hand `yield` the range of each index.
unfoldable pub all_clear {ℓ} :
    {S : Type ℓ} → ByteRanges → ℤ → (ByteRange → S → Bool × S) → S → Option S
all_clear br start yield s =
    let b = br.inner in
    let of_index = λ (i : ℕ). Range.range_for_index (pos i) b.content_size b.block_size in
    Bitmap.all_clear b.bitmap start b.bitmap_size (λ i. yield (of_index i)) s

unfoldable pub all_set {ℓ} :
    {S : Type ℓ} → ByteRanges → ℤ → (ByteRange → S → Bool × S) → S → Option S
all_set br start yield s =
    let b = br.inner in
    let of_index = λ (i : ℕ). Range.range_for_index (pos i) b.content_size b.block_size in
    Bitmap.all_set b.bitmap start b.bitmap_size (λ i. yield (of_index i)) s
