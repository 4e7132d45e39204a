-- ===== src/LargeFile/Range.antt =====
-- file/largefile/large_file.go: ByteRange, NumBlocks, Ranges and RangeForIndex. `int` and `int64` are
-- both 64 bits wide; what may leave that range goes through `wrap64`.
pub mod Blocks
pub mod Partition
mod Tests
use go_pkgs.Common.{
  ℕ, zero, suc, ◌+◌, Bool, ◌||◌, Option, none, some, ltb, ◌==◌, if◌then◌else◌, ◌>>=◌,
}
use go_pkgs.Common.Int.{
  ℤ, pos, negsuc, pos_part, neg_part, ltb_ℤ, leb_ℤ, min_ℤ, wrap64, quot, rem, ◌+ℤ◌, ◌-ℤ◌, ◌*ℤ◌,
}

-- Both ends are inclusive.
pub record ByteRange : Type 0 where
  pub from : ℤ
  pub to : ℤ

unfoldable pub size : ByteRange → ℤ
size r =
    if ltb_ℤ r.from (pos 0) || ltb_ℤ r.to r.from
    then pos 0
    else wrap64 (wrap64 (r.to -ℤ r.from) +ℤ pos 1)

abbrev pub is_zero : ℤ → Bool
is_zero z = pos_part z + neg_part z == 0

-- A block size of 0 panics.
unfoldable pub num_blocks : ℤ → ℤ → Option ℤ
num_blocks content_size block_size =
    if is_zero block_size
    then none
    else (let nb = wrap64 (quot content_size block_size) in
        if is_zero (rem content_size block_size) then some nb else some (wrap64 (nb +ℤ pos 1)))

-- `for i := range nb` from round `i` on, `n` rounds left, over the caller's state.
ranges_from {ℓ} : {S : Type ℓ} → ℤ → ℤ → ℤ → (ByteRange → S → Bool × S) → ℕ → ℕ → S → S
ranges_from from to block_size yield zero i s = s
ranges_from from to block_size yield (suc n) i s =
    let start = wrap64 (from +ℤ wrap64 (pos i *ℤ block_size)) in
    let end = wrap64 (min_ℤ (wrap64 (start +ℤ block_size)) (wrap64 (to +ℤ pos 1)) -ℤ pos 1) in
    let (more, s') = yield (record { from = start; to = end }) s in
    let rest = ranges_from from to block_size yield n (suc i) s' in if more then rest else s'

-- An iterator hands each range to `yield` until it says false.
unfoldable pub ranges {ℓ} : {S : Type ℓ} → ℤ → ℤ → ℤ → (ByteRange → S → Bool × S) → S → Option S
unfolding ranges_from
ranges from to block_size yield s =
    let size = wrap64 (wrap64 (to -ℤ from) +ℤ pos 1) in
    if leb_ℤ block_size (pos 0) then some s else do
      nb ← num_blocks size block_size
      some (ranges_from from to block_size yield (pos_part nb) 0 s)

unfoldable pub range_for_index : ℤ → ℤ → ℤ → ByteRange
range_for_index index content_size block_size =
    if ltb_ℤ index (pos 0) || leb_ℤ content_size (pos 0) || leb_ℤ block_size (pos 0)
    then record { from = negsuc 0; to = negsuc 0 }
    else (let from = wrap64 (index *ℤ block_size) in
        let to = wrap64 (min_ℤ (wrap64 (from +ℤ block_size)) content_size -ℤ pos 1) in
        record { from = from; to = to })
