-- ===== src/LargeFile/ByteRanges/Tail.antt =====
-- ByteRanges.Tail: the bytes of the contiguous head.
use native.Mathlib.Nat.{zero-div, div-lt_iff_lt-mul, mul-div_left, mul-le-mul_right}
use go_pkgs.Common.{
  ℕ, ◌+◌, ◌-◌, ◌*◌, ◌/◌, ◌^◌, ◌≤◌, ◌<◌, min, ◌≡◌, ◌⊎◌, refl, inl, inr, Bool, true, false, List,
  none, some, arith,
}
use go_pkgs.Common.Int.{pos, negsuc, wrap64-pos, +ℤ-pos, -ℤ-pos, *ℤ-pos, min_ℤ-pos}
use go_pkgs.Contiguous
use go_pkgs.Contiguous.{Contiguous, Store}
use go_pkgs.Contiguous.Extend.{bound}
use go_pkgs.Contiguous.Watch.{new_with_bitmap-nil, tail_lem}
use go_pkgs.LargeFile.Range.{ByteRange}
use go_pkgs.LargeFile.Range.Blocks.{blocks, blocks_cover, blocks-le, block-lt}
use go_pkgs.LargeFile.ByteRanges
use go_pkgs.LargeFile.ByteRanges.{Blocks, ByteRanges, store_of, with_store}
use go_pkgs.LargeFile.ByteRanges.Marks.{marked, not_negative, new_blocks_lem}
use go_pkgs.LargeFile.ByteRanges.Head.{IsFollowed}

-- The byte range from 0 to `t` and whether there is one.
abbrev pub head_to : ℕ → ByteRange × Bool
head_to t = (record { from = pos 0; to = pos t }, true)

abbrev pub no_head : ByteRange × Bool
no_head = (record { from = pos 0; to = pos 0 }, false)

-- The last byte of block `b`.
abbrev pub last_byte : ℕ → ℕ → ℕ → ℕ
last_byte n k b = min ((b + 1) * k) n - 1

module _ (n k : ℕ) (br : ByteRanges) (v : IsFollowed n k br) where
  block_end_small : (b : ℕ) → b < blocks n k → (b + 1) * k < n + k
  block_end_small b h =
      let up : (b + 1) * k ≤ blocks n k * k = mul-le-mul_right k (omega arith) in
      omega (arith, up, blocks_cover n k v.sized.positive)

  tail-of_block :
      (b : ℕ)
      → b < blocks n k
      → Contiguous.tail v.tracker ≡ pos b
      → ByteRanges.tail br ≡ some (head_to (last_byte n k b))
  unfolding ByteRanges.tail
  tail-of_block b h e = rw (
    v.present,
    e,
    not_negative b,
    +ℤ-pos b 1,
    wrap64-pos (b + 1)
        (omega (arith, blocks-le n k v.sized.positive, v.sized.small, v.sized.positive)),
    v.sized.step,
    *ℤ-pos (b + 1) k,
    wrap64-pos ((b + 1) * k) (omega (arith, block_end_small b h, v.sized.small)),
    v.sized.content,
    min_ℤ-pos ((b + 1) * k) n,
    -ℤ-pos (min ((b + 1) * k) n) 1
        (omega (arith, blocks-le n k v.sized.positive, v.sized.positive)),
    wrap64-pos (last_byte n k b) (omega (arith, v.sized.small, v.sized.positive)),
  )

  -- For a block size above 0 and content that is not empty and no longer than 2^63 less the block
  -- size, tracked from its first block to its last, as NewByteRanges gives and Set keeps, Tail does
  -- not panic. Either it reports that there is no head, and then byte 0 is not marked; or it is the
  -- range from byte 0 to the last byte of the marked blocks that start the content: every byte up
  -- to that is marked, and the next, if there is one, is not.
  pub tail_followed :
      (ByteRanges.tail br ≡ some no_head) × (0 < n → marked k br.inner 0 ≡ false)
      ⊎ ((t : ℕ) × (ByteRanges.tail br ≡ some (head_to t))
          × (t < n)
          × ((p : ℕ) → p ≤ t → marked k br.inner p ≡ true)
          × (t + 1 < n → marked k br.inner (t + 1) ≡ false))
  unfolding ByteRanges.tail
  tail_followed = elim (tail_lem v.tracker (store_of br) v.tracks) [
    | inl (empty, here, stops) ↦ inl (
      tail_none empty,
      λ h.
          let start_clear =
            stops (omega (arith, v.from_zero, v.whole, block-lt n k 0 v.sized.positive h)) in
          rw (zero-div k) (rw v.from_zero at start_clear),
    )
    | inr (b, e, _, upper, all, stops) ↦ inr (
      last_byte n k b,
      tail-of_block b (omega (arith, v.whole)) e,
      omega (arith, blocks-le n k v.sized.positive, v.whole),
      λ p h. all (p / k) (omega (arith, v.from_zero)) (within b p upper h),
      λ h.
          let e_next : last_byte n k b + 1 ≡ (b + 1) * k = omega (arith, v.sized.positive) in
          let quotient = mul-div_left (b + 1) v.sized.positive in
          let room = block-lt n k ((b + 1) * k) v.sized.positive (omega (arith, h)) in
          rw (e_next, quotient) (stops (omega (arith, v.whole, quotient, room))),
    )
  ]
    where
      tail_none : Contiguous.tail v.tracker ≡ negsuc 0 → ByteRanges.tail br ≡ some no_head
      tail_none e = rw (v.present, e)

      within : (b p : ℕ) → b < bound v.tracker.last → p ≤ last_byte n k b → p / k ≤ b
      within b p upper h =
          let below : p / k < b + 1 =
            (div-lt_iff_lt-mul v.sized.positive).1
              (omega (arith, v.sized.positive, v.whole, blocks-le n k v.sized.positive)) in
          omega arith

-- For empty content NewByteRanges leaves the tracker nil: it returns a value, whose Tail and Notify
-- panic, for every block size above 0.
pub empty_content_panics :
    (k : ℕ) (channels : List Bool)
    → 0 < k
    → k ≤ 2 ^ 63
    → (br : ByteRanges) × (ByteRanges.new (pos 0) (pos k) channels ≡ some br)
      × (ByteRanges.tail br ≡ none)
      × (ByteRanges.notify br ≡ none)
unfolding ByteRanges.new ByteRanges.tail ByteRanges.notify
empty_content_panics k channels h small =
    let r = new_blocks_lem 0 k h (omega arith) in
    let no_blocks : blocks 0 k ≡ 0 = omega (arith, blocks-le 0 k h) in
    rw
      (
        r.returned,
        r.valid.count,
        no_blocks,
        new_with_bitmap-nil r.after.bitmap (pos 0) (pos 0) (ground arith),
      )
      (record { inner = r.after; contiguous = none; channels = channels }, refl, refl, refl)
