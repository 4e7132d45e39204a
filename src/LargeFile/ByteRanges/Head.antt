-- ===== src/LargeFile/ByteRanges/Head.antt =====
-- ByteRanges: the marks together with the tracker of the contiguous head.
use go_pkgs.Common.{
  ℕ, ◌+◌, ◌/◌, ◌^◌, ◌≤◌, ◌<◌, ◌≡◌, refl, ◌∙◌, ap, Bool, false, ◌||◌, List, Option, none, some,
  arith, length, get_elem?, leb, dec_lt,
}
use go_pkgs.Common.Int.{ℤ, pos, negsuc}
use go_pkgs.Contiguous.{Contiguous}
use go_pkgs.Contiguous.Extend.{bound}
use go_pkgs.Contiguous.Invariant.{IsTracking, leb_ℤ-of-lt}
use go_pkgs.Contiguous.Track.{closed_by, set_tracks}
use go_pkgs.Contiguous.Watch.{notify_lem, new_with_bitmap_lem}
use go_pkgs.LargeFile.Range.Blocks.{blocks, block-lt}
use go_pkgs.LargeFile.ByteRanges
use go_pkgs.LargeFile.ByteRanges.{Blocks, ByteRanges, store_of, with_store}
use go_pkgs.LargeFile.ByteRanges.Marks.{
  Sized, Sized-with, touches, marked, not_negative, block_inside, block_past, block_negative,
  new_blocks_lem,
}

-- The blocks of `n` bytes, all of them tracked from the first on.
pub record IsFollowed (n k : ℕ) (br : ByteRanges) : Type 0 where
  pub sized : Sized n k br.inner
  pub tracker : Contiguous
  pub present : br.contiguous ≡ some tracker
  pub tracks : IsTracking tracker (store_of br)
  pub from_zero : tracker.start ≡ 0
  pub whole : bound tracker.last ≡ blocks n k

-- NewByteRanges, for content and block sizes above 0 that do not overflow, marks nothing and follows
-- every block.
pub new_followed :
    (n k : ℕ) (channels : List Bool)
    → 0 < n
    → 0 < k
    → n + k ≤ 2 ^ 63
    → (br : ByteRanges) × (ByteRanges.new (pos n) (pos k) channels ≡ some br)
      × IsFollowed n k br
      × ((q : ℕ) → marked k br.inner q ≡ false)
unfolding ByteRanges.new
new_followed n k channels positive h small =
    let r = new_blocks_lem n k h small in
    let some_block : 0 < blocks n k = omega (arith, block-lt n k 0 h positive) in
    let (c, made, tracks, start, whole, _) =
      new_with_bitmap_lem r.after.bitmap 0 (blocks n k) channels some_block (omega arith)
        r.valid.room in
    let br : ByteRanges = record { inner = r.after; contiguous = some c; channels = channels } in
    rw (r.returned, r.valid.count, made)
      (
        br,
        refl,
        record {
          sized = r.valid;
          tracker = c;
          present = refl;
          tracks = tracks;
          from_zero = start;
          whole = whole;
        },
        r.marks,
      )

-- What Set(p) returns.
pub record Advanced (n k : ℕ) (br : ByteRanges) (v : IsFollowed n k br) (p : ℤ)
    (r : Option ByteRanges) : Type 0 where
  pub after : ByteRanges
  pub returned : r ≡ some after
  pub valid : IsFollowed n k after
  pub marks : (q : ℕ) → q < n → marked k after.inner q ≡ (touches n k p q || marked k br.inner q)
  pub forward : v.tracker.first_clear ≤ valid.tracker.first_clear
  pub moved :
      v.tracker.first_clear < valid.tracker.first_clear
      → (valid.tracker.ch ≡ none) × (after.channels ≡ closed_by v.tracker.ch br.channels)
  pub stayed :
      valid.tracker.first_clear ≡ v.tracker.first_clear
      → (valid.tracker.ch ≡ v.tracker.ch) × (after.channels ≡ br.channels)

module _ (n k : ℕ) (br : ByteRanges) (v : IsFollowed n k br) where
  Advanced-same : (p : ℤ) → ((q : ℕ) → touches n k p q ≡ false) → Advanced n k br v p (some br)
  Advanced-same p out = record {
    after = br;
    returned = refl;
    valid = v;
    marks = λ q h. rw (out q);
    forward = omega arith;
    moved = λ h. absurd (omega arith);
    stayed = λ h. (refl, refl);
  }

  -- Set(p) never panics and keeps the state right. It marks the block of a position in the content
  -- and no other; the head never shrinks; when it grows, the outstanding channel (if any) is closed
  -- and forgotten, and otherwise no channel changes.
  pub set_advances : (p : ℤ) → Advanced n k br v p (ByteRanges.set br p)
  unfolding ByteRanges.set
  set_advances (negsuc p) =
      rw (block_negative n k br.inner v.sized p) (Advanced-same (negsuc p) (λ q. refl))
  set_advances (pos p) = elim (dec_lt p n) [
    | no past ↦
        rw (block_past n k br.inner v.sized p (omega arith))
          (Advanced-same (pos p) (λ q. ground arith))
    | yes h ↦
        let t = set_tracks v.tracker (store_of br) (pos (p / k)) v.tracks in
        rw (block_inside n k br.inner v.sized p h, not_negative (p / k), v.present, t.returned)
          (record {
            after = with_store br t.after t.world;
            returned = refl;
            valid = record {
              sized = Sized-with n k br.inner v.sized t.world.bits t.same_length;
              tracker = t.after;
              present = refl;
              tracks = t.valid;
              from_zero = t.same_start ∙ v.from_zero;
              whole = ap bound t.same_last ∙ v.whole;
            };
            marks = λ q hq.
                t.bits (q / k)
                ∙ rw
                    (leb_ℤ-of-lt v.tracker.last (q / k)
                      (omega (arith, v.whole, block-lt n k q v.sized.positive hq)))
                    (ground arith);
            forward = t.forward;
            moved = t.moved;
            stayed = t.stayed;
          })
  ]

  -- Notify never panics and leaves the marks alone. It returns a channel that is closed exactly when the whole content is done.
  pub notify_followed :
      (id : ℕ) × (br' : ByteRanges) × (ByteRanges.notify br ≡ some (id, br'))
      × IsFollowed n k br'
      × (br'.inner ≡ br.inner)
      × (get_elem? br'.channels id ≡ some (leb (blocks n k) v.tracker.first_clear))
  unfolding ByteRanges.notify
  notify_followed =
      let t = notify_lem v.tracker (store_of br) v.tracks in
      rw (v.present, t.returned)
        (
          t.id,
          with_store br t.after t.world,
          refl,
          record {
            sized = Sized-with n k br.inner v.sized t.world.bits (ap length t.same_bits);
            tracker = t.after;
            present = refl;
            tracks = t.valid;
            from_zero = t.same_start ∙ v.from_zero;
            whole = ap bound t.same_last ∙ v.whole;
          },
          ap (λ b. record br.inner { bitmap = b }) t.same_bits,
          rw (← v.whole) t.closed,
        )
