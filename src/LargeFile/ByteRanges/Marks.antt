-- ===== src/LargeFile/ByteRanges/Marks.antt =====
-- byteRanges (and with Clear, ByteRangesTracker): one mark for each block of the content.
use native.Mathlib.Nat.{div-le_self}
use go_pkgs.Common.{
  ℕ, ◌+◌, ◌*◌, ◌/◌, ◌^◌, ◌≤◌, ◌<◌, ◌≡◌, refl, ◌∙◌, ap, Bool, false, not, ◌&&◌, ◌||◌, Option, some,
  arith, length, ltb, ◌==◌, dec_lt,
}
use go_pkgs.Common.Int.{ℤ, pos, negsuc, ltb_ℤ, wrap64-pos, quot}
use go_pkgs.Bitmap
use go_pkgs.Bitmap.{Bitmap, minus_one}
use go_pkgs.Bitmap.Bits.{
  contains, new_lem, clear_lem as bits_clear_lem, set_unsafe_lem, is_set_lem, is_set_unsafe-eq,
}
use go_pkgs.LargeFile.Range.Blocks.{blocks, block-lt, num_blocks-blocks}
use go_pkgs.LargeFile.ByteRanges
use go_pkgs.LargeFile.ByteRanges.{Blocks}

-- `n` bytes of content in blocks of `k`, small enough for the 64-bit arithmetic, with a bit for each.
pub record Sized (n k : ℕ) (br : Blocks) : Type 0 where
  pub content : br.content_size ≡ pos n
  pub count : br.bitmap_size ≡ pos (blocks n k)
  pub step : br.block_size ≡ pos k
  pub positive : 0 < k
  pub small : n + k ≤ 2 ^ 63
  pub room : blocks n k ≤ length br.bitmap * 64

-- The byte that `p` names lies in the content and in the block of byte `q`.
abbrev pub touches : ℕ → ℕ → ℤ → ℕ → Bool
touches n k (pos p) q = ltb p n && (p / k == q / k)
touches n k (negsuc _) q = false

-- The block of byte `p` is marked.
abbrev pub marked : ℕ → Blocks → ℕ → Bool
marked k br p = contains br.bitmap (p / k)

module _ (n k : ℕ) (br : Blocks) (v : Sized n k br) where
  -- Block(pos) is the quotient by the block size for a position in the content.
  pub block_inside : (p : ℕ) → p < n → ByteRanges.block br (pos p) ≡ some (pos (p / k))
  unfolding ByteRanges.block quot
  block_inside p h =
      let fits : p / k < 2 ^ 63 = omega (arith, div-le_self p k, v.small, v.positive) in
      rw (v.content, v.step, v.count, wrap64-pos (p / k) fits)
        (ground (arith, block-lt n k p v.positive h, v.positive))

  pub block_past : (p : ℕ) → n ≤ p → ByteRanges.block br (pos p) ≡ some minus_one
  unfolding ByteRanges.block
  block_past p h = rw (v.content) (ground arith)

  pub block_negative : (p : ℕ) → ByteRanges.block br (negsuc p) ≡ some minus_one
  unfolding ByteRanges.block
  block_negative p = ground arith

pub not_negative : (i : ℕ) → ltb_ℤ (pos i) (pos 0) ≡ false
not_negative i = ground arith

-- What a change of the marks returns: a state of the same sizes with the marks `f`.
pub record Remarked (n k : ℕ) (f : ℕ → Bool) (r : Option Blocks) : Type 0 where
  pub after : Blocks
  pub returned : r ≡ some after
  pub valid : Sized n k after
  pub marks : (q : ℕ) → marked k after q ≡ f q

module _ (n k : ℕ) (br : Blocks) (v : Sized n k br) where
  -- Another bitmap of the same length.
  pub Sized-with : (b : Bitmap) → length b ≡ length br.bitmap → Sized n k (record br { bitmap = b })
  Sized-with b e = record {
    content = v.content;
    count = v.count;
    step = v.step;
    positive = v.positive;
    small = v.small;
    room = omega (arith, e, v.room);
  }

  Remarked-same : {f : ℕ → Bool} → ((q : ℕ) → marked k br q ≡ f q) → Remarked n k f (some br)
  Remarked-same same = record { after = br; returned = refl; valid = v; marks = same }

  pub block-room : (p : ℕ) → p < n → p / k < length br.bitmap * 64
  block-room p h = omega (arith, block-lt n k p v.positive h, v.room)

  -- Set(pos) never panics. It marks the block of a position in the content, and no other.
  pub set_block_lem :
      (p : ℤ) → Remarked n k (λ q. touches n k p q || marked k br q) (ByteRanges.set_block br p)
  unfolding ByteRanges.set_block
  set_block_lem (negsuc p) = rw (block_negative n k br v p) (Remarked-same (λ q. refl))
  set_block_lem (pos p) = elim (dec_lt p n) [
    | yes h ↦
        let u = set_unsafe_lem br.bitmap (p / k) (block-room p h) in
        rw (block_inside n k br v p h, not_negative (p / k), u.returned)
          (record {
            after = record br { bitmap = u.result };
            returned = refl;
            valid = Sized-with u.result u.same_length;
            marks = λ q. u.bits (q / k) ∙ ground arith;
          })
    | no past ↦ rw (block_past n k br v p (omega arith)) (Remarked-same (λ q. ground arith))
  ]

  -- Clear(pos) never panics. It clears the mark of the block of a position in the content, and no
  -- other.
  pub clear_lem :
      (p : ℤ) → Remarked n k (λ q. not (touches n k p q) && marked k br q) (ByteRanges.clear br p)
  unfolding ByteRanges.clear
  clear_lem (negsuc p) = rw (block_negative n k br v p) (Remarked-same (λ q. refl))
  clear_lem (pos p) = elim (dec_lt p n) [
    | yes h ↦
        let u = bits_clear_lem br.bitmap (pos (p / k)) in
        rw (block_inside n k br v p h, not_negative (p / k), u.returned)
          (record {
            after = record br { bitmap = u.result };
            returned = refl;
            valid = Sized-with u.result u.same_length;
            marks = λ q. u.bits (q / k) ∙ ground arith;
          })
    | no past ↦ rw (block_past n k br v p (omega arith)) (Remarked-same (λ q. ground arith))
  ]

  -- IsSet(pos) never panics: it is the mark of the block of a position in the content, else false.
  pub is_set_inside : (p : ℕ) → p < n → ByteRanges.is_set br (pos p) ≡ some (marked k br p)
  unfolding ByteRanges.is_set
  is_set_inside p h = rw (
    block_inside n k br v p h,
    not_negative (p / k),
    is_set_unsafe-eq br.bitmap (p / k) (block-room p h),
  )

  pub is_clear_inside :
      (p : ℕ) → p < n → ByteRanges.is_clear br (pos p) ≡ some (not (marked k br p))
  unfolding ByteRanges.is_clear
  is_clear_inside p h =
      rw (block_inside n k br v p h, not_negative (p / k), is_set_lem br.bitmap (pos (p / k)))

  pub outside :
      (p : ℤ)
      → ByteRanges.block br p ≡ some minus_one
      → (ByteRanges.is_set br p ≡ some false) × (ByteRanges.is_clear br p ≡ some false)
  unfolding ByteRanges.is_set ByteRanges.is_clear
  outside p e = (rw e, rw e)

-- After Set(p), IsSet of a position in the content is true for every position in p's block, if p
-- lies in the content, and as before for all others; IsClear is its opposite there; and Set never
-- panics.
pub is_set-set_block :
    (n k : ℕ) (br : Blocks) (p : ℤ) (q : ℕ)
    → Sized n k br
    → q < n
    → (br' : Blocks) × (ByteRanges.set_block br p ≡ some br')
      × Sized n k br'
      × (ByteRanges.is_set br' (pos q) ≡ some (touches n k p q || marked k br q))
      × (ByteRanges.is_clear br' (pos q) ≡ some (not (touches n k p q || marked k br q)))
      × (ByteRanges.is_set br (pos q) ≡ some (marked k br q))
is_set-set_block n k br p q v h =
    let r = set_block_lem n k br v p in
    (
      r.after,
      r.returned,
      r.valid,
      is_set_inside n k r.after r.valid q h ∙ ap some (r.marks q),
      is_clear_inside n k r.after r.valid q h ∙ ap (λ m. some (not m)) (r.marks q),
      is_set_inside n k br v q h,
    )

-- After Clear(p), IsSet of a position in the content is false for every position in p's block, if p
-- lies in the content, and as before for all others; and Clear never panics.
pub is_set-clear :
    (n k : ℕ) (br : Blocks) (p : ℤ) (q : ℕ)
    → Sized n k br
    → q < n
    → (br' : Blocks) × (ByteRanges.clear br p ≡ some br')
      × Sized n k br'
      × (ByteRanges.is_set br' (pos q) ≡ some (not (touches n k p q) && marked k br q))
      × (ByteRanges.is_set br (pos q) ≡ some (marked k br q))
is_set-clear n k br p q v h =
    let r = clear_lem n k br v p in
    (
      r.after,
      r.returned,
      r.valid,
      is_set_inside n k r.after r.valid q h ∙ ap some (r.marks q),
      is_set_inside n k br v q h,
    )

-- The position lies in the content.
abbrev pub in_content : ℕ → ℤ → Bool
in_content n (pos p) = ltb p n
in_content n (negsuc _) = false

-- At a position outside the content IsSet and IsClear are both false, and neither panics.
pub outside_content :
    (n k : ℕ) (br : Blocks) (p : ℤ)
    → Sized n k br
    → in_content n p ≡ false
    → (ByteRanges.is_set br p ≡ some false) × (ByteRanges.is_clear br p ≡ some false)
outside_content n k br (pos p) v h = outside n k br v (pos p) (block_past n k br v p (ground arith))
outside_content n k br (negsuc p) v h = outside n k br v (negsuc p) (block_negative n k br v p)

-- newByteRanges, for a block size above 0 and sizes that do not overflow, marks nothing and has a bit
-- for each block.
pub new_blocks_lem :
    (n k : ℕ)
    → 0 < k
    → n + k ≤ 2 ^ 63
    → Remarked n k (λ q. false) (ByteRanges.new_blocks (pos n) (pos k))
unfolding ByteRanges.new_blocks
new_blocks_lem n k h small =
    let (room, _, clear, _) = new_lem (blocks n k) in
    rw (num_blocks-blocks n k h (omega arith)) (record {
      after = record {
        content_size = pos n;
        bitmap_size = pos (blocks n k);
        block_size = pos k;
        bitmap = Bitmap.new (pos (blocks n k));
      };
      returned = refl;
      valid = record {
        content = refl;
        count = refl;
        step = refl;
        positive = h;
        small = small;
        room = room;
      };
      marks = λ q. clear (q / k);
    })
