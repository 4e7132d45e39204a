-- ===== src/Contiguous.antt =====
-- algo/container/bitmap/contiguous.go: the tail of a run of set bits, and the channel that is closed
-- when the tail moves. The bitmap is shared with its owner and the channels with the receivers, so
-- both live in a store that the operations pass on.
pub mod Extend
pub mod Invariant
pub mod Track
pub mod Watch
mod Tests
use go_pkgs.Common.{
  ℕ, zero, suc, ◌+◌, ◌-◌, ◌*◌, ◌%◌, Bool, true, false, ◌||◌, List, [], ◌∷◌, ◌++◌, Option, none,
  some, length, get_elem?, store, ltb, leb, ◌==◌, if◌then◌else◌, ◌>>=◌,
}
use go_pkgs.Common.Int.{ℤ, pos, negsuc, pos_part, neg_part, min_ℤ, leb_ℤ, ltb_ℤ, ◌-ℤ◌}
use go_pkgs.Bitmap
use go_pkgs.Bitmap.{Bitmap, minus_one, last_of}

-- A channel that carries no values is known by whether it is closed; its number is its place here.
pub record Store : Type 0 where
  pub bits : Bitmap
  pub channels : List Bool

-- The struct less `bits`, which is the store's.
pub record Contiguous : Type 0 where
  pub last : ℤ
  pub start : ℕ
  pub first_clear : ℕ
  pub ch : Option ℕ

-- `make(chan struct{})`
make_channel : List Bool → ℕ × List Bool
make_channel channels = (length channels, channels ++ false ∷ [])

-- A close of a closed channel panics.
close : ℕ → List Bool → Option (List Bool)
close id channels = do
  closed ← get_elem? channels id
  if closed then none else store channels id true

-- The loop of `extend` from `nb`; the result is the new firstClear.
extend_from : ℕ → Bitmap → ℤ → ℕ → ℕ → Option ℕ
extend_from zero bits last nb first_clear = none
extend_from (suc fuel) bits last nb first_clear =
    let rest = extend_from fuel bits last (nb + 1) (first_clear + 1) in
    let body = Bitmap.is_set_unsafe bits (pos nb) >>= λ s. if s then rest else some first_clear in
    if leb_ℤ (pos nb) last then body else some first_clear

-- One round for each index up to `last`, and one to see the end.
rounds : ℤ → ℕ
rounds (pos n) = suc (suc n)
rounds (negsuc _) = 1

unfoldable pub extend : Contiguous → Bitmap → ℕ → Option Contiguous
unfolding extend_from rounds
extend c bits start = do
  first_clear ← extend_from (rounds c.last) bits c.last start c.first_clear
  some (record c { first_clear = first_clear })

-- `none` inside is the nil pointer.
unfoldable pub new_contiguous : Bitmap → ℤ → ℤ → Option (Option Contiguous)
new_contiguous bm (negsuc _) size = some none
new_contiguous bm (pos start) size =
    let c : Contiguous = record {
      last = last_of bm size -ℤ pos 1;
      start = start;
      first_clear = start;
      ch = none;
    } in
    if leb_ℤ size (pos 0) || ltb_ℤ size (pos start)
    then some none
    else do c' ← extend c bm start; some (some c')

-- NewContiguous, with the bitmap that it makes.
unfoldable pub new : ℤ → ℤ → Option (Bitmap × Option Contiguous)
unfolding new_contiguous
new start size = do c ← new_contiguous (Bitmap.new size) start size; some (Bitmap.new size, c)

unfoldable pub new_with_bitmap : Bitmap → ℤ → ℤ → Option (Option Contiguous)
unfolding new_contiguous
new_with_bitmap bm start size =
    if ltb_ℤ (pos (length bm * 64)) size then some none else new_contiguous bm start size

-- Notify on a channel that is yet to be made.
fresh_channel : Contiguous → Store → Option (ℕ × Contiguous × Store)
unfolding make_channel close
fresh_channel c s =
    let (id, channels) = make_channel s.channels in
    let c' = record c { ch = some id } in
    if ltb_ℤ c.last (pos c.first_clear)
    then (do closed ← close id channels; some (id, c', record s { channels = closed }))
    else some (id, c', record s { channels = channels })

unfoldable pub notify : Contiguous → Store → Option (ℕ × Contiguous × Store)
unfolding fresh_channel
notify c s = elim c.ch [ some id ↦ some (id, c, s) | none ↦ fresh_channel c s ]

-- The end of Set: tell whoever waits, if there is a channel and the tail has moved.
signal : Contiguous → Store → Option (Contiguous × Store)
unfolding close
signal c s = elim c.ch [
  | none ↦ some (c, s)
  | some id ↦ if leb c.first_clear c.start then some (c, s) else do
    channels ← close id s.channels
    some (record c { ch = none }, record s { channels = channels })
]

unfoldable pub set : Contiguous → Store → ℤ → Option (Contiguous × Store)
unfolding signal
set c s (negsuc _) = some (c, s)
set c s (pos i) = if ltb_ℤ c.last (pos i) then some (c, s) else do
  bits ← Bitmap.set_unsafe s.bits (pos i)
  let s' = record s { bits = bits }
  if i == c.first_clear then (do c' ← extend c bits c.first_clear; signal c' s') else some (c, s')

unfoldable pub tail : Contiguous → ℤ
tail c = if leb c.first_clear c.start then minus_one else pos c.first_clear -ℤ pos 1
