-- ===== src/Bitmap.antt =====
-- algo/container/bitmap/bitmap.go. `T` is a slice of uint64 words, bit `i` being bit `i % 64` of word
-- `i / 64`. Updates in place return the new slice. An `int` argument is a ℤ.
pub mod Bits
pub mod Scan
pub mod Iterate
mod Tests
use go_pkgs.Common.{
  ℕ, zero, suc, ◌+◌, ◌-◌, ◌*◌, ◌/◌, ◌%◌, ◌^◌, bit_and, bit_or, bit_xor, Bool, true, false, not,
  ◌&&◌, List, [], Option, none, some, length, get_elem?, replicate, store, ltb, leb, ◌==◌,
  if◌then◌else◌, ◌>>=◌,
}
use go_pkgs.Common.Int.{ℤ, pos, negsuc, pos_part, neg_part, min_ℤ, leb_ℤ}

abbrev pub Bitmap : Type 0
Bitmap = List ℕ

abbrev pub minus_one : ℤ
minus_one = negsuc 0

-- math.MaxUint64
abbrev pub max_uint64 : ℕ
max_uint64 = 2 ^ 64 - 1

-- New, for sizes up to 2^63 - 64: above that `size + 63` wraps in Go.
unfoldable pub new : ℤ → Bitmap
new (negsuc _) = []
new (pos size) = if leb size 0 then [] else replicate ((size + 63) / 64) 0

-- A negative index panics: as an index, or as the shift count.
unfoldable pub set_unsafe : Bitmap → ℤ → Option Bitmap
set_unsafe b (negsuc _) = none
set_unsafe b (pos i) = do w ← get_elem? b (i / 64); store b (i / 64) (bit_or w (2 ^ (i % 64)))

unfoldable pub set : Bitmap → ℤ → Option Bitmap
set b (negsuc _) = some b
set b (pos i) = if leb (length b * 64) i then some b else set_unsafe b (pos i)

-- `x &^ y` is `x & ^y`.
abbrev and_not : ℕ → ℕ → ℕ
and_not x y = bit_and x (bit_xor y max_uint64)

unfoldable pub clear_unsafe : Bitmap → ℤ → Option Bitmap
clear_unsafe b (negsuc _) = none
clear_unsafe b (pos i) = do w ← get_elem? b (i / 64); store b (i / 64) (and_not w (2 ^ (i % 64)))

unfoldable pub clear : Bitmap → ℤ → Option Bitmap
clear b (negsuc _) = some b
clear b (pos i) = if leb (length b * 64) i then some b else clear_unsafe b (pos i)

unfoldable pub is_set_unsafe : Bitmap → ℤ → Option Bool
is_set_unsafe b (negsuc _) = none
is_set_unsafe b (pos i) = do w ← get_elem? b (i / 64); some (not (bit_and w (2 ^ (i % 64)) == 0))

unfoldable pub is_set : Bitmap → ℤ → Option Bool
is_set b (negsuc _) = some false
is_set b (pos i) = if leb (length b * 64) i then some false else is_set_unsafe b (pos i)

-- The loop that NextSet and NextClear share: from `nb` on, a word equal to `skip` is passed over
-- whole, and the loop returns at the first bit whose masked word is accepted.
scan : ℕ → (ℕ → Bool) → ℕ → Bitmap → ℕ → ℕ → Option ℤ
scan skip accept zero b nb last = none
scan skip accept (suc fuel) b nb last =
    let next_word = scan skip accept fuel b (nb + 64) last in
    let next_bit = scan skip accept fuel b (nb + 1) last in
    if leb last nb then some minus_one else do
      w ← get_elem? b (nb / 64)
      if nb % 64 == 0 && w == skip
          then next_word
          else if accept (bit_and w (2 ^ (nb % 64)))
          then some (pos nb)
          else next_bit

-- `min(len(b)*64, size)`
abbrev pub last_of : Bitmap → ℤ → ℤ
last_of b size = min_ℤ (pos (length b * 64)) size

unfoldable pub next_set : Bitmap → ℤ → ℤ → Option ℤ
unfolding scan
next_set b (negsuc _) size = some minus_one
next_set b (pos start) size =
    let last = last_of b size in
    if leb_ℤ last (pos start)
    then some minus_one
    else scan 0 (λ m. not (m == 0)) (suc (pos_part last)) b start (pos_part last)

unfoldable pub next_clear : Bitmap → ℤ → ℤ → Option ℤ
unfolding scan
next_clear b (negsuc _) size = some minus_one
next_clear b (pos start) size =
    let last = last_of b size in
    if leb_ℤ last (pos start)
    then some minus_one
    else scan max_uint64 (λ m. m == 0) (suc (pos_part last)) b start (pos_part last)

-- An iterator hands each index to `yield`, a function over the caller's state, until it says false.
-- `next` is NextSet or NextClear, of a bitmap that `yield` does not change.
iterate {ℓ} : {S : Type ℓ} → (ℤ → Option ℤ) → (ℕ → S → Bool × S) → ℕ → Option ℤ → S → Option S
iterate next yield zero found s = none
iterate next yield (suc fuel) none s = none
iterate next yield (suc fuel) (some (negsuc _)) s = some s
iterate next yield (suc fuel) (some (pos n)) s =
    let (more, s') = yield n s in
    let rest = iterate next yield fuel (next (pos (n + 1))) s' in if more then rest else some s'

unfoldable pub all_set {ℓ} : {S : Type ℓ} → Bitmap → ℤ → ℤ → (ℕ → S → Bool × S) → S → Option S
unfolding iterate
all_set b start size yield s =
    iterate (λ i. next_set b i size) yield (length b * 64 + 1) (next_set b start size) s

unfoldable pub all_clear {ℓ} : {S : Type ℓ} → Bitmap → ℤ → ℤ → (ℕ → S → Bool × S) → S → Option S
unfolding iterate
all_clear b start size yield s =
    iterate (λ i. next_clear b i size) yield (length b * 64 + 1) (next_clear b start size) s
