-- ===== src/LargeFile/ByteRanges/Tests.antt =====
-- The theorems on byte ranges at concrete inputs.
use go_pkgs.Common.{
  ℕ, zero, suc, ◌+◌, ◌≤◌, ◌<◌, ◌≡◌, ◌⊎◌, refl, Bool, true, false, not, ◌||◌, List, [], ◌∷◌, ◌++◌,
  none, some, arith,
}
use go_pkgs.Common.Int.{pos}
use go_pkgs.Common.Bits.{bit}
use go_pkgs.Bitmap.Bits.{contains}
use go_pkgs.Bitmap.Iterate.{for_each, select}
use go_pkgs.Contiguous.{Contiguous}
use go_pkgs.LargeFile.Range.{ByteRange}
use go_pkgs.LargeFile.Range.Blocks.{blocks, block_range}
use go_pkgs.LargeFile.ByteRanges
use go_pkgs.LargeFile.ByteRanges.{Blocks, ByteRanges}
use go_pkgs.LargeFile.ByteRanges.Marks.{Sized, touches, marked, is_set-set_block}
use go_pkgs.LargeFile.ByteRanges.Search.{all_clear-blocks}
use go_pkgs.LargeFile.ByteRanges.Head.{IsFollowed, Advanced, set_advances}
use go_pkgs.LargeFile.ByteRanges.Tail.{head_to, no_head, tail_followed, empty_content_panics}

-- Ten bytes in blocks of four: blocks 0 and 2 are done, and somebody waits.
abbrev inner : Blocks
inner = record { content_size = pos 10; bitmap_size = pos 3; block_size = pos 4; bitmap = 5 ∷ [] }

abbrev tracker : Contiguous
tracker = record { last = pos 2; start = 0; first_clear = 1; ch = some 0 }

abbrev sample : ByteRanges
sample = record { inner = inner; contiguous = some tracker; channels = false ∷ [] }

inner-Sized : Sized 10 4 inner
unfolding blocks
inner-Sized = record {
  content = refl;
  count = refl;
  step = refl;
  positive = omega arith;
  small = omega arith;
  room = omega arith;
}

one_set : (j : ℕ) → 0 ≤ j → j < 1 → contains (5 ∷ []) j ≡ true
unfolding contains bit
one_set zero lo hi = refl
one_set (suc j) lo hi = absurd (omega arith)

sample-IsFollowed : IsFollowed 10 4 sample
unfolding contains bit blocks
sample-IsFollowed = record {
  sized = inner-Sized;
  tracker = tracker;
  present = refl;
  tracks = record {
    room = omega arith;
    lower = omega arith;
    upper = omega arith;
    run_set = one_set;
    stops = λ h. refl;
    channel = λ id e. let here : 0 ≡ id = ground arith in rw (← here) refl;
  };
  from_zero = refl;
  whole = refl;
}

abbrev collect : ByteRange → List ByteRange → Bool × List ByteRange
collect r rs = (true, rs ++ r ∷ [])

is_set-set_block_example :
    (br : Blocks) × (ByteRanges.set_block inner (pos 5) ≡ some br)
    × Sized 10 4 br
    × (ByteRanges.is_set br (pos 7) ≡ some (touches 10 4 (pos 5) 7 || marked 4 inner 7))
    × (ByteRanges.is_clear br (pos 7) ≡ some (not (touches 10 4 (pos 5) 7 || marked 4 inner 7)))
    × (ByteRanges.is_set inner (pos 7) ≡ some (marked 4 inner 7))
is_set-set_block_example = is_set-set_block 10 4 inner (pos 5) 7 inner-Sized (omega arith)

all_clear-blocks_example :
    ByteRanges.all_clear sample (pos 0) collect [] ≡ some (block_range 1 10 4 ∷ [])
unfolding for_each select contains bit blocks
all_clear-blocks_example = all_clear-blocks 10 4 sample 0 collect [] inner-Sized (omega arith)

-- Byte 5 lies in the block that is missing.
set_advances_example :
    Advanced 10 4 sample sample-IsFollowed (pos 5) (ByteRanges.set sample (pos 5))
set_advances_example = set_advances 10 4 sample sample-IsFollowed (pos 5)

tail_followed_example :
    (ByteRanges.tail sample ≡ some no_head) × (0 < 10 → marked 4 inner 0 ≡ false)
    ⊎ ((t : ℕ) × (ByteRanges.tail sample ≡ some (head_to t))
        × (t < 10)
        × ((p : ℕ) → p ≤ t → marked 4 inner p ≡ true)
        × (t + 1 < 10 → marked 4 inner (t + 1) ≡ false))
tail_followed_example = tail_followed 10 4 sample sample-IsFollowed

empty_content_panics_example :
    (br : ByteRanges) × (ByteRanges.new (pos 0) (pos 4) [] ≡ some br)
    × (ByteRanges.tail br ≡ none)
    × (ByteRanges.notify br ≡ none)
empty_content_panics_example = empty_content_panics 4 [] (omega arith) (omega arith)
