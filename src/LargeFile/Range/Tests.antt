-- ===== src/LargeFile/Range/Tests.antt =====
-- Runs of the range functions, and the theorems at concrete inputs.
use go_pkgs.Common.{ℕ, ◌/◌, ◌<◌, ◌≡◌, ◌↔◌, refl, Bool, true, List, [], ◌∷◌, ◌++◌, some, arith}
use go_pkgs.Common.Int.{pos, negsuc, wrap64, quot, rem, ◌+ℤ◌, ◌-ℤ◌, ◌*ℤ◌}
use go_pkgs.Bitmap.Iterate.{for_each}
use go_pkgs.LargeFile.Range
use go_pkgs.LargeFile.Range.{ByteRange}
use go_pkgs.LargeFile.Range.Blocks.{blocks}
use go_pkgs.LargeFile.Range.Partition.{InRange, range_for_index_partition, upto, ranges_lem}

abbrev range : ℕ → ℕ → ByteRange
range from to = record { from = pos from; to = pos to }

abbrev collect : ByteRange → List ByteRange → Bool × List ByteRange
collect r rs = (true, rs ++ r ∷ [])

ranges_run :
    Range.ranges (pos 5) (pos 14) (pos 4) collect []
    ≡ some (range 5 8 ∷ range 9 12 ∷ range 13 14 ∷ [])
unfolding Range.ranges Range.num_blocks wrap64 quot rem ◌+ℤ◌ ◌-ℤ◌ ◌*ℤ◌
ranges_run = refl

-- Sizes at the end of the 64-bit range overflow: the block ends before it starts.
range_overflows :
    Range.range_for_index (pos 1) (pos 0x7fff_ffff_ffff_ffff) (pos 0x4000_0000_0000_0001)
    ≡ record { from = pos 0x4000_0000_0000_0001; to = negsuc 0x7fff_ffff_ffff_fffe }
unfolding Range.range_for_index wrap64 ◌+ℤ◌ ◌-ℤ◌ ◌*ℤ◌
range_overflows = refl

range_for_index_partition_example :
    InRange (Range.range_for_index (pos 2) (pos 10) (pos 4)) 9 ↔ (9 < 10) × (9 / 4 ≡ 2)
unfolding blocks
range_for_index_partition_example =
    range_for_index_partition 10 4 2 9 (omega arith) (omega arith) (omega arith)

ranges_lem_example :
    Range.ranges (pos 5) (pos 14) (pos 4) collect []
    ≡ some (range 5 8 ∷ range 9 12 ∷ range 13 14 ∷ [])
unfolding for_each upto blocks
ranges_lem_example = ranges_lem 5 10 4 collect (omega arith) (omega arith) [] (omega arith)
