-- ===== src/Bitmap/Tests.antt =====
-- Runs of the bitmap, and the theorems at concrete inputs.
use go_pkgs.Common.{ℕ, ◌≡◌, refl, Bool, true, List, [], ◌∷◌, ◌++◌, some, length, ltb, store}
use go_pkgs.Common.Int.{pos, negsuc}
use go_pkgs.Common.Bits.{bit}
use go_pkgs.Bitmap
use go_pkgs.Bitmap.{Bitmap}
use go_pkgs.Bitmap.Bits.{contains}
use go_pkgs.Bitmap.Scan.{first, next_set_lem}
use go_pkgs.Bitmap.Iterate.{for_each, select, all_set_lem}

-- Bits 1, 64 and 66.
abbrev sample : Bitmap
sample = 2 ∷ 5 ∷ []

abbrev collect : ℕ → List ℕ → Bool × List ℕ
collect n ns = (true, ns ++ n ∷ [])

abbrev collect_two : ℕ → List ℕ → Bool × List ℕ
collect_two n ns = (ltb (length ns) 1, ns ++ n ∷ [])

set_runs : Bitmap.set (0 ∷ 0 ∷ []) (pos 65) ≡ some (0 ∷ 2 ∷ [])
unfolding Bitmap.set Bitmap.set_unsafe store
set_runs = refl

clear_runs : Bitmap.clear sample (pos 66) ≡ some (2 ∷ 1 ∷ [])
unfolding Bitmap.clear Bitmap.clear_unsafe store
clear_runs = refl

next_runs :
    (Bitmap.next_set sample (pos 2) (pos 128) ≡ some (pos 64))
    × (Bitmap.next_set sample (pos 2) (pos 64) ≡ some (negsuc 0))
    × (Bitmap.next_clear sample (pos 64) (pos 128) ≡ some (pos 65))
unfolding Bitmap.next_set Bitmap.next_clear
next_runs = (refl, refl, refl)

all_set_runs :
    (Bitmap.all_set sample (pos 0) (pos 128) collect [] ≡ some (1 ∷ 64 ∷ 66 ∷ []))
    × (Bitmap.all_set sample (pos 0) (pos 128) collect_two [] ≡ some (1 ∷ 64 ∷ []))
unfolding Bitmap.all_set Bitmap.next_set
all_set_runs = (refl, refl)

next_set_lem_example : Bitmap.next_set sample (pos 2) (pos 128) ≡ some (pos 64)
unfolding first contains bit
next_set_lem_example = next_set_lem sample (pos 2) (pos 128)

all_set_lem_example : Bitmap.all_set sample (pos 0) (pos 128) collect [] ≡ some (1 ∷ 64 ∷ 66 ∷ [])
unfolding for_each select contains bit
all_set_lem_example = all_set_lem sample (pos 0) (pos 128) collect []
