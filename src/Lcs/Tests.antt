-- ===== src/Lcs/Tests.antt =====
-- Two words of numbers, in place of the bytes of the tests' strings.
use go_pkgs.Common.{ℕ, ◌+◌, store, some, ◌≡◌, ◌≤◌, refl, List, [], ◌∷◌, length}
use go_pkgs.Common.Equality.{nat_equality}
use go_pkgs.Common.Loop.{for}
use go_pkgs.Lcs.{
  new, all_lcs, lcs, ses, apply, reverse, fill, fill_row, fill_cell, backtrack, choose, read, write,
  blank, Edit,
}
use go_pkgs.Lcs.Best.{Picks}
use go_pkgs.Lcs.Backtrack.{lcs_lem}
use go_pkgs.Lcs.Members.{In}
use go_pkgs.Lcs.All.{all_lcs_lem}
use go_pkgs.Lcs.Edits.{Walk, kept}
use go_pkgs.Lcs.Script.{apply-ses, ses-lcs}

abbrev before : List ℕ
before = 1 ∷ 2 ∷ 3 ∷ []

abbrev after : List ℕ
after = 2 ∷ 4 ∷ 3 ∷ []

lcs_lem_example :
    (r : List ℕ) × (lcs nat_equality (new before after) ≡ some r)
    × Picks before r 3
    × Picks after r 3
    × ((t : List ℕ) → Picks before t 3 → Picks after t 3 → length t ≤ length r)
lcs_lem_example = lcs_lem nat_equality before after

apply-ses_example :
    (es : List (Edit ℕ)) × (ses nat_equality (new before after) ≡ some es)
    × (apply es before ≡ some after)
    × (apply (reverse es) after ≡ some before)
apply-ses_example = apply-ses nat_equality before after

ses-lcs_example :
    (es : List (Edit ℕ)) × (r : List ℕ) × (ses nat_equality (new before after) ≡ some es)
    × (lcs nat_equality (new before after) ≡ some r)
    × Walk before after 3 3 es
    × (kept es ≡ length r)
    × (length es + length r ≡ 6)
ses-lcs_example = ses-lcs nat_equality before after

lcs_run : lcs nat_equality (new before after) ≡ some (2 ∷ 3 ∷ [])
unfolding lcs new fill fill_row fill_cell backtrack choose for read blank write store
lcs_run = refl

all_lcs_lem_example :
    (rs : List (List ℕ)) × (all_lcs nat_equality (new before after) ≡ some rs)
    × ((t : List ℕ)
        → In t rs
        → Picks before t 3
          × Picks after t 3
          × ((u : List ℕ) → Picks before u 3 → Picks after u 3 → length u ≤ length t)
          × (1 ≤ length t))
    × ((t : List ℕ)
        → Picks before t 3
        → Picks after t 3
        → ((u : List ℕ) → Picks before u 3 → Picks after u 3 → length u ≤ length t)
        → 1 ≤ length t
        → In t rs)
all_lcs_lem_example = all_lcs_lem nat_equality before after
