-- ===== src/Lists/Double/Tests.antt =====
-- A list of three elements, from which the middle one is dropped, and the loop that collects.
use go_pkgs.Common.Int.{pos, ◌+ℤ◌, ◌-ℤ◌}
use go_pkgs.Common.{ℕ, none, some, ◌≡◌, refl, List, [], ◌∷◌, Bool, true, false, ◌==◌}
use go_pkgs.Lists.Ring.{update}
use go_pkgs.Lists.Iterate.{consume, head_of}
use go_pkgs.Lists.Entries.{Change, add_last, add_first, drop, drop_entry, element}
use go_pkgs.Lists.Double.{
  Double, new, reset, head, tail, append, prepend, insert_after_item, remove_item, remove,
  remove_reverse, forward, backward,
}
use go_pkgs.Lists.Double.Holds.{Holds}
use go_pkgs.Lists.Double.Refine.{change, run, model, run-model, new-Holds, run-Holds}
use go_pkgs.Lists.Double.Find.{remove-Holds, remove_loops}
use go_pkgs.Lists.Matches.{any, without_first, without_last}

abbrev collect : List ℕ → ℕ → List ℕ × Bool
collect xs x = (x ∷ xs, true)

abbrev changes : List (Change ℕ)
changes = add_last 20 ∷ add_last 30 ∷ add_first 10 ∷ drop 1 ∷ []

abbrev entries : List (ℕ × ℕ)
entries = (3, 10) ∷ (2, 30) ∷ []

model-changes : model changes 1 [] ≡ some entries
unfolding model drop_entry
model-changes = refl

run-model_example :
    (d : Double ℕ) × (run 0 changes (new 0) ≡ some d)
    × (forward collect 3 d [] ≡ some (30 ∷ 10 ∷ []))
    × (backward collect 3 d [] ≡ some (10 ∷ 30 ∷ []))
    × (d.len ≡ pos 2)
    × (head d ≡ some 10)
    × (tail d ≡ some 30)
unfolding consume element head_of
run-model_example = run-model 0 changes entries model-changes collect []

model-new : model changes (new {A = ℕ} 0).fresh [] ≡ some entries
unfolding new reset
model-new = model-changes

abbrev sample : Double ℕ
sample = elim (run 0 changes (new 0)) [ some d ↦ d | none ↦ new 0 ]

sample-Holds : Holds sample entries
sample-Holds =
    let (d, runs, h) = run-Holds 0 changes (new 0) [] entries (new-Holds 0) model-new in
    rw (sample, runs) h

sample_sentinel : (sample.val 0 == 7) ≡ false
unfolding run change new reset append prepend insert_after_item remove_item update ◌+ℤ◌ ◌-ℤ◌
sample_sentinel = refl

remove-Holds_example :
    (d₁ d₂ : Double ℕ) × (remove 0 30 ◌==◌ 2 sample ≡ some d₁)
    × Holds d₁ ((3, 10) ∷ [])
    × (remove_reverse 0 30 ◌==◌ 2 sample ≡ some d₂)
    × Holds d₂ ((3, 10) ∷ [])
unfolding any element without_first without_last
remove-Holds_example = remove-Holds 0 30 ◌==◌ sample entries sample-Holds refl

remove_loops_example : (remove 0 7 ◌==◌ 9 sample ≡ none) × (remove_reverse 0 7 ◌==◌ 9 sample ≡ none)
unfolding any element
remove_loops_example = remove_loops 0 7 ◌==◌ sample entries 9 sample-Holds refl sample_sentinel
