-- ===== src/Lists/Single/Tests.antt =====
-- A list of three elements, from which the first item is dropped, twice, and the loop that collects.
use go_pkgs.Common.Int.{pos}
use go_pkgs.Common.{ℕ, none, some, ◌≡◌, List, [], ◌∷◌, Bool, true, ◌==◌, arith}
use go_pkgs.Lists.Iterate.{consume, head_of}
use go_pkgs.Lists.Entries.{Change, add_last, add_first, drop, drop_entry, element}
use go_pkgs.Lists.Single.{Single, head, new, reset, remove, forward}
use go_pkgs.Lists.Single.Steps.{Keeps, without_entry}
use go_pkgs.Lists.Single.Refine.{run, model, run_lem, run-Keeps, new-Keeps}
use go_pkgs.Lists.Single.Find.{remove_lem}
use go_pkgs.Lists.Matches.{without_first}

abbrev collect : List ℕ → ℕ → List ℕ × Bool
collect xs x = (x ∷ xs, true)

abbrev changes : List (Change ℕ)
changes = add_last 20 ∷ add_last 30 ∷ add_first 10 ∷ drop 1 ∷ drop 1 ∷ []

run_lem_example :
    (s : Single ℕ) × (run 0 changes (new 0) ≡ some s)
    × (forward collect 3 s [] ≡ some (30 ∷ 10 ∷ []))
    × (s.len ≡ pos 2)
    × (head s ≡ some 10)
unfolding model without_entry drop_entry consume element head_of
run_lem_example = run_lem 0 changes collect []

abbrev sample : Single ℕ
sample = elim (run 0 changes (new 0)) [ some s ↦ s | none ↦ new 0 ]

sample-Keeps : Keeps sample ((3, 10) ∷ (2, 30) ∷ [])
unfolding model without_entry drop_entry new reset
sample-Keeps =
    let (s, runs, h) = run-Keeps 0 changes (new 0) [] (new-Keeps 0) in rw (sample, runs) h

remove_lem_example : (s : Single ℕ) × (remove 0 30 ◌==◌ 3 sample ≡ some s) × Keeps s ((3, 10) ∷ [])
unfolding without_first
remove_lem_example =
    remove_lem 0 30 ◌==◌ 3 sample ((3, 10) ∷ (2, 30) ∷ []) sample-Keeps (omega arith)
