-- ===== src/Heap/Tests.antt =====
-- Runs of a heap, and the theorems at concrete inputs.
use mathlib.Core.List.{zip}
use go_pkgs.Common.{ℕ, ◌<◌, ◌≡◌, refl, true, false, [], ◌∷◌, none, some, arith, store}
use go_pkgs.Common.Order.{nat_order}
use go_pkgs.Heap.{
  Heap, new, push, pop, remove, exchange, notify_swap, swap, truncate, less, smaller_child,
  sift_down, sift_down_loop,
}
use go_pkgs.Heap.Rearrange.{entries}
use go_pkgs.Heap.Holes.{AtMost}
use go_pkgs.Heap.Methods.{order, IsHeap, Holds, new_heap, push_heap}
use go_pkgs.Heap.Removal.{Removed, entry, pop_first, remove-entry}

-- Descending, with a callback.
abbrev sample : Heap ℕ ℕ
sample = record {
  keys = 9 ∷ 7 ∷ 8 ∷ 2 ∷ [];
  vals = 90 ∷ 70 ∷ 80 ∷ 20 ∷ [];
  max = true;
  callback = true;
  calls = [];
}

sample-IsHeap : IsHeap nat_order 0 0 sample
sample-IsHeap = record { same = refl; ordered = λ c pos lt from. grind arith }

pop_runs :
    pop nat_order sample
    ≡ some (
      9,
      90,
      record {
        keys = 8 ∷ 7 ∷ 2 ∷ [];
        vals = 80 ∷ 70 ∷ 20 ∷ [];
        max = true;
        callback = true;
        calls =
            record { iv = 20; jv = 90; i = 0; j = 3 }
            ∷ record { iv = 80; jv = 20; i = 0; j = 2 }
            ∷ [];
      },
    )
unfolding pop swap exchange store notify_swap sift_down sift_down_loop smaller_child less truncate
pop_runs = refl

pop_empty : pop nat_order (record sample { keys = []; vals = [] }) ≡ none
unfolding pop
pop_empty = refl

abbrev unsorted : Heap ℕ ℕ
unsorted = record {
  keys = 4 ∷ 1 ∷ 3 ∷ [];
  vals = 40 ∷ 10 ∷ 30 ∷ [];
  max = false;
  callback = false;
  calls = [];
}

new_heap_example :
    Holds nat_order 0 0 unsorted
      (zip unsorted.keys unsorted.vals)
      (new nat_order false false (some (unsorted.keys, unsorted.vals)))
new_heap_example = new_heap nat_order 0 0 false false unsorted.keys unsorted.vals refl

push_heap_example :
    Holds nat_order 0 0 sample ((8, 81) ∷ entries sample) (push nat_order sample 8 81)
push_heap_example = push_heap nat_order 0 0 sample 8 81 sample-IsHeap

pop_first_example :
    Removed nat_order 0 0 sample (entry nat_order 0 0 sample 0) (pop nat_order sample)
    × ((i : ℕ) → i < 4 → AtMost (order nat_order 0 0 sample) 0 (9 ∷ 7 ∷ 8 ∷ 2 ∷ []) 0 i)
pop_first_example = pop_first nat_order 0 0 sample sample-IsHeap (omega arith)

remove-entry_example :
    Removed nat_order 0 0 sample (entry nat_order 0 0 sample 1) (remove nat_order sample 1)
remove-entry_example = remove-entry nat_order 0 0 sample 1 sample-IsHeap (omega arith)
