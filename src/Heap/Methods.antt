-- ===== src/Heap/Methods.antt =====
-- The methods of a heap: what each returns, and that it keeps the heap order.
use mathlib.Core.List.{Perm, zip}
use mathlib.Core.List.Perm
use go_pkgs.Common.{
  ℕ, suc, ◌/◌, ◌≡◌, refl, ◌∙◌, Bool, List, [], ◌∷◌, ◌++◌, Option, some, arith, length,
  length-append,
}
use go_pkgs.Common.Order.{Order, toward}
use go_pkgs.Heap.{Heap, heapify, new, push}
use go_pkgs.Heap.Rearrange.{entries, IsSized}
use go_pkgs.Heap.Holes.{parent, IsHeapFrom}
use go_pkgs.Heap.Resift.{Restored, sift_up-Restored, heapify_from-Restored}
use go_pkgs.Heap.Cut.{get_or-append, new_last, zip-append}

module _ {ℓ κ} {K : Type ℓ} {V : Type κ} (O : Order K) (k0 : K) (v0 : V) where
  -- The heap's order: ascending, or descending if `max`.
  abbrev pub order : Heap K V → Order K
  order h = toward O h.max

  pub record IsHeap (h : Heap K V) : Type 0 where
    pub same : length h.keys ≡ length h.vals
    pub ordered : IsHeapFrom (order h) k0 0 (length h.keys) h.keys

  abbrev pub whole : {h : Heap K V} → IsHeap h → IsSized (length h.keys) h
  whole v = record { same = v.same; room = omega arith }

  -- A valid heap of exactly the entries `es`, ordered the same way.
  pub record Holds (h : Heap K V) (es : List (K × V)) (r : Option (Heap K V)) : Type (ℓ ⊔ κ) where
    pub after : Heap K V
    pub returned : r ≡ some after
    pub valid : IsHeap after
    pub perm : Perm (entries after) es
    pub same_max : after.max ≡ h.max
    pub same_callback : after.callback ≡ h.callback

  IsHeap-of_ordered :
      (m : Bool) (n : ℕ) (h : Heap K V)
      → h.max ≡ m
      → length h.keys ≡ n
      → IsSized n h
      → IsHeapFrom (toward O m) k0 0 n h.keys
      → IsHeap h
  IsHeap-of_ordered m n h e size s ordered = record {
    same = s.same;
    ordered = rw (e, size) ordered;
  }

  pub Holds-of_Restored :
      (n : ℕ) (h : Heap K V) {r : Option (Heap K V)}
      → length h.keys ≡ n
      → Restored O k0 v0 h.max 0 n h r
      → Holds h (entries h) r
  Holds-of_Restored n h size t = record {
    after = t.after;
    returned = t.returned;
    valid =
        IsHeap-of_ordered h.max n t.after t.rearranged.same_max (t.rearranged.size ∙ size)
          t.rearranged.sized t.ordered;
    perm = t.rearranged.perm;
    same_max = t.rearranged.same_max;
    same_callback = t.rearranged.same_callback;
  }

  -- NewMin and NewMax with data, keys and values of one length, never panic and give a valid heap of
  -- exactly those entries.
  pub new_heap :
      (max callback : Bool) (keys : List K) (vals : List V)
      → length keys ≡ length vals
      → Holds
          (record { keys = keys; vals = vals; max = max; callback = callback; calls = [] })
          (zip keys vals)
          (new O max callback (some (keys, vals)))
  unfolding new heapify
  new_heap max callback keys vals same =
      let h : Heap K V = record {
        keys = keys;
        vals = vals;
        max = max;
        callback = callback;
        calls = [];
      } in
      Holds-of_Restored (length keys) h refl (
        heapify_from-Restored O k0 v0 max (length keys / 2) (length keys) h refl
          (record { same = same; room = omega arith }) (λ c pos lt from. absurd (omega arith)))

  -- Push(k, v) on a valid heap never panics and gives a valid heap of the entries and (k, v).
  pub push_heap :
      (h : Heap K V) (k : K) (v : V) → IsHeap h → Holds h ((k, v) ∷ entries h) (push O h k v)
  unfolding push
  push_heap h k v valid =
      let n = length h.keys in
      let g : Heap K V = record h { keys = h.keys ++ k ∷ []; vals = h.vals ++ v ∷ [] } in
      let size : length g.keys ≡ suc n = omega (arith, length-append h.keys (k ∷ [])) in
      let kept = λ (c : ℕ). get_or-append h.keys (k ∷ []) c k0 in
      let t = Holds-of_Restored (suc n) g size (
        sift_up-Restored O k0 v0 h.max (suc n) g n (omega arith) refl
          (record {
            same =
                omega
                  (arith, valid.same, length-append h.keys (k ∷ []), length-append h.vals (v ∷ []));
            room = omega (arith, size);
          })
          (record {
            edges = λ c pos lt from ne np. ground (arith, kept c, kept (parent c), valid.ordered c);
            bridged = λ c pos lt from npos up. absurd (omega arith);
          })
          (λ c pos lt up. absurd (omega arith))) in
      record {
        after = t.after;
        returned = t.returned;
        valid = t.valid;
        perm =
            Perm.trans t.perm
              (rw (zip-append h.keys h.vals k v valid.same) (new_last (entries h) (k, v)));
        same_max = t.same_max;
        same_callback = t.same_callback;
      }
