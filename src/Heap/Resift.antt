-- ===== src/Heap/Resift.antt =====
-- siftUp, the two together, and heapify.
use go_pkgs.Common.{
  ℕ, zero, suc, ◌<◌, ◌≡◌, refl, ◌∙◌, inl, inr, Bool, false, List, Option, some, arith, get_or, ltb,
  lt→ltb, ◌==◌, Bool-cases,
}
use go_pkgs.Common.Order.{Order, toward}
use go_pkgs.Heap.{Heap, sift_down, sift_up_loop, sift_up, resift, heapify_from}
use go_pkgs.Heap.Rearrange.{IsSized, Rearranged, Rearranged-rfl, Rearranged-trans, swap-Swapped}
use go_pkgs.Heap.Holes.{
  parent, IsHeapFrom, IsHole, IsSettled, IsBelowParent, IsHeapFrom-of_hole, IsHole-up, IsSettled-up,
}
use go_pkgs.Heap.Sift.{less-eq, sift_down_loop-Sunk}

module _ {ℓ κ} {K : Type ℓ} {V : Type κ} (O : Order K) (k0 : K) (v0 : V) (m : Bool) where
  -- The order is restored among the first `n` entries, for parents from `lo` on.
  pub record Restored (lo n : ℕ) (h : Heap K V) (r : Option (Heap K V)) : Type (ℓ ⊔ κ) where
    pub after : Heap K V
    pub returned : r ≡ some after
    pub rearranged : Rearranged k0 v0 n h after
    pub ordered : IsHeapFrom (toward O m) k0 lo n after.keys

  pub Restored-after :
      {lo n : ℕ} {h h' : Heap K V} {r : Option (Heap K V)}
      → Rearranged k0 v0 n h h'
      → Restored lo n h' r
      → Restored lo n h r
  Restored-after first rest = record {
    after = rest.after;
    returned = rest.returned;
    rearranged = Rearranged-trans k0 v0 first rest.rearranged;
    ordered = rest.ordered;
  }

  sift_up_loop-Restored :
      (fuel n : ℕ) (h : Heap K V) (i : ℕ)
      → i < fuel
      → i < n
      → h.max ≡ m
      → IsSized n h
      → IsHole (toward O m) k0 0 n h.keys i
      → IsSettled (toward O m) k0 n h.keys i
      → Restored 0 n h (sift_up_loop O fuel h i)
  unfolding sift_up_loop
  sift_up_loop-Restored zero n h i f lt e s hole settled = absurd (omega arith)
  sift_up_loop-Restored (suc fuel) n h i f lt e s hole settled = elim (Bool-cases (parent i == i)) [
    | inl root ↦ rw root (stop (λ pos from. absurd (ground arith)))
    | inr under ↦
        let pos : 0 < i = ground arith in
        rw
          (
            under,
            less-eq O k0 v0 m h i (parent i) e (omega (arith, s.room)) (omega (arith, s.room)),
          )
          (elim (Bool-cases ((toward O m).lt (get_or h.keys i k0) (get_or h.keys (parent i) k0))) [
            | inr stays ↦ rw stays (stop (λ pos' from. stays))
            | inl smaller ↦
                let w = swap-Swapped k0 v0 n h s (parent i) i (omega arith) lt in
                let hole' =
                  rw (← w.keys) at
                    (IsHole-up (toward O m) k0 n h.keys i hole settled s.room pos lt smaller) in
                let settled' =
                  rw (← w.keys) at
                    (IsSettled-up (toward O m) k0 n h.keys i hole settled s.room pos lt smaller) in
                rw (smaller, w.returned)
                  (Restored-after w.rearranged (
                    sift_up_loop-Restored fuel n w.after (parent i) (omega arith) (omega arith)
                      (w.rearranged.same_max ∙ e) w.rearranged.sized hole' settled'))
          ])
  ]
    where
      stop : IsBelowParent (toward O m) k0 0 h.keys i → Restored 0 n h (some h)
      stop above = record {
        after = h;
        returned = refl;
        rearranged = Rearranged-rfl k0 v0 s;
        ordered = IsHeapFrom-of_hole (toward O m) k0 0 n h.keys i hole settled above;
      }

  pub sift_up-Restored :
      (n : ℕ) (h : Heap K V) (i : ℕ)
      → i < n
      → h.max ≡ m
      → IsSized n h
      → IsHole (toward O m) k0 0 n h.keys i
      → IsSettled (toward O m) k0 n h.keys i
      → Restored 0 n h (sift_up O h i)
  unfolding sift_up
  sift_up-Restored n h i = sift_up_loop-Restored (suc i) n h i (omega arith)

  -- Both, from a hole whose own edge may be broken either way.
  pub resift-Restored :
      (n : ℕ) (h : Heap K V) (i : ℕ)
      → i < n
      → h.max ≡ m
      → IsSized n h
      → IsHole (toward O m) k0 0 n h.keys i
      → Restored 0 n h (resift O h i n)
  unfolding resift sift_down
  resift-Restored n h i lt e s hole =
      let down = sift_down_loop-Sunk O k0 v0 m (suc n) 0 n h i (omega arith) e s hole in
      rw down.returned (elim down.outcome [
        | inl (moved, ordered) ↦ rw (lt→ltb i down.place moved) (record {
          after = down.after;
          returned = refl;
          rearranged = down.rearranged;
          ordered = ordered;
        })
        | inr (same, kept, settled) ↦
            let unmoved : ltb i down.place ≡ false = ground arith in
            rw (unmoved, kept) (sift_up-Restored n h i lt e s hole settled)
      ])

  -- siftDown alone, from a hole whose parent is out of reach.
  pub sift_down-Restored :
      (lo n : ℕ) (h : Heap K V) (p : ℕ)
      → h.max ≡ m
      → IsSized n h
      → IsHole (toward O m) k0 lo n h.keys p
      → IsBelowParent (toward O m) k0 lo h.keys p
      → (moved : Bool) × (h' : Heap K V) × (sift_down O h p n ≡ some (h', moved))
        × Restored lo n h (some h')
  unfolding sift_down
  sift_down-Restored lo n h p e s hole above =
      let down = sift_down_loop-Sunk O k0 v0 m (suc n) lo n h p (omega arith) e s hole in
      (
        ltb p down.place,
        down.after,
        rw down.returned refl,
        record {
          after = down.after;
          returned = refl;
          rearranged = down.rearranged;
          ordered = elim down.outcome [
            | inl (moved, ordered) ↦ ordered
            | inr (same, kept, settled) ↦
                rw kept (IsHeapFrom-of_hole (toward O m) k0 lo n h.keys p hole settled above)
          ];
        },
      )

  IsHole-of_rest :
      (i n : ℕ) (xs : List K)
      → IsHeapFrom (toward O m) k0 (suc i) n xs
      → IsHole (toward O m) k0 i n xs i
  IsHole-of_rest i n xs h = record {
    edges = λ c pos lt from ne np. h c pos lt (omega arith);
    bridged = λ c pos lt from ipos up. absurd (omega arith);
  }

  -- Each round of heapify brings one more parent into the order.
  pub heapify_from-Restored :
      (i n : ℕ) (h : Heap K V)
      → h.max ≡ m
      → IsSized n h
      → IsHeapFrom (toward O m) k0 i n h.keys
      → Restored 0 n h (heapify_from O i n h)
  unfolding heapify_from
  heapify_from-Restored zero n h e s ordered = record {
    after = h;
    returned = refl;
    rearranged = Rearranged-rfl k0 v0 s;
    ordered = ordered;
  }
  heapify_from-Restored (suc i) n h e s ordered =
      let (moved, h', returned, r) =
        sift_down-Restored i n h i e s (IsHole-of_rest i n h.keys ordered)
          (λ pos from. absurd (omega arith)) in
      let same : r.after ≡ h' = ground (arith, r.returned) in
      rw returned (
        rw same at (
          Restored-after r.rearranged (
            heapify_from-Restored i n r.after (r.rearranged.same_max ∙ e) r.rearranged.sized
              r.ordered)))
