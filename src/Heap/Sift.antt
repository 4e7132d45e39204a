-- ===== src/Heap/Sift.antt =====
-- siftDown and siftUp: they end, never panic, restore the heap order and keep the entries.
use go_pkgs.Common.{
  ℕ, zero, suc, ◌+◌, ◌-◌, ◌*◌, ◌<◌, ◌≡◌, ◌⊎◌, refl, ◌∙◌, inl, inr, Bool, true, false, Option, some,
  arith, length, get_or, get_elem?-eq-get_or, ltb, leb, if◌then◌else◌, Bool-cases,
}
use go_pkgs.Common.Order.{Order, toward, irrefl}
use go_pkgs.Heap.{Heap, less, smaller_child, sift_down_loop}
use go_pkgs.Heap.Rearrange.{IsSized, Rearranged, Rearranged-rfl, Rearranged-trans, swap-Swapped}
use go_pkgs.Heap.Holes.{
  parent, IsHeapFrom, IsHole, IsSettled, IsBelowParent, IsHeapFrom-of_hole, IsHole-down,
  IsBelowParent-down,
}

-- `m` is the heap's `max`, and `P` the order that it sorts by.
module _ {ℓ κ} {K : Type ℓ} {V : Type κ} (O : Order K) (k0 : K) (v0 : V) (m : Bool) where
  abbrev P : Order K
  P = toward O m

  pub less-eq :
      (h : Heap K V) (i j : ℕ)
      → h.max ≡ m
      → i < length h.keys
      → j < length h.keys
      → less O h i j ≡ some (P.lt (get_or h.keys i k0) (get_or h.keys j k0))
  unfolding less
  less-eq h i j e hi hj =
      rw (get_elem?-eq-get_or h.keys i k0 hi, get_elem?-eq-get_or h.keys j k0 hj, e)
        (elim m
          as (λ b.
            some (
              if b
              then O.lt (get_or h.keys j k0) (get_or h.keys i k0)
              else O.lt (get_or h.keys i k0) (get_or h.keys j k0))
            ≡ some ((toward O b).lt (get_or h.keys i k0) (get_or h.keys j k0))) [
              | true ↦ refl
              | false ↦ refl
            ])

  -- The child that siftDown compares with.
  record LeastChild (n : ℕ) (h : Heap K V) (p : ℕ) : Type 0 where
    c : ℕ
    returned : smaller_child O h (p * 2 + 1) n ≡ some c
    positive : 0 < c
    inside : c < n
    child : parent c ≡ p
    least :
        (e : ℕ)
        → 0 < e
        → e < n
        → parent e ≡ p
        → P.lt (get_or h.keys e k0) (get_or h.keys c k0) ≡ false

  least_child :
      (n : ℕ) (h : Heap K V) (p : ℕ) → h.max ≡ m → IsSized n h → p * 2 + 1 < n → LeastChild n h p
  unfolding smaller_child
  least_child n h p e s lt = elim (Bool-cases (ltb (p * 2 + 1 + 1) n)) [
    | inr only ↦ record {
      c = p * 2 + 1;
      returned = rw only refl;
      positive = omega arith;
      inside = lt;
      child = omega arith;
      least = λ d pos inside up. let same : d ≡ p * 2 + 1 = ground arith in rw same (irrefl P _);
    }
    | inl both ↦
        let test =
          less-eq h (p * 2 + 1 + 1) (p * 2 + 1) e (ground (arith, s.room))
            (omega (arith, s.room)) in
        elim (Bool-cases (P.lt (get_or h.keys (p * 2 + 1 + 1) k0) (get_or h.keys (p * 2 + 1) k0))) [
          | inl right ↦ record {
            c = p * 2 + 1 + 1;
            returned = rw (both, test, right) refl;
            positive = omega arith;
            inside = ground arith;
            child = omega arith;
            least = λ d pos inside up. elim (two_children d pos up) [
              | inl first ↦ rw first (P.asym _ _ right)
              | inr second ↦ rw second (irrefl P _)
            ];
          }
          | inr left ↦ record {
            c = p * 2 + 1;
            returned = rw (both, test, left) refl;
            positive = omega arith;
            inside = lt;
            child = omega arith;
            least = λ d pos inside up. elim (two_children d pos up) [
              | inl first ↦ rw first (irrefl P _)
              | inr second ↦ rw second left
            ];
          }
        ]
  ]
    where
      two_children : (d : ℕ) → 0 < d → parent d ≡ p → (d ≡ p * 2 + 1) ⊎ (d ≡ p * 2 + 1 + 1)
      two_children d pos up = grind arith

  -- What siftDown from a hole at `p` returns: it moved the value down, and the order is restored, or
  -- it changed nothing, and no child comes before `p`.
  pub record Sunk (lo n : ℕ) (h : Heap K V) (p : ℕ) (r : Option (Heap K V × ℕ)) : Type (ℓ ⊔ κ) where
    pub after : Heap K V
    pub place : ℕ
    pub returned : r ≡ some (after, place)
    pub rearranged : Rearranged k0 v0 n h after
    pub outcome :
        (p < place) × IsHeapFrom P k0 lo n after.keys
        ⊎ (place ≡ p) × (after ≡ h) × IsSettled P k0 n h.keys p

  stays :
      (lo n : ℕ) (h : Heap K V) (p : ℕ)
      → IsSized n h
      → IsSettled P k0 n h.keys p
      → Sunk lo n h p (some (h, p))
  stays lo n h p s settled = record {
    after = h;
    place = p;
    returned = refl;
    rearranged = Rearranged-rfl k0 v0 s;
    outcome = inr (refl, refl, settled);
  }

  sinks :
      (lo n : ℕ) (h h' : Heap K V) (p c : ℕ) {r : Option (Heap K V × ℕ)}
      → p < c
      → Rearranged k0 v0 n h h'
      → IsHole P k0 lo n h'.keys c
      → IsBelowParent P k0 lo h'.keys c
      → Sunk lo n h' c r
      → Sunk lo n h p r
  sinks lo n h h' p c lt first hole above rest = record {
    after = rest.after;
    place = rest.place;
    returned = rest.returned;
    rearranged = Rearranged-trans k0 v0 first rest.rearranged;
    outcome = elim rest.outcome [
      | inl (moved, ordered) ↦ inl (omega arith, ordered)
      | inr (same, kept, settled) ↦
          inl (omega arith, rw kept (IsHeapFrom-of_hole P k0 lo n h'.keys c hole settled above))
    ];
  }

  pub sift_down_loop-Sunk :
      (fuel lo n : ℕ) (h : Heap K V) (p : ℕ)
      → n - p < fuel
      → h.max ≡ m
      → IsSized n h
      → IsHole P k0 lo n h.keys p
      → Sunk lo n h p (sift_down_loop O fuel h p n)
  unfolding sift_down_loop
  sift_down_loop-Sunk zero lo n h p f e s hole = absurd (omega arith)
  sift_down_loop-Sunk (suc fuel) lo n h p f e s hole = elim (Bool-cases (leb n (p * 2 + 1))) [
    | inl leaf ↦ rw leaf (stays lo n h p s (λ c pos lt up. absurd (ground arith)))
    | inr inner ↦
        let l = least_child n h p e s (ground arith) in
        let lt : p < n = omega (arith, l.inside, l.child, l.positive) in
        let deeper : p < l.c = omega (arith, l.child, l.positive) in
        rw
          (
            inner,
            l.returned,
            less-eq h l.c p e (omega (arith, l.inside, s.room)) (omega (arith, s.room)),
          )
          (elim (Bool-cases (P.lt (get_or h.keys l.c k0) (get_or h.keys p k0))) [
            | inr settled ↦ rw settled (
                stays lo n h p s (λ d pos below up. P.trans _ _ _ settled (l.least d pos below up)))
            | inl smaller ↦
                let w = swap-Swapped k0 v0 n h s p l.c lt l.inside in
                let hole' = rw (← w.keys) at (
                  IsHole-down P k0 lo n h.keys p l.c hole s.room l.positive l.inside l.child
                    l.least) in
                let above' = rw (← w.keys) at (
                  IsBelowParent-down P k0 lo n h.keys p l.c hole s.room l.positive l.inside l.child
                    smaller) in
                rw (smaller, w.returned)
                  (sinks lo n h w.after p l.c deeper w.rearranged hole' above' (
                    sift_down_loop-Sunk fuel lo n w.after l.c (omega arith)
                      (w.rearranged.same_max ∙ e) w.rearranged.sized hole'))
          ])
  ]
