-- ===== src/Heap/Rearrange.antt =====
-- What a swap, and a sequence of swaps, does to a heap's slices.
use mathlib.Core.List.{Perm, zip}
use mathlib.Core.List.Perm
use go_pkgs.Common.{
  ℕ, ◌≤◌, ◌<◌, ◌≡◌, refl, ◌∙◌, Bool, true, false, List, some, arith, [], ◌∷◌, ◌++◌, length, get_or,
  get_elem?-eq-get_or, if◌then◌else◌,
}
use go_pkgs.Heap.{Call, Heap, swap, notify_swap}
use go_pkgs.Heap.Swap.{
  swap_at, exchange-eq, length-swap_at, get_or-swap_at, swap_at-perm, zip-swap_at, length-zip,
}

module _ {ℓ κ} {K : Type ℓ} {V : Type κ} where
  abbrev pub entries : Heap K V → List (K × V)
  entries h = zip h.keys h.vals

  -- Both slices have one length, and the first `n` entries are in play.
  pub record IsSized (n : ℕ) (h : Heap K V) : Type 0 where
    pub same : length h.keys ≡ length h.vals
    pub room : n ≤ length h.keys

  module _ (k0 : K) (v0 : V) where
    -- What a rearrangement of the first `n` entries leaves alone.
    pub record Rearranged (n : ℕ) (h h' : Heap K V) : Type (ℓ ⊔ κ) where
      pub sized : IsSized n h'
      pub size : length h'.keys ≡ length h.keys
      pub perm : Perm (entries h') (entries h)
      pub past : (c : ℕ) → n ≤ c → get_or (entries h') c (k0, v0) ≡ get_or (entries h) c (k0, v0)
      pub same_max : h'.max ≡ h.max
      pub same_callback : h'.callback ≡ h.callback

    pub Rearranged-rfl : {n : ℕ} {h : Heap K V} → IsSized n h → Rearranged n h h
    Rearranged-rfl s = record {
      sized = s;
      size = refl;
      perm = Perm.rfl;
      past = λ c p. refl;
      same_max = refl;
      same_callback = refl;
    }

    pub Rearranged-trans :
        {n : ℕ} {g h k : Heap K V} → Rearranged n g h → Rearranged n h k → Rearranged n g k
    Rearranged-trans r s = record {
      sized = s.sized;
      size = s.size ∙ r.size;
      perm = Perm.trans s.perm r.perm;
      past = λ c p. s.past c p ∙ r.past c p;
      same_max = s.same_max ∙ r.same_max;
      same_callback = s.same_callback ∙ r.same_callback;
    }

    -- A swap of two of the first `n` entries.
    pub record Swapped (n : ℕ) (h : Heap K V) (i j : ℕ) : Type (ℓ ⊔ κ) where
      pub after : Heap K V
      pub returned : swap h i j ≡ some after
      pub keys : after.keys ≡ swap_at h.keys i j k0
      pub all : entries after ≡ swap_at (entries h) i j (k0, v0)
      pub rearranged : Rearranged n h after

    module _ (n : ℕ) (h : Heap K V) (s : IsSized n h) (i j : ℕ) (hi : i < n) (hj : j < n) where
      swapped_fields :
          (h' : Heap K V)
          → h'.keys ≡ swap_at h.keys i j k0
          → h'.vals ≡ swap_at h.vals i j v0
          → h'.max ≡ h.max
          → h'.callback ≡ h.callback
          → Rearranged n h h'
      swapped_fields h' ek ev em ec =
          let size = length-swap_at h.keys i j k0 in
          let zipped = zip-swap_at k0 v0 h.keys h.vals i j (omega arith) (omega arith) s.same in
          let all = length-zip k0 v0 h.keys h.vals s.same in
          record {
            sized = record {
              same = rw (ek, ev) (size ∙ s.same ∙ ground (arith, length-swap_at h.vals i j v0));
              room = rw ek (omega (arith, size, s.room));
            };
            size = rw ek size;
            perm =
                rw (ek, ev, zipped)
                  (swap_at-perm (entries h) i j (k0, v0) (omega (arith, all)) (omega (arith, all)));
            past = λ c p.
                rw (ek, ev, zipped)
                  (get_or-swap_at (entries h) i j c (k0, v0) (omega (arith, all))
                      (omega (arith, all))
                    ∙ ground arith);
            same_max = em;
            same_callback = ec;
          }

      announced :
          (b : Bool) (h' : Heap K V)
          → length h'.vals ≡ length h.vals
          → (calls : List (Call V)) × ((if b then notify_swap h' i j else some h')
              ≡ some (record h' { calls = calls }))
      unfolding notify_swap
      announced false h' e = (h'.calls, refl)
      announced true h' e = (
        h'.calls
            ++ record { iv = get_or h'.vals i v0; jv = get_or h'.vals j v0; i = i; j = j } ∷ [],
        rw
            (
              get_elem?-eq-get_or h'.vals i v0 (omega (arith, s.same, s.room)),
              get_elem?-eq-get_or h'.vals j v0 (omega (arith, s.same, s.room)),
            )
            refl,
      )

      pub swap-Swapped : Swapped n h i j
      unfolding swap
      swap-Swapped =
          let h' : Heap K V = record h {
            keys = swap_at h.keys i j k0;
            vals = swap_at h.vals i j v0;
          } in
          let ek = exchange-eq h.keys i j k0 (omega (arith, s.room)) (omega (arith, s.room)) in
          let ev =
            exchange-eq h.vals i j v0 (omega (arith, s.same, s.room))
              (omega (arith, s.same, s.room)) in
          let (calls, done) = announced h.callback h' (length-swap_at h.vals i j v0) in
          record {
            after = record h' { calls = calls };
            returned = rw (ek, ev) done;
            keys = refl;
            all =
                zip-swap_at k0 v0 h.keys h.vals i j (omega (arith, s.room)) (omega (arith, s.room))
                  s.same;
            rearranged = swapped_fields (record h' { calls = calls }) refl refl refl refl;
          }
