-- ===== src/Heap/Removal.antt =====
-- Pop, Remove and Update.
use mathlib.Core.List.{Perm}
use mathlib.Core.List.Perm
use go_pkgs.Common.{
  ℕ, zero, suc, ◌-◌, ◌≤◌, ◌<◌, ◌≡◌, ◌≢◌, refl, sym, ap, subst, ◌∙◌, true, false, List, ◌∷◌, Option,
  some, arith, length, get_or, get_elem?, get_elem?-eq-get_or, set, store-eq_of_lt, length-set,
  ◌==◌, ℕ_discrete,
}
use go_pkgs.Common.Order.{Order, irrefl}
use go_pkgs.Heap.{Heap, truncate, pop, remove, update}
use go_pkgs.Heap.Swap.{zip-set, swap_at, get_or-swap_at, get_or-zip, length-zip, get_or-set}
use go_pkgs.Heap.Rearrange.{entries, IsSized, Swapped, swap-Swapped}
use go_pkgs.Heap.Holes.{parent, AtMost, IsHeapFrom, IsHole}
use go_pkgs.Heap.Resift.{Restored, resift-Restored, sift_down-Restored}
use go_pkgs.Heap.Cut.{get_or-take, length-take, last_out, zip-take}
use go_pkgs.Heap.Methods.{order, IsHeap, Holds, Holds-of_Restored}

module _ {ℓ κ} {K : Type ℓ} {V : Type κ} (O : Order K) (k0 : K) (v0 : V) where
  -- The entry `e` returned, and a valid heap of the others.
  pub record Removed (h : Heap K V) (e : K × V) (r : Option (K × V × Heap K V)) : Type (ℓ ⊔ κ) where
    pub after : Heap K V
    pub returned : r ≡ some (e.0, e.1, after)
    pub valid : IsHeap O k0 v0 after
    pub perm : Perm (e ∷ entries after) (entries h)
    pub same_max : after.max ≡ h.max
    pub same_callback : after.callback ≡ h.callback

  abbrev pub entry : Heap K V → ℕ → K × V
  entry h i = get_or (entries h) i (k0, v0)

  -- A heap whose last entry is `e`, the others being in order: it is cut off.
  module _ (h g : Heap K V) (n : ℕ) (e : K × V) (size : length g.keys ≡ suc n)
      (same : length g.keys ≡ length g.vals) (last : entry g n ≡ e)
      (perm : Perm (entries g) (entries h)) (ordered : IsHeapFrom (order O k0 v0 h) k0 0 n g.keys)
      (same_max : g.max ≡ h.max) (same_callback : g.callback ≡ h.callback) where
    truncate_removes : Removed h e (some (e.0, e.1, truncate g n))
    unfolding truncate
    truncate_removes =
        let short = length-take n g.keys (omega arith) in
        let short' = length-take n g.vals (omega arith) in
        let all = length-zip k0 v0 g.keys g.vals same ∙ size in
        let at = λ (c : ℕ). get_or-take n c k0 g.keys in
        record {
          after = truncate g n;
          returned = refl;
          valid = record {
            same = short ∙ sym short';
            ordered = λ c pos lt from.
                rw same_max (ground (arith, at c, at (parent c), ordered c, short));
          };
          perm =
              rw (zip-take n g.keys g.vals)
                (Perm.trans (rw (← last) (last_out (k0, v0) (entries g) n all)) perm);
          same_max = same_max;
          same_callback = same_callback;
        }

  -- The first entry of a heap comes before no other.
  root_least :
      (P : Order K) (n : ℕ) (xs : List K)
      → IsHeapFrom P k0 0 n xs
      → (fuel c : ℕ) → c < fuel
      → c < n
      → AtMost P k0 xs 0 c
  root_least P n xs h zero c f lt = absurd (omega arith)
  root_least P n xs h (suc fuel) zero f lt = irrefl P _
  root_least P n xs h (suc fuel) (suc c) f lt =
      P.trans _ _ _ (root_least P n xs h fuel (parent (suc c)) (omega arith) (omega arith))
        (h (suc c) (omega arith) lt (omega arith))

  -- Keys that differ from those of a heap at one place only.
  IsHole-of_write :
      (P : Order K) (n : ℕ) (xs ys : List K) (i : ℕ)
      → IsHeapFrom P k0 0 n xs
      → ((c : ℕ) → c < n → c ≢ i → get_or ys c k0 ≡ get_or xs c k0)
      → IsHole P k0 0 n ys i
  IsHole-of_write P n xs ys i h agree = record {
    edges = λ c pos lt from ne np. ground (arith, agree c, agree (parent c), h c);
    bridged = λ c pos lt from ipos up. ground (
      arith,
      agree c,
      agree (parent i),
      h c,
      h i,
      P.trans (get_or xs (parent i) k0) (get_or xs i k0) (get_or xs c k0),
    );
  }

  swapped_last :
      (xs : List K) (i n c : ℕ)
      → length xs ≡ suc n
      → i < suc n
      → c < n
      → c ≢ i
      → get_or (swap_at xs i n k0) c k0 ≡ get_or xs c k0
  swapped_last xs i n c size hi lt ne =
      get_or-swap_at xs i n c k0 (omega arith) (omega arith) ∙ ground arith

  weaker :
      (P : Order K) (m n : ℕ) (xs : List K)
      → m ≤ n
      → IsHeapFrom P k0 0 n xs
      → IsHeapFrom P k0 0 m xs
  weaker P m n xs le h c pos lt from = h c pos (omega arith) from

  entry-pair :
      (h : Heap K V) (i : ℕ)
      → i < length h.keys
      → length h.keys ≡ length h.vals
      → entry h i ≡ (get_or h.keys i k0, get_or h.vals i v0)
  entry-pair h i lt same = get_or-zip k0 v0 h.keys h.vals i lt (omega arith)

  -- The last entry of a heap whose root or `i`-th entry was swapped with it.
  last-swapped :
      (h : Heap K V) (i n : ℕ)
      → length h.keys ≡ suc n
      → length h.keys ≡ length h.vals
      → i < suc n
      → get_or (swap_at (entries h) i n (k0, v0)) n (k0, v0) ≡ entry h i
  last-swapped h i n size same lt =
      let all = length-zip k0 v0 h.keys h.vals same in
      get_or-swap_at (entries h) i n n (k0, v0) (omega arith) (omega arith) ∙ ground arith

  module _ (h : Heap K V) (valid : IsHeap O k0 v0 h) (n : ℕ) (size : length h.keys ≡ suc n) where
    -- The heap after the swap of entries `i` and `n`, cut to `n` in play.
    module _ (i : ℕ) (before : i < suc n) where
      abbrev w : Swapped k0 v0 (suc n) h i n
      w =
          swap-Swapped k0 v0 (suc n) h (record { same = valid.same; room = omega arith }) i n
            (omega arith) (omega arith)

      shorter : IsSized n w.after
      shorter = record {
        same = w.rearranged.sized.same;
        room = omega (arith, w.rearranged.sized.room);
      }

      hole : IsHole (order O k0 v0 h) k0 0 n w.after.keys i
      hole =
          IsHole-of_write (order O k0 v0 h) n h.keys w.after.keys i
            (weaker (order O k0 v0 h) n (length h.keys) h.keys (omega arith) valid.ordered)
            (λ c lt ne. rw w.keys (swapped_last h.keys i n c size before lt ne))

      last_kept :
          {r : Option (Heap K V)} (t : Restored O k0 v0 h.max 0 n w.after r)
          → entry t.after n ≡ entry h i
      last_kept t =
          t.rearranged.past n (omega arith)
          ∙ ap (λ es. get_or es n (k0, v0)) w.all
          ∙ last-swapped h i n size valid.same (omega arith)

      removes-Restored :
          {r : Option (Heap K V)} (t : Restored O k0 v0 h.max 0 n w.after r)
          → Removed h (entry h i) (some ((entry h i).0, (entry h i).1, truncate t.after n))
      removes-Restored t =
          truncate_removes h t.after n (entry h i) (t.rearranged.size ∙ w.rearranged.size ∙ size)
            t.rearranged.sized.same (last_kept t) (Perm.trans t.rearranged.perm w.rearranged.perm)
            t.ordered (t.rearranged.same_max ∙ w.rearranged.same_max)
            (t.rearranged.same_callback ∙ w.rearranged.same_callback)

    last_read :
        (g : Heap K V) (e : K × V)
        → length g.keys ≡ suc n
        → length g.keys ≡ length g.vals
        → entry g n ≡ e
        → (get_elem? g.keys n ≡ some e.0) × (get_elem? g.vals n ≡ some e.1)
    last_read g e size' same last =
        let pair = sym (entry-pair g n (omega arith) same) ∙ last in
        (
          get_elem?-eq-get_or g.keys n k0 (omega arith) ∙ ap (λ p. some p.0) pair,
          get_elem?-eq-get_or g.vals n v0 (omega arith) ∙ ap (λ p. some p.1) pair,
        )

  -- Pop on a valid heap that is not empty never panics. It takes out the first entry, which no other
  -- comes before in the heap's order, and leaves a valid heap of the others.
  pub pop_first :
      (h : Heap K V)
      → IsHeap O k0 v0 h
      → 0 < length h.keys
      → Removed h (entry h 0) (pop O h)
        × ((i : ℕ) → i < length h.keys → AtMost (order O k0 v0 h) k0 h.keys 0 i)
  unfolding pop
  pop_first h valid some_left =
      let n = length h.keys - 1 in
      let size : length h.keys ≡ suc n = omega arith in
      let first = w h valid n size 0 (omega arith) in
      let (moved, h', returned, t) =
        sift_down-Restored O k0 v0 h.max 0 n first.after 0 first.rearranged.same_max
          (shorter h valid n size 0 (omega arith)) (hole h valid n size 0 (omega arith))
          (λ pos from. absurd (omega arith)) in
      let same : t.after ≡ h' = ground (arith, t.returned) in
      let pair = entry-pair h 0 some_left valid.same in
      (
        rw
            (
              get_elem?-eq-get_or h.keys 0 k0 some_left,
              get_elem?-eq-get_or h.vals 0 v0 (omega (arith, valid.same)),
              first.returned,
              returned,
              ← same,
            )
            (subst (λ p. Removed h (entry h 0) (some (p.0, p.1, truncate t.after n))) pair
              (removes-Restored h valid n size 0 (omega arith) t)),
        λ i lt.
            root_least (order O k0 v0 h) (length h.keys) h.keys valid.ordered (suc i) i
              (omega arith) lt,
      )

  -- Remove(i), for an index of a valid heap, never panics. It takes out exactly the `i`-th entry and
  -- leaves a valid heap of the others.
  pub remove-entry :
      (h : Heap K V) (i : ℕ)
      → IsHeap O k0 v0 h
      → i < length h.keys
      → Removed h (entry h i) (remove O h i)
  unfolding remove
  remove-entry h i valid lt =
      let n = length h.keys - 1 in
      let size : length h.keys ≡ suc n = omega arith in
      let room : i < suc n = omega arith in
      let filled : (length h.keys == 0) ≡ false = ground arith in
      rw filled (elim (ℕ_discrete n i) [
        | yes e ↦
            let at_end : (n == i) ≡ true = ground arith in
            let last = ap (entry h) e in
            let (k, v) = last_read h valid n size h (entry h i) size valid.same last in
            rw (at_end, k, v)
              (truncate_removes h h n (entry h i) size valid.same last Perm.rfl
                (weaker (order O k0 v0 h) n (length h.keys) h.keys (omega arith) valid.ordered) refl
                refl)
        | no ne ↦
            let inside : (n == i) ≡ false = ground arith in
            let first = w h valid n size i room in
            let t =
              resift-Restored O k0 v0 h.max n first.after i (omega arith) first.rearranged.same_max
                (shorter h valid n size i room) (hole h valid n size i room) in
            let size' = t.rearranged.size ∙ first.rearranged.size ∙ size in
            let (k, v) =
              last_read h valid n size t.after (entry h i) size' t.rearranged.sized.same
                (last_kept h valid n size i room t) in
            rw (inside, first.returned, t.returned, k, v) (removes-Restored h valid n size i room t)
      ])

  -- Update(i, k, v), for an index of a valid heap, never panics. It gives a valid heap of the same
  -- entries but for the `i`-th, which is (k, v).
  pub update_entry :
      (h : Heap K V) (i : ℕ) (k : K) (v : V)
      → IsHeap O k0 v0 h
      → i < length h.keys
      → Holds O k0 v0 h (set (entries h) i (k, v)) (update O h i k v)
  unfolding update
  update_entry h i k v valid lt =
      let n = length h.keys in
      let g : Heap K V = record h { keys = set h.keys i k; vals = set h.vals i v } in
      let size = length-set h.keys i k in
      let t = Holds-of_Restored O k0 v0 n g size (
        resift-Restored O k0 v0 h.max n g i lt refl
          (record {
            same = size ∙ valid.same ∙ sym (length-set h.vals i v);
            room = omega (arith, size);
          })
          (IsHole-of_write (order O k0 v0 h) n h.keys (set h.keys i k) i valid.ordered
            (λ c inside ne. get_or-set h.keys i c k k0 lt ∙ ground arith))) in
      rw (store-eq_of_lt h.keys i k lt, store-eq_of_lt h.vals i v (omega (arith, valid.same)), size)
        (record {
          after = t.after;
          returned = t.returned;
          valid = t.valid;
          perm = Perm.trans t.perm (rw (zip-set k0 v0 h.keys h.vals i k v) Perm.rfl);
          same_max = t.same_max;
          same_callback = t.same_callback;
        })
