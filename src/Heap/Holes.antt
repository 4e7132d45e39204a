-- ===== src/Heap/Holes.antt =====
-- The heap order of a list of keys, and what it becomes when two entries are swapped.
use go_pkgs.Common.{
  ℕ, ◌-◌, ◌/◌, ◌≤◌, ◌<◌, ◌≡◌, ◌≢◌, true, false, List, arith, length, get_or, ◌==◌, if◌then◌else◌,
}
use go_pkgs.Common.Order.{Order}
use go_pkgs.Heap.Swap.{swap_at, get_or-swap_at}

abbrev pub parent : ℕ → ℕ
parent c = (c - 1) / 2

module _ {ℓ} {K : Type ℓ} (P : Order K) (k0 : K) where
  -- The entry at `a` is at most the one at `b`.
  abbrev pub AtMost : List K → ℕ → ℕ → Type 0
  AtMost xs a b = P.lt (get_or xs b k0) (get_or xs a k0) ≡ false

  -- Of the first `n` entries, none comes before its parent, for parents from `lo` on.
  abbrev pub IsHeapFrom : ℕ → ℕ → List K → Type 0
  IsHeapFrom lo n xs = (c : ℕ) → 0 < c → c < n → lo ≤ parent c → AtMost xs (parent c) c

  -- The same, but for the edges at `p`: those below it only hold with its parent in its place.
  pub record IsHole (lo n : ℕ) (xs : List K) (p : ℕ) : Type 0 where
    pub edges :
        (c : ℕ) → 0 < c → c < n → lo ≤ parent c → c ≢ p → parent c ≢ p → AtMost xs (parent c) c
    pub bridged :
        (c : ℕ) → 0 < c → c < n → lo ≤ parent p → 0 < p → parent c ≡ p → AtMost xs (parent p) c

  -- No child of `p` comes before it.
  abbrev pub IsSettled : ℕ → List K → ℕ → Type 0
  IsSettled n xs p = (c : ℕ) → 0 < c → c < n → parent c ≡ p → AtMost xs p c

  abbrev pub IsBelowParent : ℕ → List K → ℕ → Type 0
  IsBelowParent lo xs p = 0 < p → lo ≤ parent p → AtMost xs (parent p) p

  pub IsHeapFrom-of_hole :
      (lo n : ℕ) (xs : List K) (p : ℕ)
      → IsHole lo n xs p
      → IsSettled n xs p
      → IsBelowParent lo xs p
      → IsHeapFrom lo n xs
  IsHeapFrom-of_hole lo n xs p v settled above c pos lt from =
      ground (arith, v.edges c, settled c, above)

  module _ (lo n : ℕ) (xs : List K) (p c : ℕ) (v : IsHole lo n xs p) (room : n ≤ length xs)
      (positive : 0 < c) (inside : c < n) (child : parent c ≡ p) where
    abbrev pub after : List K
    after = swap_at xs p c k0

    at :
        (e : ℕ)
        → get_or after e k0
          ≡ (if c == e then get_or xs p k0 else if p == e then get_or xs c k0 else get_or xs e k0)
    at e = get_or-swap_at xs p c e k0 (omega arith) (omega arith)

    -- The least child takes the place of a larger parent: the hole moves down.
    module _ (least : (e : ℕ) → 0 < e → e < n → parent e ≡ p → AtMost xs c e) where
      pub IsHole-down : IsHole lo n after c
      IsHole-down = record {
        edges = λ e pos lt from ne np.
            ground (arith, at e, at (parent e), v.edges e, v.bridged c, least e);
        bridged = λ e pos lt from cpos below. ground (arith, at e, at (parent c), v.edges e);
      }

    pub IsBelowParent-down :
        P.lt (get_or xs c k0) (get_or xs p k0) ≡ true → IsBelowParent lo after c
    IsBelowParent-down smaller pos from =
        ground (arith, at c, at (parent c), P.asym (get_or xs c k0) (get_or xs p k0))

  -- An entry that comes before its parent takes its place: the hole moves up.
  module _ (n : ℕ) (xs : List K) (i : ℕ) (v : IsHole 0 n xs i) (settled : IsSettled n xs i)
      (room : n ≤ length xs) (positive : 0 < i) (inside : i < n)
      (smaller : P.lt (get_or xs i k0) (get_or xs (parent i) k0) ≡ true) where
    abbrev pub raised : List K
    raised = swap_at xs (parent i) i k0

    raised_at :
        (e : ℕ)
        → get_or raised e k0 ≡ (
            if i == e
            then get_or xs (parent i) k0
            else if parent i == e
            then get_or xs i k0
            else get_or xs e k0)
    raised_at e = get_or-swap_at xs (parent i) i e k0 (omega arith) (omega arith)

    pub IsHole-up : IsHole 0 n raised (parent i)
    IsHole-up = record {
      edges = λ e pos lt from ne np.
          ground (arith, raised_at e, raised_at (parent e), v.edges e, v.bridged e);
      bridged = λ e pos lt from ppos below. ground (
        arith,
        raised_at e,
        raised_at (parent (parent i)),
        v.edges e,
        v.edges (parent i),
        P.trans (get_or xs (parent (parent i)) k0) (get_or xs (parent i) k0) (get_or xs e k0),
      );
    }

    pub IsSettled-up : IsSettled n raised (parent i)
    IsSettled-up e pos lt below = ground (
      arith,
      raised_at e,
      raised_at (parent i),
      v.edges e,
      P.asym (get_or xs i k0) (get_or xs (parent i) k0),
      P.trans (get_or xs i k0) (get_or xs (parent i) k0) (get_or xs e k0),
    )
