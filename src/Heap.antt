-- ===== src/Heap.antt =====
-- algo/container/heap/heap.go. Keys and values are two slices, as in the source. A method returns the
-- new heap; `none` is an index out of range. The callback is known by the calls that are made of it.
pub mod Swap
pub mod Holes
pub mod Rearrange
pub mod Sift
pub mod Resift
pub mod Cut
pub mod Methods
pub mod Removal
mod Tests
use go_pkgs.Common.{
  ℕ, zero, suc, ◌+◌, ◌-◌, ◌*◌, ◌/◌, Bool, true, false, not, ◌||◌, List, [], ◌∷◌, ◌++◌, Option, none,
  some, length, get_elem?, store, set, take, ltb, leb, ◌==◌, if◌then◌else◌, ◌>>=◌,
}
use go_pkgs.Common.Order.{Order}

-- The arguments of a call of the callback: the values now at `i` and `j`, and the indices.
pub record Call {κ} (V : Type κ) : Type κ where
  pub iv : V
  pub jv : V
  pub i : ℕ
  pub j : ℕ

pub record Heap {ℓ κ} (K : Type ℓ) (V : Type κ) : Type (ℓ ⊔ κ) where
  pub keys : List K
  pub vals : List V
  pub max : Bool
  pub callback : Bool
  pub calls : List (Call V)

-- `h.Keys[i], h.Keys[j] = h.Keys[j], h.Keys[i]`
pub exchange {μ} : {A : Type μ} → List A → ℕ → ℕ → Option (List A)
exchange xs i j = do y ← get_elem? xs j; x ← get_elem? xs i; xs' ← store xs i y; store xs' j x

module _ {ℓ κ} {K : Type ℓ} {V : Type κ} where
  pub notify_swap : Heap K V → ℕ → ℕ → Option (Heap K V)
  notify_swap h i j = do
    iv ← get_elem? h.vals i
    jv ← get_elem? h.vals j
    some (record h { calls = h.calls ++ record { iv = iv; jv = jv; i = i; j = j } ∷ [] })

  pub swap : Heap K V → ℕ → ℕ → Option (Heap K V)
  swap h i j = do
    keys ← exchange h.keys i j
    vals ← exchange h.vals i j
    let h' = record h { keys = keys; vals = vals }
    if h.callback then notify_swap h' i j else some h'

  -- `h.Keys[:n], h.Vals[:n]`, with `n` within the slices.
  pub truncate : Heap K V → ℕ → Heap K V
  truncate h n = record h { keys = take n h.keys; vals = take n h.vals }

module _ {ℓ κ} {K : Type ℓ} {V : Type κ} (O : Order K) where
  pub less : Heap K V → ℕ → ℕ → Option Bool
  less h i j = do
    a ← get_elem? h.keys i
    b ← get_elem? h.keys j
    some (if h.max then O.lt b a else O.lt a b)

  -- The new heap. One round for each index, since the parent is a smaller index.
  pub sift_up_loop : ℕ → Heap K V → ℕ → Option (Heap K V)
  sift_up_loop zero h i = none
  sift_up_loop (suc fuel) h i =
      let p = (i - 1) / 2 in
      let rise = swap h p i >>= λ h'. sift_up_loop fuel h' p in
      let test = less h i p >>= λ below. if below then rise else some h in
      if p == i then some h else test

  pub sift_up : Heap K V → ℕ → Option (Heap K V)
  sift_up h from = sift_up_loop (suc from) h from

  pub smaller_child : Heap K V → ℕ → ℕ → Option ℕ
  smaller_child h c limit =
      if ltb (c + 1) limit
      then (do below ← less h (c + 1) c; some (if below then c + 1 else c))
      else some c

  -- The new heap and the last place of the value. Each round moves to a larger index below `limit`.
  pub sift_down_loop : ℕ → Heap K V → ℕ → ℕ → Option (Heap K V × ℕ)
  sift_down_loop zero h p limit = none
  sift_down_loop (suc fuel) h p limit =
      let step = do
        c ← smaller_child h (p * 2 + 1) limit
        below ← less h c p
        let sink = swap h p c >>= λ h'. sift_down_loop fuel h' c limit
        if below then sink else some (h, p)
      in if leb limit (p * 2 + 1) then some (h, p) else step

  pub sift_down : Heap K V → ℕ → ℕ → Option (Heap K V × Bool)
  sift_down h parent limit = do
    (h', p) ← sift_down_loop (suc limit) h parent limit
    some (h', ltb parent p)

  -- The loop of heapify, over the number of rounds left: `i` counts down to 0.
  pub heapify_from : ℕ → ℕ → Heap K V → Option (Heap K V)
  heapify_from zero n h = some h
  heapify_from (suc i) n h = do (h', _) ← sift_down h i n; heapify_from i n h'

  pub heapify : Heap K V → Option (Heap K V)
  heapify h = heapify_from (length h.keys / 2) (length h.keys) h

  -- newT with the options applied: `some` keys and values for WithData.
  pub new : Bool → Bool → Option (List K × List V) → Option (Heap K V)
  new max callback (some (keys, vals)) =
      heapify (record { keys = keys; vals = vals; max = max; callback = callback; calls = [] })
  new max callback none =
      some (record { keys = []; vals = []; max = max; callback = callback; calls = [] })

  pub push : Heap K V → K → V → Option (Heap K V)
  push h k v =
      sift_up (record h { keys = h.keys ++ k ∷ []; vals = h.vals ++ v ∷ [] }) (length h.keys)

  pub pop : Heap K V → Option (K × V × Heap K V)
  pop h = do
    k ← get_elem? h.keys 0
    v ← get_elem? h.vals 0
    let n = length h.keys - 1
    h₁ ← swap h 0 n
    (h₂, _) ← sift_down h₁ 0 n
    some (k, v, truncate h₂ n)

  -- `if !h.siftDown(i, n) { h.siftUp(i) }`
  pub resift : Heap K V → ℕ → ℕ → Option (Heap K V)
  resift h i n = do (h', moved) ← sift_down h i n; if moved then some h' else sift_up h' i

  -- On an empty heap the last index is -1.
  pub remove : Heap K V → ℕ → Option (K × V × Heap K V)
  remove h i =
      if length h.keys == 0
      then none
      else (let n = length h.keys - 1 in
          do
            h' ← if n == i then some h else (do h₁ ← swap h i n; resift h₁ i n)
            k ← get_elem? h'.keys n
            v ← get_elem? h'.vals n
            some (k, v, truncate h' n))

  pub update : Heap K V → ℕ → K → V → Option (Heap K V)
  update h pos k v = do
    keys ← store h.keys pos k
    vals ← store h.vals pos v
    resift (record h { keys = keys; vals = vals }) pos (length keys)
