-- ===== src/Circular.antt =====
-- algo/container/circular/buffer.go: a queue in a slice that is used in the round. `none` is a panic
-- (an index out of range, or a slice of a negative length).
pub mod Cells
pub mod Queue
pub mod Move
pub mod Append
pub mod Head
pub mod Refine
mod Tests
use go_pkgs.Common.{
  ℕ, zero, suc, ◌+◌, ◌-◌, ◌%◌, min, Bool, true, false, ◌||◌, List, [], ◌∷◌, ◌++◌, Option, none,
  some, length, take, drop, replicate, ltb, leb, ◌==◌, if◌then◌else◌, ◌>>=◌,
}
use go_pkgs.Common.Int.{ℤ, pos, negsuc, leb_ℤ, ◌-ℤ◌}

-- The capacity of the storage is its length, since only `make` allocates it.
pub record Buffer {ℓ} (A : Type ℓ) : Type ℓ where
  pub storage : List A
  pub used : ℕ
  pub head : ℕ
  pub tail : ℤ

-- `b.tail + 1`, as the end of a slice.
abbrev pub after : ℤ → Option ℕ
after (pos t) = some (suc t)
after (negsuc zero) = some 0
after (negsuc (suc _)) = none

module _ {ℓ} {A : Type ℓ} where
  -- `xs[i:j]`
  pub slice : List A → ℕ → ℕ → Option (List A)
  slice xs i j =
      if leb i j
      then (if leb j (length xs) then some (take (j - i) (drop i xs)) else none)
      else none

  -- `copy(dst, src)`: the new `dst`. It copies `copied dst src` elements.
  abbrev pub overlay : List A → List A → List A
  overlay [] src = []
  overlay (d ∷ dst) [] = d ∷ dst
  overlay (d ∷ dst) (s ∷ src) = s ∷ overlay dst src

  abbrev pub copied : List A → List A → ℕ
  copied dst src = min (length dst) (length src)

  -- `copy(dst[k:], src)`: the new `dst`, and how many elements it copies.
  pub copy_from : List A → ℕ → List A → Option (List A × ℕ)
  copy_from dst k src =
      if leb k (length dst)
      then some (take k dst ++ overlay (drop k dst) src, min (length dst - k) (length src))
      else none

-- The zero value of the elements.
module _ {ℓ} {A : Type ℓ} (empty : A) where
  pub new : ℤ → Option (Buffer A)
  new (negsuc _) = none
  new (pos size) =
      let n = if size == 0 then 1 else size in
      some (record { storage = replicate n empty; used = 0; head = 0; tail = pos 0 })

  -- grow, and Compact once it knows that the buffer is not empty, with the new slice's length.
  pub move_to : Buffer A → ℕ → Option (Buffer A)
  move_to b size = do
    let n = replicate size empty
    next ← after b.tail
    if leb_ℤ (pos b.head) b.tail
        then (do
          s ← slice b.storage b.head next
          some (record b { storage = overlay n s; head = 0; tail = pos (copied n s) -ℤ pos 1 }))
        else (do
          s ← slice b.storage b.head (length b.storage)
          w ← slice b.storage 0 next
          (n', c) ← copy_from (overlay n s) (copied n s) w
          some (record b { storage = n'; head = 0; tail = pos (copied n s + c) -ℤ pos 1 }))

  pub grow : Buffer A → ℕ → Option (Buffer A)
  grow b size = move_to b size

  -- The switch of Append.
  pub place : Buffer A → List A → Option (Buffer A)
  place b v =
      if b.used == 0
      then some (record b {
        storage = overlay b.storage v;
        head = 0;
        tail = pos (copied b.storage v) -ℤ pos 1;
      })
      else (do
        next ← after b.tail
        (first, c) ← copy_from b.storage next v
        if leb_ℤ (pos b.head) b.tail
            then (do
              rest ← slice v c (length v)
              if length b.storage == 0
                  then none
                  else some (record b {
                    storage = overlay first rest;
                    tail = pos ((next + length v - 1) % length b.storage);
                  }))
            else some (record b { storage = first; tail = pos (next + length v) -ℤ pos 1 }))

  pub append : Buffer A → List A → Option (Buffer A)
  append b v = do
    b₁ ← if ltb (length b.storage) (b.used + length v) then grow b (b.used + length v) else some b
    b₂ ← place b₁ v
    some (record b₂ { used = b₂.used + length v })

  -- Head of at most `used` elements, of which there are some.
  pub take_head : Buffer A → ℕ → Option (List A × Buffer A)
  take_head b n = do
    let o = replicate n empty
    s ← slice b.storage b.head (length b.storage)
    if leb_ℤ (pos (suc b.head)) b.tail
        then some (overlay o s, record b { head = b.head + n; used = b.used - n })
        else (do
          (o', _) ← copy_from (overlay o s) (copied o s) b.storage
          if length b.storage == 0
              then none
              else some
                  (o', record b { head = (b.head + n) % length b.storage; used = b.used - n }))

  -- What Head returns, where nil and an empty slice are both [], and the new buffer.
  pub head : Buffer A → ℤ → Option (List A × Buffer A)
  head b (negsuc _) = if b.used == 0 then some ([], b) else none
  head b (pos n) =
      if n == 0 || b.used == 0
      then some ([], b)
      else take_head b (if ltb b.used n then b.used else n)

  pub compact : Buffer A → Option (Buffer A)
  compact b =
      if b.used == 0
      then some (record b { storage = replicate 1 empty; head = 0; tail = pos 0 })
      else move_to b b.used
