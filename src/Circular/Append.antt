-- ===== src/Circular/Append.antt =====
-- Append, without and with growth.
use native.Mathlib.Nat
use go_pkgs.Common.{
  ℕ, zero, suc, ◌+◌, ◌-◌, ◌%◌, ◌≤◌, ◌<◌, min, ◌≡◌, refl, sym, ap, ◌∙◌, ◌⊎◌, inl, inr, true, false,
  List, ◌++◌, some, arith, length, take, drop, length-append, ◌==◌, ◌>>=◌, dec_lt, dec_le,
}
use go_pkgs.Common.Int.{pos, ◌-ℤ◌}
use go_pkgs.Circular.{Buffer, overlay, copied, place, grow, append}
use go_pkgs.Circular.Cells.{
  get_or_at, length-overlay, get_or-left, get_or-right, overlay-copied, overlay-kept,
}
use go_pkgs.Circular.Queue.{
  before, pos-before, after-before, leb-before, IsQueue, slice-eq, copy_from-eq, length-copied,
  get_or-before, get_or-within, get_or-beyond, ltb-no, ltb-yes,
}
use go_pkgs.Circular.Move.{length-cut, get_or-cut, move_to-IsQueue}

pub ==-no : (a b : ℕ) → b < a → (a == b) ≡ false
==-no a b h = ground arith

pub ==-yes : (a b : ℕ) → a ≡ b → (a == b) ≡ true
==-yes a b h = ground arith

pub mod_below : (a n : ℕ) → a < n → a % n ≡ a
mod_below a n h = Nat.mod-eq_of_lt h

pub mod_round : (a n : ℕ) → n ≤ a → a < n + n → a % n ≡ a - n
mod_round a n le lt = Nat.mod-eq-sub-mod le ∙ mod_below (a - n) n (omega arith)

-- The place after the last of `more` elements put after `next - 1`.
end_of :
    (next more len : ℕ)
    → 0 < next
    → next ≤ len
    → more < len
    → (n : ℕ) × (pos ((next + more - 1) % len) ≡ before n)
      × (0 < n)
      × ((next + more ≤ len × (n ≡ next + more)) ⊎ (len < next + more × (n + len ≡ next + more)))
end_of zero more len p le lt = absurd (omega arith)
end_of (suc t) more len p le lt = elim (dec_le (suc t + more) len) [
  | yes fits ↦ (
    suc t + more,
    ap pos (mod_below (suc t + more - 1) len (omega arith)) ∙ last t more,
    omega arith,
    inl (fits, refl),
  )
  | no over ↦ (
    suc t + more - len,
    ap pos (mod_round (suc t + more - 1) len (omega arith) (omega arith))
        ∙ turn (suc t + more - len) (suc t + more - 1 - len) (omega arith),
    omega arith,
    inr (omega arith, omega arith),
  )
]
  where
    turn : (n m : ℕ) → n ≡ suc m → pos m ≡ before n
    turn n m e = ap before (sym e)

    last : (t more : ℕ) → pos (suc t + more - 1) ≡ before (suc t + more)
    last t more = turn (suc t + more) (suc t + more - 1) (omega arith)

module _ {ℓ} {A : Type ℓ} (empty : A) where
  module _ (b : Buffer A) (xs : List A) (h : IsQueue empty b xs) (v : List A)
      (room : b.used + length v ≤ length b.storage) where
    fresh : Buffer A
    fresh = record b {
      storage = overlay b.storage v;
      used = b.used + length v;
      head = 0;
      tail = pos (copied b.storage v) -ℤ pos 1;
    }

    fresh-IsQueue : b.used ≡ 0 → IsQueue empty fresh (xs ++ v)
    unfolding fresh
    fresh-IsQueue e =
        let lo : length (overlay b.storage v) ≡ length b.storage = length-overlay b.storage v in
        let lx : length (xs ++ v) ≡ length xs + length v = length-append xs v in
        let lu : b.used ≡ length xs = h.used in
        record {
          next = copied b.storage v;
          tail = pos-before (copied b.storage v);
          used = omega arith;
          storage = omega (arith, h.storage);
          head_le = omega arith;
          next_le = omega arith;
          ends = elim (dec_lt 0 (length v)) [
            | yes p ↦ inr (inl (omega arith, omega arith, omega arith))
            | no n ↦ inl (omega arith)
          ];
          front = λ i lt within.
              get_or_at (overlay b.storage v) empty (omega arith)
              ∙ overlay-copied b.storage v i empty (omega arith) (omega arith)
              ∙ sym (get_or-right xs v i empty (omega arith) ∙ get_or_at v empty (omega arith));
          back = λ i lt beyond. absurd (omega arith);
        }

    first : List A
    first = take h.next b.storage ++ overlay (drop h.next b.storage) v

    -- What is left of `v` after the copy at the end of the storage.
    rest : List A
    rest = let c = min (length b.storage - h.next) (length v) in take (length v - c) (drop c v)

    around : Buffer A
    unfolding first rest
    around = record b {
      storage = overlay first rest;
      used = b.used + length v;
      tail = pos ((h.next + length v - 1) % length b.storage);
    }

    length-first : length first ≡ length b.storage
    unfolding first
    length-first = length-copied empty b.storage h.next v h.next_le

    length-rest : length rest ≡ length v - min (length b.storage - h.next) (length v)
    unfolding rest
    length-rest =
        length-cut empty v (min (length b.storage - h.next) (length v)) (length v) (omega arith)

    around-IsQueue : 0 < b.used → b.head < h.next → IsQueue empty around (xs ++ v)
    unfolding around first rest
    around-IsQueue p lt =
        let len = length b.storage in
        let c = min (len - h.next) (length v) in
        let lf : length first ≡ len = length-first in
        let lr : length rest ≡ length v - c = length-rest in
        let lo : length (overlay first rest) ≡ length first = length-overlay first rest in
        let lx : length (xs ++ v) ≡ length xs + length v = length-append xs v in
        let lu : b.used ≡ length xs = h.used in
        let next_eq : h.next ≡ b.head + b.used = omega (arith, h.ends) in
        let fits : h.next ≤ len = h.next_le in
        let (n, tail_eq, p_n, where_n) =
          end_of h.next (length v) len (omega arith) fits (omega arith) in
        record {
          next = n;
          tail = tail_eq;
          used = omega arith;
          storage = omega arith;
          head_le = omega arith;
          next_le = omega (arith, where_n);
          ends = elim where_n [
            | inl (_, e) ↦ inr (inl (omega arith, omega arith, omega arith))
            | inr (over, e) ↦ inr (inr (omega arith, omega arith, omega arith, omega arith))
          ];
          front = λ i lt_i within.
              overlay-kept first rest (b.head + i) empty (omega arith) ∙ elim (dec_lt i b.used) [
                | yes old ↦
                    get_or-before empty b.storage h.next v fits (b.head + i) (omega arith)
                    ∙ h.front i old (omega arith)
                    ∙ sym (get_or-left xs v i empty (omega arith))
                | no new ↦
                    get_or-within empty b.storage h.next v fits (b.head + i) (omega arith)
                      (omega arith) (omega arith)
                    ∙ sym
                        (get_or-right xs v i empty (omega arith) ∙ get_or_at v empty (omega arith))
              ];
          back = λ i lt_i beyond.
              get_or_at (overlay first rest) empty (omega arith)
              ∙ overlay-copied first rest (b.head + i - len) empty (omega arith) (omega arith)
              ∙ get_or-cut empty v c (length v) (b.head + i - len) (omega arith)
              ∙ sym (get_or-right xs v i empty (omega arith) ∙ get_or_at v empty (omega arith));
        }

    behind : Buffer A
    unfolding first
    behind = record b {
      storage = first;
      used = b.used + length v;
      tail = pos (h.next + length v) -ℤ pos 1;
    }

    behind-IsQueue : 0 < b.used → h.next ≤ b.head → IsQueue empty behind (xs ++ v)
    unfolding behind first
    behind-IsQueue p le =
        let len = length b.storage in
        let lf : length first ≡ len = length-first in
        let lx : length (xs ++ v) ≡ length xs + length v = length-append xs v in
        let lu : b.used ≡ length xs = h.used in
        let next_eq : h.next + len ≡ b.head + b.used = omega (arith, h.ends) in
        let p_next : 0 < h.next = omega (arith, h.ends) in
        let inside : b.head < len = omega (arith, h.ends) in
        record {
          next = h.next + length v;
          tail = pos-before (h.next + length v);
          used = omega arith;
          storage = omega arith;
          head_le = omega arith;
          next_le = omega arith;
          ends = inr (inr (omega arith, omega arith, omega arith, omega arith));
          front = λ i lt_i within.
              get_or-beyond empty b.storage h.next v h.next_le (b.head + i) (omega arith)
              ∙ h.front i (omega arith) (omega arith)
              ∙ sym (get_or-left xs v i empty (omega arith));
          back = λ i lt_i beyond. get_or_at first empty (omega arith) ∙ elim (dec_lt i b.used) [
            | yes old ↦
                get_or-before empty b.storage h.next v h.next_le (b.head + i - len) (omega arith)
                ∙ h.back i old (omega arith)
                ∙ sym (get_or-left xs v i empty (omega arith))
            | no new ↦
                get_or-within empty b.storage h.next v h.next_le (b.head + i - len) (omega arith)
                  (omega arith) (omega arith)
                ∙ sym (get_or-right xs v i empty (omega arith) ∙ get_or_at v empty (omega arith))
          ];
        }

    place-fresh :
        b.used ≡ 0
        → (place empty b v >>= λ b₂. some (record b₂ { used = b₂.used + length v })) ≡ some fresh
    unfolding place fresh
    place-fresh e = rw e

    place-around :
        0 < b.used
        → b.head < h.next
        → (place empty b v >>= λ b₂. some (record b₂ { used = b₂.used + length v })) ≡ some around
    unfolding place around first rest
    place-around p lt = rw (
      ==-no b.used 0 p,
      h.tail,
      after-before h.next,
      copy_from-eq empty b.storage h.next v h.next_le,
      leb-before b.head h.next,
      ltb-yes b.head h.next lt,
      slice-eq empty v (min (length b.storage - h.next) (length v)) (length v) (omega arith)
          (omega arith),
      ==-no (length b.storage) 0 h.storage,
    )

    place-behind :
        0 < b.used
        → h.next ≤ b.head
        → (place empty b v >>= λ b₂. some (record b₂ { used = b₂.used + length v })) ≡ some behind
    unfolding place behind first
    place-behind p le = rw (
      ==-no b.used 0 p,
      h.tail,
      after-before h.next,
      copy_from-eq empty b.storage h.next v h.next_le,
      leb-before b.head h.next,
      ltb-no b.head h.next le,
    )

    -- Append to a buffer that has room for the elements.
    place-IsQueue :
        (b' : Buffer A) × ((place empty b v >>= λ b₂.
        some (record b₂ { used = b₂.used + length v }))
          ≡ some b')
        × IsQueue empty b' (xs ++ v)
    place-IsQueue = elim (dec_lt 0 b.used) [
      | no none_used ↦ (fresh, place-fresh (omega arith), fresh-IsQueue (omega arith))
      | yes p ↦ elim (dec_lt b.head h.next) [
        | yes lt ↦ (around, place-around p lt, around-IsQueue p lt)
        | no ge ↦ (behind, place-behind p (omega arith), behind-IsQueue p (omega arith))
      ]
    ]

  -- Append to a buffer never panics, and the elements stand, in order, after those that it holds.
  pub append-IsQueue :
      (b : Buffer A) (xs : List A)
      → IsQueue empty b xs
      → (v : List A) → (b' : Buffer A) × (append empty b v ≡ some b') × IsQueue empty b' (xs ++ v)
  unfolding append grow
  append-IsQueue b xs h v = elim (dec_lt (length b.storage) (b.used + length v)) [
    | no fits ↦
        (let (b', e, q) = place-IsQueue b xs h v (omega arith) in
          (b', rw (ltb-no (length b.storage) (b.used + length v) (omega arith)) e, q))
    | yes more ↦
        (let (g, grown, q, size, used) =
            move_to-IsQueue empty b xs h (b.used + length v) (omega arith) (omega arith) in
          let (b', e, q') = place-IsQueue g xs q v (omega arith) in
          (b', rw (ltb-yes (length b.storage) (b.used + length v) more, grown) e, q'))
  ]
