-- ===== src/Circular/Move.antt =====
-- Moving a buffer to a new slice, for grow and Compact.
use go_pkgs.Common.{
  ℕ, ◌+◌, ◌-◌, ◌≤◌, ◌<◌, min, ◌≡◌, refl, ◌∙◌, inl, inr, List, ◌++◌, some, arith, length, take, drop,
  replicate, get_or, length-replicate, dec_lt,
}
use go_pkgs.Common.Int.{pos, ◌-ℤ◌}
use go_pkgs.Circular.{Buffer, overlay, copied, move_to}
use go_pkgs.Circular.Cells.{
  get_or_at, length-take, length-drop, length-overlay, get_or-take, get_or-drop, overlay-copied,
}
use go_pkgs.Circular.Queue.{
  pos-before, after-before, leb-before, IsQueue, slice-eq, copy_from-eq, length-copied,
  get_or-before, get_or-within, ltb-no, ltb-yes,
}

module _ {ℓ} {A : Type ℓ} (empty : A) where
  -- The cells of `xs[i:j]`.
  pub length-cut :
      (xs : List A) (i j : ℕ) → j ≤ length xs → length (take (j - i) (drop i xs)) ≡ j - i
  length-cut xs i j h = omega (arith, length-take (j - i) (drop i xs), length-drop i xs)

  pub get_or-cut :
      (xs : List A) (i j k : ℕ)
      → i + k < j
      → get_or (take (j - i) (drop i xs)) k empty ≡ get_or xs (i + k) empty
  get_or-cut xs i j k h =
      get_or-take (j - i) (drop i xs) k empty (omega arith) ∙ get_or-drop i xs k empty

  module _ (b : Buffer A) (xs : List A) (h : IsQueue empty b xs) (size : ℕ) (room : b.used ≤ size)
      (some_room : 0 < size) where
    flat : Buffer A
    flat =
        let n = replicate size empty in
        let s = take (h.next - b.head) (drop b.head b.storage) in
        record b { storage = overlay n s; head = 0; tail = pos (copied n s) -ℤ pos 1 }

    move_to-flat : b.head < h.next → move_to empty b size ≡ some flat
    unfolding move_to flat
    move_to-flat lt = rw (
      h.tail,
      after-before h.next,
      leb-before b.head h.next,
      ltb-yes b.head h.next lt,
      slice-eq empty b.storage b.head h.next (omega arith) h.next_le,
    )

    flat-IsQueue : b.head < h.next → IsQueue empty flat xs
    unfolding flat
    flat-IsQueue lt =
        let s = take (h.next - b.head) (drop b.head b.storage) in
        let n = replicate size empty in
        let ls : length s ≡ h.next - b.head = length-cut b.storage b.head h.next h.next_le in
        let ln : length n ≡ size = length-replicate size empty in
        let lo : length (overlay n s) ≡ length n = length-overlay n s in
        record {
          next = copied n s;
          tail = pos-before (copied n s);
          used = h.used;
          storage = omega arith;
          head_le = omega arith;
          next_le = omega arith;
          ends = elim h.ends [
            | inl e ↦ inl e
            | inr some_used ↦
                inr (
                  inl
                    (omega (arith, some_used), omega (arith, some_used), omega (arith, some_used)))
          ];
          front = λ i lt_used within.
              let in_cut : b.head + i < h.next = omega (arith, h.ends) in
              get_or_at (overlay n s) empty (omega arith)
              ∙ overlay-copied n s i empty (omega arith) (omega arith)
              ∙ get_or-cut b.storage b.head h.next i in_cut
              ∙ h.front i lt_used (omega (arith, h.next_le));
          back = λ i lt_used beyond. absurd (omega arith);
        }

    -- The storage after the two copies.
    turned : List A
    turned =
        let s = take (length b.storage - b.head) (drop b.head b.storage) in
        let n = overlay (replicate size empty) s in
        let k = copied (replicate size empty) s in
        take k n ++ overlay (drop k n) (take (h.next - 0) (drop 0 b.storage))

    turned_end : ℕ
    turned_end =
        let s = take (length b.storage - b.head) (drop b.head b.storage) in
        let k = copied (replicate size empty) s in
        k
        + min (length (overlay (replicate size empty) s) - k)
            (length (take (h.next - 0) (drop 0 b.storage)))

    wrapped : Buffer A
    unfolding turned turned_end
    wrapped = record b { storage = turned; head = 0; tail = pos turned_end -ℤ pos 1 }

    move_to-wrapped : h.next ≤ b.head → move_to empty b size ≡ some wrapped
    unfolding move_to wrapped turned turned_end
    move_to-wrapped le =
        let s = take (length b.storage - b.head) (drop b.head b.storage) in
        let n = replicate size empty in
        rw (
          h.tail,
          after-before h.next,
          leb-before b.head h.next,
          ltb-no b.head h.next le,
          slice-eq empty b.storage b.head (length b.storage) h.head_le (omega arith),
          slice-eq empty b.storage 0 h.next (omega arith) h.next_le,
          copy_from-eq empty (overlay n s) (copied n s) (take (h.next - 0) (drop 0 b.storage))
              (omega (arith, length-overlay n s)),
        )

    wrapped-IsQueue : h.next ≤ b.head → IsQueue empty wrapped xs
    unfolding wrapped turned turned_end
    wrapped-IsQueue le =
        let len = length b.storage in
        let s = take (len - b.head) (drop b.head b.storage) in
        let w = take (h.next - 0) (drop 0 b.storage) in
        let o = replicate size empty in
        let n = overlay o s in
        let k = copied o s in
        let ls : length s ≡ len - b.head = length-cut b.storage b.head len (omega arith) in
        let lw : length w ≡ h.next - 0 = length-cut b.storage 0 h.next h.next_le in
        let lo : length o ≡ size = length-replicate size empty in
        let ln : length n ≡ length o = length-overlay o s in
        let lt : length turned ≡ length n = length-copied empty n k w (omega arith) in
        record {
          next = turned_end;
          tail = pos-before turned_end;
          used = h.used;
          storage = omega arith;
          head_le = omega arith;
          next_le = omega arith;
          ends = elim h.ends [
            | inl e ↦ inl e
            | inr some_used ↦
                inr (
                  inl
                    (omega (arith, some_used), omega (arith, some_used), omega (arith, some_used)))
          ];
          front = λ i lt_used within. elim (dec_lt i k) [
            | yes in_first ↦
                get_or_at turned empty (omega arith)
                ∙ get_or-before empty n k w (omega arith) i in_first
                ∙ overlay-copied o s i empty (omega arith) (omega arith)
                ∙ get_or-cut b.storage b.head len i (omega arith)
                ∙ h.front i lt_used (omega arith)
            | no beyond ↦
                let in_second : i - k < h.next = omega (arith, h.ends) in
                let far : len ≤ b.head + i = omega (arith, h.ends) in
                get_or_at turned empty (omega arith)
                ∙ get_or-within empty n k w (omega arith) i (omega arith) (omega arith)
                    (omega arith)
                ∙ get_or-cut b.storage 0 h.next (i - k) (omega arith)
                ∙ get_or_at b.storage empty (omega (arith, h.ends))
                ∙ h.back i lt_used far
          ];
          back = λ i lt_used beyond. absurd (omega arith);
        }

    -- Moving a buffer to a slice with room for what it holds never panics and keeps what it holds.
    pub move_to-IsQueue :
        (b' : Buffer A) × (move_to empty b size ≡ some b')
        × IsQueue empty b' xs
        × (length b'.storage ≡ size)
        × (b'.used ≡ b.used)
    unfolding flat wrapped turned
    move_to-IsQueue = elim (dec_lt b.head h.next) [
      | yes lt ↦ (
        flat,
        move_to-flat lt,
        flat-IsQueue lt,
        omega (
          arith,
          length-overlay (replicate size empty) (take (h.next - b.head) (drop b.head b.storage)),
          length-replicate size empty,
        ),
        refl,
      )
      | no ge ↦ (
        wrapped,
        move_to-wrapped (omega arith),
        wrapped-IsQueue (omega arith),
        (let s = take (length b.storage - b.head) (drop b.head b.storage) in
            let o = replicate size empty in
            omega (
              arith,
              length-copied empty (overlay o s) (copied o s) (take (h.next - 0) (drop 0 b.storage))
                  (omega (arith, length-overlay o s)),
              length-overlay o s,
              length-replicate size empty,
            )),
        refl,
      )
    ]
