-- ===== src/Circular/Head.antt =====
-- Head and Compact.
use go_pkgs.Common.{
  ℕ, zero, suc, ◌+◌, ◌-◌, ◌%◌, ◌≤◌, ◌<◌, ◌≡◌, refl, sym, ap, ◌∙◌, inl, inr, List, [], ◌∷◌, ◌++◌,
  some, arith, length, take, drop, replicate, length-replicate, ◌==◌, if◌then◌else◌, dec_lt, subst,
}
use go_pkgs.Common.Int.{pos}
use go_pkgs.Circular.{Buffer, overlay, copied, head, take_head, compact}
use go_pkgs.Circular.Cells.{
  get_or_at, length-take, length-drop, length-overlay, get_or-take, get_or-drop, overlay-copied,
  list_ext,
}
use go_pkgs.Circular.Queue.{
  leb-before, IsQueue, slice-eq, copy_from-eq, length-copied, get_or-before, get_or-within, ltb-no,
  ltb-yes,
}
use go_pkgs.Circular.Move.{length-cut, get_or-cut, move_to-IsQueue}
use go_pkgs.Circular.Append.{==-no, ==-yes, mod_below, mod_round}

module _ {ℓ} {A : Type ℓ} where
  take_all : (n : ℕ) (xs : List A) → length xs ≤ n → take n xs ≡ xs
  take_all zero [] h = refl
  take_all zero (x ∷ xs) h = absurd (omega arith)
  take_all (suc n) [] h = refl
  take_all (suc n) (x ∷ xs) h = ap (λ ys. x ∷ ys) (take_all n xs (omega arith))

  drop_all : (n : ℕ) (xs : List A) → length xs ≤ n → drop n xs ≡ []
  drop_all zero [] h = refl
  drop_all zero (x ∷ xs) h = absurd (omega arith)
  drop_all (suc n) [] h = refl
  drop_all (suc n) (x ∷ xs) h = drop_all n xs (omega arith)

  no_elements : (xs : List A) → length xs ≡ 0 → xs ≡ []
  no_elements [] h = refl
  no_elements (x ∷ xs) h = absurd (omega arith)

module _ {ℓ} {A : Type ℓ} (empty : A) where
  module _ (b : Buffer A) (xs : List A) (h : IsQueue empty b xs) (m : ℕ) (p : 0 < m)
      (le : m ≤ b.used) where
    ahead : List A
    ahead = overlay (replicate m empty) (take (length b.storage - b.head) (drop b.head b.storage))

    near : Buffer A
    near = record b { head = b.head + m; used = b.used - m }

    ahead-take : suc b.head < h.next → ahead ≡ take m xs
    unfolding ahead
    ahead-take lt =
        let len = length b.storage in
        let s = take (len - b.head) (drop b.head b.storage) in
        let o = replicate m empty in
        let ls : length s ≡ len - b.head = length-cut empty b.storage b.head len (omega arith) in
        let lo : length o ≡ m = length-replicate m empty in
        let lu : b.used ≡ length xs = h.used in
        let fits : h.next ≤ len = h.next_le in
        list_ext (overlay o s) (take m xs) empty
          (omega (arith, length-overlay o s, length-take m xs))
          (λ i lt_i.
            let lt_m : i < m = omega (arith, length-overlay o s) in
            let within : b.head + i < h.next = omega (arith, h.ends) in
            overlay-copied o s i empty (omega arith) (omega arith)
            ∙ get_or-cut empty b.storage b.head len i (omega arith)
            ∙ h.front i (omega arith) (omega arith)
            ∙ sym (get_or-take m xs i empty lt_m))

    near-IsQueue : suc b.head < h.next → IsQueue empty near (drop m xs)
    unfolding near
    near-IsQueue lt =
        let len = length b.storage in
        let lu : b.used ≡ length xs = h.used in
        let fits : h.next ≤ len = h.next_le in
        let straight : h.next ≡ b.head + b.used = omega (arith, h.ends) in
        record {
          next = h.next;
          tail = h.tail;
          used = omega (arith, length-drop m xs);
          storage = h.storage;
          head_le = omega arith;
          next_le = fits;
          ends = elim (dec_lt m b.used) [
            | yes more ↦ inr (inl (omega arith, omega arith, omega arith))
            | no all ↦ inl (omega arith)
          ];
          front = λ i lt_i within.
              get_or_at b.storage empty (omega arith)
              ∙ h.front (m + i) (omega arith) (omega arith)
              ∙ sym (get_or-drop m xs i empty);
          back = λ i lt_i beyond. absurd (omega arith);
        }

    -- What the two copies of Head give.
    both : List A
    unfolding ahead
    both =
        let c =
          copied (replicate m empty) (take (length b.storage - b.head) (drop b.head b.storage)) in
        take c ahead ++ overlay (drop c ahead) b.storage

    far : Buffer A
    far = record b { head = (b.head + m) % length b.storage; used = b.used - m }

    both-take : h.next ≤ suc b.head → both ≡ take m xs
    unfolding both ahead
    both-take ge =
        let len = length b.storage in
        let s = take (len - b.head) (drop b.head b.storage) in
        let o = replicate m empty in
        let c = copied o s in
        let at_head : b.head ≤ len = h.head_le in
        let ls : length s ≡ len - b.head = length-cut empty b.storage b.head len (omega arith) in
        let lo : length o ≡ m = length-replicate m empty in
        let la : length ahead ≡ length o = length-overlay o s in
        let lb : length both ≡ length ahead = length-copied empty ahead c b.storage (omega arith) in
        let lu : b.used ≡ length xs = h.used in
        let fits : h.next ≤ len = h.next_le in
        list_ext both (take m xs) empty (omega (arith, length-take m xs)) (λ i lt_i.
          elim (dec_lt i c) [
            | yes in_first ↦
                get_or-before empty ahead c b.storage (omega arith) i in_first
                ∙ overlay-copied o s i empty (omega arith) (omega arith)
                ∙ get_or-cut empty b.storage b.head len i (omega arith)
                ∙ h.front i (omega arith) (omega arith)
            | no beyond ↦
                let in_next : i - c < h.next = omega (arith, h.ends) in
                get_or-within empty ahead c b.storage (omega arith) i (omega arith) (omega arith)
                  (omega arith)
                ∙ get_or_at b.storage empty (omega arith)
                ∙ h.back i (omega arith) (omega arith)
          ]
          ∙ sym (get_or-take m xs i empty (omega arith)))

    far-IsQueue : h.next ≤ suc b.head → IsQueue empty far (drop m xs)
    unfolding far
    far-IsQueue ge =
        let len = length b.storage in
        let lu : b.used ≡ length xs = h.used in
        let fits : h.next ≤ len = h.next_le in
        let inside : b.head < len = omega (arith, h.ends, h.storage) in
        elim (dec_lt (b.head + m) len) [
          | yes stays ↦
              let at : (b.head + m) % len ≡ b.head + m = mod_below (b.head + m) len stays in
              record {
                next = h.next;
                tail = h.tail;
                used = omega (arith, length-drop m xs);
                storage = h.storage;
                head_le = omega arith;
                next_le = fits;
                ends = elim (dec_lt m b.used) [
                  | yes more ↦
                      inr (
                        inr
                          (omega (arith, h.ends), omega arith, omega arith, omega (arith, h.ends)))
                  | no all ↦ inl (omega arith)
                ];
                front = λ i lt_i within.
                    get_or_at b.storage empty (omega arith)
                    ∙ h.front (m + i) (omega arith) (omega arith)
                    ∙ sym (get_or-drop m xs i empty);
                back = λ i lt_i beyond.
                    get_or_at b.storage empty (omega arith)
                    ∙ h.back (m + i) (omega arith) (omega arith)
                    ∙ sym (get_or-drop m xs i empty);
              }
          | no turns ↦
              let used_le : b.used ≤ len = omega (arith, h.ends) in
              let at : (b.head + m) % len ≡ b.head + m - len =
                mod_round (b.head + m) len (omega arith) (omega arith) in
              record {
                next = h.next;
                tail = h.tail;
                used = omega (arith, length-drop m xs);
                storage = h.storage;
                head_le = omega arith;
                next_le = fits;
                ends = elim (dec_lt m b.used) [
                  | yes more ↦ inr (inl (omega arith, omega (arith, h.ends), omega (arith, h.ends)))
                  | no all ↦ inl (omega arith)
                ];
                front = λ i lt_i within.
                    get_or_at b.storage empty (omega arith)
                    ∙ h.back (m + i) (omega arith) (omega arith)
                    ∙ sym (get_or-drop m xs i empty);
                back = λ i lt_i beyond. absurd (omega (arith, h.ends));
              }
        ]

    take_head-near : suc b.head < h.next → take_head empty b m ≡ some (ahead, near)
    unfolding take_head ahead near
    take_head-near lt = rw (
      slice-eq empty b.storage b.head (length b.storage) h.head_le (omega arith),
      h.tail,
      leb-before (suc b.head) h.next,
      ltb-yes (suc b.head) h.next lt,
    )

    take_head-far : h.next ≤ suc b.head → take_head empty b m ≡ some (both, far)
    unfolding take_head ahead both far
    take_head-far ge =
        let s = take (length b.storage - b.head) (drop b.head b.storage) in
        let o = replicate m empty in
        rw (
          slice-eq empty b.storage b.head (length b.storage) h.head_le (omega arith),
          h.tail,
          leb-before (suc b.head) h.next,
          ltb-no (suc b.head) h.next ge,
          copy_from-eq empty (overlay o s) (copied o s) b.storage
              (omega (arith, length-overlay o s)),
          ==-no (length b.storage) 0 h.storage,
        )

    take_head-IsQueue :
        (b' : Buffer A) × (take_head empty b m ≡ some (take m xs, b'))
        × IsQueue empty b' (drop m xs)
    take_head-IsQueue = elim (dec_lt (suc b.head) h.next) [
      | yes lt ↦
          (near, take_head-near lt ∙ ap (λ o. some (o, near)) (ahead-take lt), near-IsQueue lt)
      | no ge ↦ (
        far,
        take_head-far (omega arith) ∙ ap (λ o. some (o, far)) (both-take (omega arith)),
        far-IsQueue (omega arith),
      )
    ]

  -- Head of `n` elements never panics: it returns the first `n` that the buffer holds, or all if
  -- there are fewer, and the buffer then holds the others.
  pub head-IsQueue :
      (b : Buffer A) (xs : List A)
      → IsQueue empty b xs
      → (n : ℕ)
      → (b' : Buffer A) × (head empty b (pos n) ≡ some (take n xs, b'))
        × IsQueue empty b' (drop n xs)
  unfolding head
  head-IsQueue b xs h zero = (b, refl, h)
  head-IsQueue b xs h (suc n) =
      let lu : b.used ≡ length xs = h.used in
      elim (dec_lt 0 b.used) [
        | no none_used ↦
            let e : xs ≡ [] = no_elements xs (omega arith) in
            let none_left : b.used ≡ 0 = omega arith in
            (
              b,
              rw (==-no (suc n) 0 (omega arith), ==-yes b.used 0 none_left, e),
              subst (IsQueue empty b) (e ∙ sym (ap (drop (suc n)) e)) h,
            )
        | yes p ↦ elim (dec_lt b.used (suc n)) [
          | yes all ↦
              let (b', e, q) = take_head-IsQueue b xs h b.used p (omega arith) in
              (
                b',
                rw (
                  ==-no (suc n) 0 (omega arith),
                  ==-no b.used 0 p,
                  ltb-yes b.used (suc n) all,
                  e,
                  take_all b.used xs (omega arith),
                  take_all (suc n) xs (omega arith),
                ),
                subst (IsQueue empty b')
                    (drop_all b.used xs (omega arith) ∙ sym (drop_all (suc n) xs (omega arith))) q,
              )
          | no some_left ↦
              let (b', e, q) = take_head-IsQueue b xs h (suc n) (omega arith) (omega arith) in
              (
                b',
                rw (
                  ==-no (suc n) 0 (omega arith),
                  ==-no b.used 0 p,
                  ltb-no b.used (suc n) (omega arith),
                  e,
                ),
                q,
              )
        ]
      ]

  -- Compact never panics and keeps what the buffer holds. The storage then has a cell for each element
  -- that it holds, or one cell if it holds none.
  pub compact-IsQueue :
      (b : Buffer A) (xs : List A)
      → IsQueue empty b xs
      → (b' : Buffer A) × (compact empty b ≡ some b')
        × IsQueue empty b' xs
        × (length b'.storage ≡ (if length xs == 0 then 1 else length xs))
  unfolding compact
  compact-IsQueue b xs h =
      let lu : b.used ≡ length xs = h.used in
      elim (dec_lt 0 b.used) [
        | no none_used ↦
            let e : b.used ≡ 0 = omega arith in
            let e' : length xs ≡ 0 = omega arith in
            (
              record b { storage = replicate 1 empty; head = 0; tail = pos 0 },
              rw e,
              record {
                next = 1;
                tail = refl;
                used = h.used;
                storage = omega arith;
                head_le = omega arith;
                next_le = omega arith;
                ends = inl e;
                front = λ i lt_i within. absurd (omega arith);
                back = λ i lt_i beyond. absurd (omega arith);
              },
              rw e',
            )
        | yes p ↦
            let (b', e, q, size, used) = move_to-IsQueue empty b xs h b.used (omega arith) p in
            (b', rw (==-no b.used 0 p) e, q, rw (==-no (length xs) 0 (omega arith)) (omega arith))
      ]
