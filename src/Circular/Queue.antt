-- ===== src/Circular/Queue.antt =====
-- What a buffer holds, and that moving it to a new slice keeps it.
use go_pkgs.Common.{
  ℕ, zero, suc, ◌+◌, ◌-◌, ◌≤◌, ◌<◌, min, ◌≡◌, refl, ap, ◌∙◌, ◌⊎◌, true, false, List, ◌++◌, some,
  arith, length, take, drop, get_or, length-append, ltb, leb,
}
use go_pkgs.Common.Int.{ℤ, pos, negsuc, leb_ℤ, ◌-ℤ◌}
use go_pkgs.Circular.{Buffer, slice, overlay, copy_from, after}
use go_pkgs.Circular.Cells.{
  length-take, length-drop, length-overlay, get_or-take, get_or-drop, get_or-left, get_or-right,
  overlay-copied, overlay-kept,
}

pub le→leb : (a b : ℕ) → a ≤ b → leb a b ≡ true
le→leb a b h = ground arith

pub ltb-yes : (a b : ℕ) → a < b → ltb a b ≡ true
ltb-yes a b h = ground arith

pub ltb-no : (a b : ℕ) → b ≤ a → ltb a b ≡ false
ltb-no a b h = ground arith

-- `next - 1`
abbrev pub before : ℕ → ℤ
before zero = negsuc 0
before (suc t) = pos t

pub pos-before : (n : ℕ) → pos n -ℤ pos 1 ≡ before n
unfolding ◌-ℤ◌
pos-before zero = refl
pos-before (suc n) = ground arith

pub after-before : (n : ℕ) → after (before n) ≡ some n
after-before zero = refl
after-before (suc n) = refl

pub leb-before : (h n : ℕ) → leb_ℤ (pos h) (before n) ≡ ltb h n
leb-before h zero = ground arith
leb-before h (suc n) = ground arith

module _ {ℓ} {A : Type ℓ} (empty : A) where
  -- The buffer holds `xs`, first element first: from `head` up to `next`, or up to the end of the
  -- storage and then from its start up to `next`.
  pub record IsQueue (b : Buffer A) (xs : List A) : Type ℓ where
    pub next : ℕ
    pub tail : b.tail ≡ before next
    pub used : b.used ≡ length xs
    pub storage : 0 < length b.storage
    pub head_le : b.head ≤ length b.storage
    pub next_le : next ≤ length b.storage
    pub ends :
        (b.used ≡ 0)
        ⊎ ((0 < b.used × b.head < next × next ≡ b.head + b.used)
            ⊎ (0 < next
                × next ≤ b.head
                × b.head < length b.storage
                × next + length b.storage ≡ b.head + b.used))
    pub front :
        (i : ℕ)
        → i < b.used
        → b.head + i < length b.storage
        → get_or b.storage (b.head + i) empty ≡ get_or xs i empty
    pub back :
        (i : ℕ)
        → i < b.used
        → length b.storage ≤ b.head + i
        → get_or b.storage (b.head + i - length b.storage) empty ≡ get_or xs i empty

  pub slice-eq :
      (xs : List A) (i j : ℕ)
      → i ≤ j
      → j ≤ length xs
      → slice xs i j ≡ some (take (j - i) (drop i xs))
  unfolding slice
  slice-eq xs i j h k = rw (le→leb i j h, le→leb j (length xs) k)

  pub copy_from-eq :
      (xs : List A) (k : ℕ) (ys : List A)
      → k ≤ length xs
      → copy_from xs k ys
        ≡ some (take k xs ++ overlay (drop k xs) ys, min (length xs - k) (length ys))
  unfolding copy_from
  copy_from-eq xs k ys h = ground arith

  module _ (xs : List A) (k : ℕ) (ys : List A) (h : k ≤ length xs) where
    pub length-copied : length (take k xs ++ overlay (drop k xs) ys) ≡ length xs
    length-copied = omega (
      arith,
      length-append (take k xs) (overlay (drop k xs) ys),
      length-take k xs,
      length-overlay (drop k xs) ys,
      length-drop k xs,
    )

    pub get_or-before :
        (i : ℕ) → i < k → get_or (take k xs ++ overlay (drop k xs) ys) i empty ≡ get_or xs i empty
    get_or-before i lt =
        get_or-left (take k xs) (overlay (drop k xs) ys) i empty (omega (arith, length-take k xs))
        ∙ get_or-take k xs i empty lt

    at_overlay :
        (i : ℕ)
        → k ≤ i
        → get_or (take k xs ++ overlay (drop k xs) ys) i empty
          ≡ get_or (overlay (drop k xs) ys) (i - k) empty
    at_overlay i le =
        get_or-right (take k xs) (overlay (drop k xs) ys) i empty (omega (arith, length-take k xs))
        ∙ ap (λ j. get_or (overlay (drop k xs) ys) (i - j) empty) (omega (arith, length-take k xs))

    pub get_or-within :
        (i : ℕ)
        → k ≤ i
        → i < length xs
        → i - k < length ys
        → get_or (take k xs ++ overlay (drop k xs) ys) i empty ≡ get_or ys (i - k) empty
    get_or-within i le lt room =
        at_overlay i le
        ∙ overlay-copied (drop k xs) ys (i - k) empty (omega (arith, length-drop k xs)) room

    pub get_or-beyond :
        (i : ℕ)
        → k + length ys ≤ i
        → get_or (take k xs ++ overlay (drop k xs) ys) i empty ≡ get_or xs i empty
    get_or-beyond i le =
        at_overlay i (omega arith)
        ∙ overlay-kept (drop k xs) ys (i - k) empty (omega arith)
        ∙ get_or-drop k xs (i - k) empty
        ∙ ap (λ j. get_or xs j empty) (omega arith)
