-- ===== src/Circular/Cells.antt =====
-- What copies of slices hold at each index.
use go_pkgs.Common.{
  ℕ, zero, suc, ◌+◌, ◌-◌, ◌≤◌, ◌<◌, min, ◌≡◌, refl, ap, ap₂, ◌∙◌, List, [], ◌∷◌, ◌++◌, arith,
  length, take, drop, get_or,
}
use go_pkgs.Circular.{overlay}

step : (n i : ℕ) → suc (n + i) ≡ suc n + i
step n i = omega arith

module _ {ℓ} {A : Type ℓ} where
  pub get_or_at : (xs : List A) {i j : ℕ} (d : A) → i ≡ j → get_or xs i d ≡ get_or xs j d
  get_or_at xs d e = ap (λ k. get_or xs k d) e

  pub length-take : (n : ℕ) (xs : List A) → length (take n xs) ≡ min n (length xs)
  length-take zero xs = omega arith
  length-take (suc n) [] = omega arith
  length-take (suc n) (x ∷ xs) = omega (arith, length-take n xs)

  pub length-drop : (n : ℕ) (xs : List A) → length (drop n xs) ≡ length xs - n
  length-drop zero xs = omega arith
  length-drop (suc n) [] = omega arith
  length-drop (suc n) (x ∷ xs) = omega (arith, length-drop n xs)

  pub length-overlay : (xs ys : List A) → length (overlay xs ys) ≡ length xs
  length-overlay [] ys = refl
  length-overlay (x ∷ xs) [] = refl
  length-overlay (x ∷ xs) (y ∷ ys) = ap suc (length-overlay xs ys)

  pub get_or-take :
      (n : ℕ) (xs : List A) (i : ℕ) (d : A) → i < n → get_or (take n xs) i d ≡ get_or xs i d
  get_or-take zero xs i d h = absurd (omega arith)
  get_or-take (suc n) [] i d h = refl
  get_or-take (suc n) (x ∷ xs) zero d h = refl
  get_or-take (suc n) (x ∷ xs) (suc i) d h = get_or-take n xs i d (omega arith)

  pub get_or-drop :
      (n : ℕ) (xs : List A) (i : ℕ) (d : A) → get_or (drop n xs) i d ≡ get_or xs (n + i) d
  get_or-drop zero xs i d = ap (λ j. get_or xs j d) (omega arith)
  get_or-drop (suc n) [] i d = refl
  get_or-drop (suc n) (x ∷ xs) i d = get_or-drop n xs i d ∙ ap (λ j. get_or (x ∷ xs) j d) (step n i)

  pub get_or-left :
      (xs ys : List A) (i : ℕ) (d : A) → i < length xs → get_or (xs ++ ys) i d ≡ get_or xs i d
  get_or-left [] ys i d h = absurd (omega arith)
  get_or-left (x ∷ xs) ys zero d h = refl
  get_or-left (x ∷ xs) ys (suc i) d h = get_or-left xs ys i d (omega arith)

  pub get_or-right :
      (xs ys : List A) (i : ℕ) (d : A)
      → length xs ≤ i
      → get_or (xs ++ ys) i d ≡ get_or ys (i - length xs) d
  get_or-right [] ys i d h = ap (λ j. get_or ys j d) (omega arith)
  get_or-right (x ∷ xs) ys zero d h = absurd (omega arith)
  get_or-right (x ∷ xs) ys (suc i) d h =
      get_or-right xs ys i d (omega arith) ∙ ap (λ j. get_or ys j d) (omega arith)

  pub overlay-copied :
      (xs ys : List A) (i : ℕ) (d : A)
      → i < length xs
      → i < length ys
      → get_or (overlay xs ys) i d ≡ get_or ys i d
  overlay-copied [] ys i d h k = absurd (omega arith)
  overlay-copied (x ∷ xs) [] i d h k = absurd (omega arith)
  overlay-copied (x ∷ xs) (y ∷ ys) zero d h k = refl
  overlay-copied (x ∷ xs) (y ∷ ys) (suc i) d h k =
      overlay-copied xs ys i d (omega arith) (omega arith)

  pub overlay-kept :
      (xs ys : List A) (i : ℕ) (d : A) → length ys ≤ i → get_or (overlay xs ys) i d ≡ get_or xs i d
  overlay-kept [] ys i d h = refl
  overlay-kept (x ∷ xs) [] i d h = refl
  overlay-kept (x ∷ xs) (y ∷ ys) zero d h = absurd (omega arith)
  overlay-kept (x ∷ xs) (y ∷ ys) (suc i) d h = overlay-kept xs ys i d (omega arith)

  pub list_ext :
      (xs ys : List A) (d : A)
      → length xs ≡ length ys
      → ((i : ℕ) → i < length xs → get_or xs i d ≡ get_or ys i d)
      → xs ≡ ys
  list_ext [] [] d l same = refl
  list_ext [] (y ∷ ys) d l same = absurd (omega arith)
  list_ext (x ∷ xs) [] d l same = absurd (omega arith)
  list_ext (x ∷ xs) (y ∷ ys) d l same =
      ap₂ (λ a rest. a ∷ rest) (same 0 (omega arith))
        (list_ext xs ys d (omega arith) (λ i lt. same (suc i) (omega arith)))
