-- ===== src/Heap/Cut.antt =====
-- Appending an entry to the two slices, and cutting the last one off.
use mathlib.Core.List.{Perm, zip, append-nil, perm_middle}
use mathlib.Core.List.Perm
use go_pkgs.Common.{
  ℕ, zero, suc, ◌≤◌, ◌<◌, ◌≡◌, refl, ap, List, [], ◌∷◌, ◌++◌, arith, length, get_or, take,
}

module _ {ℓ} {A : Type ℓ} where
  pub get_or-append :
      (xs ys : List A) (i : ℕ) (d : A) → i < length xs → get_or (xs ++ ys) i d ≡ get_or xs i d
  get_or-append [] ys i d h = absurd (omega arith)
  get_or-append (x ∷ xs) ys zero d h = refl
  get_or-append (x ∷ xs) ys (suc i) d h = get_or-append xs ys i d (omega arith)

  pub get_or-take : (n i : ℕ) (d : A) (xs : List A) → i < n → get_or (take n xs) i d ≡ get_or xs i d
  get_or-take zero i d xs h = absurd (omega arith)
  get_or-take (suc n) i d [] h = refl
  get_or-take (suc n) zero d (x ∷ xs) h = refl
  get_or-take (suc n) (suc i) d (x ∷ xs) h = get_or-take n i d xs (omega arith)

  pub length-take : (n : ℕ) (xs : List A) → n ≤ length xs → length (take n xs) ≡ n
  length-take zero xs h = refl
  length-take (suc n) [] h = absurd (omega arith)
  length-take (suc n) (x ∷ xs) h = ap suc (length-take n xs (omega arith))

  -- The last entry and those before it.
  pub last_out :
      (d : A) (xs : List A) (n : ℕ) → length xs ≡ suc n → Perm (get_or xs n d ∷ take n xs) xs
  last_out d [] n h = absurd (omega arith)
  last_out d (x ∷ []) zero h = Perm.rfl
  last_out d (x ∷ y ∷ xs) zero h = absurd (omega arith)
  last_out d (x ∷ xs) (suc n) h =
      Perm.trans (Perm.swap x (get_or xs n d) (take n xs))
        (Perm.cons x (last_out d xs n (omega arith)))

  pub new_last : (xs : List A) (a : A) → Perm (xs ++ a ∷ []) (a ∷ xs)
  new_last xs a = rw (append-nil xs) at (perm_middle {a = a} xs [])

module _ {ℓ κ} {A : Type ℓ} {B : Type κ} where
  pub zip-take :
      (n : ℕ) (xs : List A) (ys : List B) → zip (take n xs) (take n ys) ≡ take n (zip xs ys)
  unfolding zip
  zip-take zero xs ys = refl
  zip-take (suc n) [] ys = refl
  zip-take (suc n) (x ∷ xs) [] = refl
  zip-take (suc n) (x ∷ xs) (y ∷ ys) = ap (◌∷◌ (x, y)) (zip-take n xs ys)

  pub zip-append :
      (xs : List A) (ys : List B) (a : A) (b : B)
      → length xs ≡ length ys
      → zip (xs ++ a ∷ []) (ys ++ b ∷ []) ≡ zip xs ys ++ (a, b) ∷ []
  unfolding zip
  zip-append [] [] a b h = refl
  zip-append [] (y ∷ ys) a b h = absurd (omega arith)
  zip-append (x ∷ xs) [] a b h = absurd (omega arith)
  zip-append (x ∷ xs) (y ∷ ys) a b h = ap (◌∷◌ (x, y)) (zip-append xs ys a b (omega arith))
