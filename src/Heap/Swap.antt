-- ===== src/Heap/Swap.antt =====
-- Swapping two entries of a list, with a default that is read out of bounds only.
use mathlib.Core.List.{Perm, zip}
use mathlib.Core.List.Perm
use go_pkgs.Common.{
  ℕ, zero, suc, ◌<◌, ◌≡◌, refl, ap, ap₂, ◌∙◌, List, [], ◌∷◌, some, arith, length, get_or, set,
  store-eq_of_lt, get_elem?-eq-get_or, length-set, get_or-set_self, get_or-set_ne, ◌==◌,
  if◌then◌else◌, ℕ_discrete,
}
use go_pkgs.Heap.{exchange}

module _ {ℓ} {A : Type ℓ} where
  pub swap_at : List A → ℕ → ℕ → A → List A
  swap_at xs i j d = set (set xs i (get_or xs j d)) j (get_or xs i d)

  pub exchange-eq :
      (xs : List A) (i j : ℕ) (d : A)
      → i < length xs
      → j < length xs
      → exchange xs i j ≡ some (swap_at xs i j d)
  unfolding exchange swap_at
  exchange-eq xs i j d hi hj = rw (
    get_elem?-eq-get_or xs j d hj,
    get_elem?-eq-get_or xs i d hi,
    store-eq_of_lt xs i (get_or xs j d) hi,
    store-eq_of_lt (set xs i (get_or xs j d)) j (get_or xs i d)
        (omega (arith, length-set xs i (get_or xs j d))),
  )

  pub length-swap_at : (xs : List A) (i j : ℕ) (d : A) → length (swap_at xs i j d) ≡ length xs
  unfolding swap_at
  length-swap_at xs i j d = length-set _ j (get_or xs i d) ∙ length-set xs i (get_or xs j d)

  pub get_or-set :
      (xs : List A) (i j : ℕ) (v d : A)
      → i < length xs
      → get_or (set xs i v) j d ≡ (if i == j then v else get_or xs j d)
  get_or-set xs i j v d h = elim (ℕ_discrete i j) [
    | yes e ↦ rw (← e) (get_or-set_self xs i v d h ∙ ground arith)
    | no ne ↦ get_or-set_ne xs i j v d ne ∙ ground arith
  ]

  pub get_or-swap_at :
      (xs : List A) (i j c : ℕ) (d : A)
      → i < length xs
      → j < length xs
      → get_or (swap_at xs i j d) c d
        ≡ (if j == c then get_or xs i d else if i == c then get_or xs j d else get_or xs c d)
  unfolding swap_at
  get_or-swap_at xs i j c d hi hj =
      get_or-set (set xs i (get_or xs j d)) j c (get_or xs i d) d
        (omega (arith, length-set xs i (get_or xs j d)))
      ∙ ap (λ t. if j == c then get_or xs i d else t) (get_or-set xs i c (get_or xs j d) d hi)

  -- A write takes one entry out and puts one in.
  traded :
      (v d : A) (xs : List A) (i : ℕ) → i < length xs → Perm (v ∷ xs) (get_or xs i d ∷ set xs i v)
  traded v d [] i h = absurd (omega arith)
  traded v d (x ∷ xs) zero h = Perm.swap x v xs
  traded v d (x ∷ xs) (suc i) h =
      Perm.trans (Perm.trans (Perm.swap x v xs) (Perm.cons x (traded v d xs i (omega arith))))
        (Perm.swap (get_or xs i d) x (set xs i v))

  pub set-perm :
      (v d : A) (xs : List A) (i : ℕ) → i < length xs → Perm (v ∷ xs) (get_or xs i d ∷ set xs i v)
  set-perm v d xs i h = traded v d xs i h

  pub swap_at-perm :
      (xs : List A) (i j : ℕ) (d : A) → i < length xs → j < length xs → Perm (swap_at xs i j d) xs
  unfolding swap_at
  swap_at-perm xs i j d hi hj =
      let y = get_or xs j d in
      let first = traded y d xs i hi in
      let kept : get_or (set xs i y) j d ≡ y = get_or-set xs i j y d hi ∙ ground arith in
      let second =
        rw kept at (traded (get_or xs i d) d (set xs i y) j (omega (arith, length-set xs i y))) in
      Perm.symm (Perm.cons_inv (Perm.trans first second))

module _ {ℓ κ} {A : Type ℓ} {B : Type κ} (d : A) (e : B) where
  pub get_or-zip :
      (xs : List A) (ys : List B) (i : ℕ)
      → i < length xs
      → i < length ys
      → get_or (zip xs ys) i (d, e) ≡ (get_or xs i d, get_or ys i e)
  unfolding zip
  get_or-zip [] ys i h k = absurd (omega arith)
  get_or-zip (x ∷ xs) [] i h k = absurd (omega arith)
  get_or-zip (x ∷ xs) (y ∷ ys) zero h k = refl
  get_or-zip (x ∷ xs) (y ∷ ys) (suc i) h k = get_or-zip xs ys i (omega arith) (omega arith)

  pub zip-set :
      (xs : List A) (ys : List B) (i : ℕ) (a : A) (b : B)
      → zip (set xs i a) (set ys i b) ≡ set (zip xs ys) i (a, b)
  unfolding zip
  zip-set [] ys i a b = refl
  zip-set (x ∷ xs) [] zero a b = refl
  zip-set (x ∷ xs) [] (suc i) a b = refl
  zip-set (x ∷ xs) (y ∷ ys) zero a b = refl
  zip-set (x ∷ xs) (y ∷ ys) (suc i) a b = ap (◌∷◌ (x, y)) (zip-set xs ys i a b)

  pub length-zip :
      (xs : List A) (ys : List B) → length xs ≡ length ys → length (zip xs ys) ≡ length xs
  unfolding zip
  length-zip [] ys h = refl
  length-zip (x ∷ xs) [] h = absurd (omega arith)
  length-zip (x ∷ xs) (y ∷ ys) h = ap suc (length-zip xs ys (omega arith))

  pub zip-swap_at :
      (xs : List A) (ys : List B) (i j : ℕ)
      → i < length xs
      → j < length xs
      → length xs ≡ length ys
      → zip (swap_at xs i j d) (swap_at ys i j e) ≡ swap_at (zip xs ys) i j (d, e)
  unfolding swap_at
  zip-swap_at xs ys i j hi hj same =
      zip-set (set xs i (get_or xs j d)) (set ys i (get_or ys j e)) j (get_or xs i d)
        (get_or ys i e)
      ∙ ap₂ (λ l v. set l j v) (zip-set xs ys i (get_or xs j d) (get_or ys j e) ∙ inner) outer
    where
      inner :
          set (zip xs ys) i (get_or xs j d, get_or ys j e)
          ≡ set (zip xs ys) i (get_or (zip xs ys) j (d, e))
      inner = rw (get_or-zip xs ys j hj (omega arith))

      outer : (get_or xs i d, get_or ys i e) ≡ get_or (zip xs ys) i (d, e)
      outer = rw (get_or-zip xs ys i hi (omega arith))
