-- ===== src/Lcs/Best.antt =====
-- The longest common subsequence, independently of any table.
use mathlib.Core.List.{head-eq_of_cons-eq, tail-eq_of_cons-eq, cons-ne-nil}
use mathlib.Core.Bool.{false≢true}
use go_pkgs.Common.{
  ℕ, zero, suc, ◌+◌, ◌≤◌, max, ◌≡◌, refl, sym, ap, ap₂, ◌∙◌, ◌⊎◌, inl, inr, Bool, false, Bool-cases,
  List, [], ◌∷◌, ◌++◌, Option, some, arith, length, get_elem?, if◌then◌else◌, length-append, subst,
}
use go_pkgs.Common.Equality.{Equality}

-- `s` takes some of the first `i` elements of `xs`, in order.
module _ {ℓ} {A : Type ℓ} where
  unfoldable pub Picks : List A → List A → ℕ → Type ℓ
  Picks xs s zero = s ≡ []
  Picks xs s (suc i) =
      Picks xs s i
      ⊎ ((t : List A) × (x : A) × (s ≡ t ++ x ∷ []) × (get_elem? xs i ≡ some x) × Picks xs t i)

  pub last_eq : (s t : List A) (x y : A) → s ++ x ∷ [] ≡ t ++ y ∷ [] → (s ≡ t) × (x ≡ y)
  last_eq [] [] x y e = (refl, head-eq_of_cons-eq e)
  last_eq [] (w ∷ []) x y e = absurd (cons-ne-nil _ _ (sym (tail-eq_of_cons-eq e)))
  last_eq [] (w ∷ z ∷ t) x y e = absurd (cons-ne-nil _ _ (sym (tail-eq_of_cons-eq e)))
  last_eq (w ∷ []) [] x y e = absurd (cons-ne-nil _ _ (tail-eq_of_cons-eq e))
  last_eq (w ∷ z ∷ s) [] x y e = absurd (cons-ne-nil _ _ (tail-eq_of_cons-eq e))
  last_eq (v ∷ s) (w ∷ t) x y e =
      let (same, last) = last_eq s t x y (tail-eq_of_cons-eq e) in
      (ap₂ (λ p q. p ∷ q) (head-eq_of_cons-eq e) same, last)

  pub append-ne_nil : (s : List A) (x : A) → s ++ x ∷ [] ≡ [] → ⊥
  append-ne_nil [] x e = cons-ne-nil _ _ e
  append-ne_nil (y ∷ s) x e = cons-ne-nil _ _ e

  -- Without its last element a list still takes elements of `xs`.
  pub Picks-front : (xs s : List A) (x : A) (i : ℕ) → Picks xs (s ++ x ∷ []) i → Picks xs s i
  unfolding Picks
  Picks-front xs s x zero p = absurd (append-ne_nil s x p)
  Picks-front xs s x (suc i) (inl p) = inl (Picks-front xs s x i p)
  Picks-front xs s x (suc i) (inr (t, y, e, at, p)) =
      inl (subst (λ u. Picks xs u i) (sym (last_eq s t x y e).0) p)

module _ {ℓ} {A : Type ℓ} (E : Equality A) where
  unfoldable pub same_elements : Option A → Option A → Bool
  same_elements (some x) (some y) = E.same x y
  same_elements _ _ = false

module _ {ℓ} {A : Type ℓ} (E : Equality A) (a b : List A) where
  unfoldable pub same_at : ℕ → ℕ → Bool
  unfolding same_elements
  same_at i j = same_elements E (get_elem? a i) (get_elem? b j)

  -- The length of the longest common subsequence of the first `i` elements of `a` and `j` of `b`.
  unfoldable pub best : ℕ → ℕ → ℕ
  best zero j = 0
  best (suc i) zero = 0
  best (suc i) (suc j) = if same_at i j then best i j + 1 else max (best i (suc j)) (best (suc i) j)

  pub same_at-some :
      (i j : ℕ) (x y : A)
      → get_elem? a i ≡ some x
      → get_elem? b j ≡ some y
      → same_at i j ≡ E.same x y
  unfolding same_at same_elements
  same_at-some i j x y ea eb = rw (ea, eb)

  shorter : (s t : List A) (x : A) (n : ℕ) → s ≡ t ++ x ∷ [] → length t ≤ n → length s ≤ n + 1
  shorter s t x n e h = rw e (omega (arith, length-append t (x ∷ [])))

  same_step :
      (s : List A) (i j : ℕ)
      → ((t : List A) → Picks a t i → Picks b t j → length t ≤ best i j)
      → Picks a s (suc i)
      → Picks b s (suc j)
      → length s ≤ best i j + 1
  unfolding Picks
  same_step s i j ih (inl p) (inl q) = omega (arith, ih s p q)
  same_step s i j ih (inl p) (inr (t, y, e, at, q)) =
      shorter s t y (best i j) e (ih t (Picks-front a t y i (subst (λ u. Picks a u i) e p)) q)
  same_step s i j ih (inr (t, x, e, at, p)) (inl q) =
      shorter s t x (best i j) e (ih t p (Picks-front b t x j (subst (λ u. Picks b u j) e q)))
  same_step s i j ih (inr (t, x, e, at, p)) (inr (u, y, e', at', q)) =
      shorter s t x (best i j) e
        (ih t p (subst (λ w. Picks b w j) (sym (last_eq t u x y (sym e ∙ e')).0) q))

  other_step :
      (s : List A) (i j : ℕ)
      → same_at i j ≡ false
      → ((t : List A) → Picks a t i → Picks b t (suc j) → length t ≤ best i (suc j))
      → ((t : List A) → Picks a t (suc i) → Picks b t j → length t ≤ best (suc i) j)
      → Picks a s (suc i)
      → Picks b s (suc j)
      → length s ≤ max (best i (suc j)) (best (suc i) j)
  unfolding Picks
  other_step s i j is ih ih' (inl p) q = omega (arith, ih s p q)
  other_step s i j is ih ih' (inr p) (inl q) = omega (arith, ih' s (inr p) q)
  other_step s i j is ih ih' (inr (t, x, e, at, p)) (inr (u, y, e', at', q)) =
      let same : x ≡ y = (last_eq t u x y (sym e ∙ e')).1 in
      absurd (
        false≢true
          (sym is ∙ same_at-some i j x y at at' ∙ ap (E.same x) (sym same) ∙ E.same-refl x))

  -- No list that takes elements of both is longer.
  pub Picks-le-best : (s : List A) (i j : ℕ) → Picks a s i → Picks b s j → length s ≤ best i j
  unfolding Picks best
  Picks-le-best s zero j p q = rw p (omega arith)
  Picks-le-best s (suc i) zero p q = rw q (omega arith)
  Picks-le-best s (suc i) (suc j) p q = elim (Bool-cases (same_at i j)) [
    | inl is ↦ rw is (same_step s i j (λ t. Picks-le-best t i j) p q)
    | inr is ↦
        rw is (
          other_step s i j is (λ t. Picks-le-best t i (suc j)) (λ t. Picks-le-best t (suc i) j) p q)
  ]
