-- ===== src/Lcs/Members.antt =====
-- The members of lists of lists, and of what extend gives.
use mathlib.Core.List.{cons-ne-nil}
use go_pkgs.Common.{
  ℕ, ◌≡◌, ◌≢◌, refl, ap, ◌⊎◌, inl, inr, List, [], ◌∷◌, ◌++◌, map, some, arith, length, get_elem?,
}
use go_pkgs.Lcs.{extend}

module _ {ℓ} {A : Type ℓ} where
  -- Membership; nothing is in the empty list.
  unfoldable pub In : List A → List (List A) → Type ℓ
  In t [] = t ≢ t
  In t (r ∷ rs) = (t ≡ r) ⊎ In t rs

  pub In-append : (t : List A) (rs ss : List (List A)) → In t (rs ++ ss) → In t rs ⊎ In t ss
  unfolding In
  In-append t [] ss p = inr p
  In-append t (r ∷ rs) ss (inl e) = inl (inl e)
  In-append t (r ∷ rs) ss (inr p) = elim (In-append t rs ss p) [
    | inl q ↦ inl (inr q)
    | inr q ↦ inr q
  ]

  pub In-left : (t : List A) (rs ss : List (List A)) → In t rs → In t (rs ++ ss)
  unfolding In
  In-left t [] ss p = absurd (p refl)
  In-left t (r ∷ rs) ss (inl e) = inl e
  In-left t (r ∷ rs) ss (inr p) = inr (In-left t rs ss p)

  pub In-right : (t : List A) (rs ss : List (List A)) → In t ss → In t (rs ++ ss)
  unfolding In
  In-right t [] ss p = p
  In-right t (r ∷ rs) ss p = inr (In-right t rs ss p)

  In-map :
      (v : A) (t : List A) (rs : List (List A))
      → In t (map (λ q. q ++ v ∷ []) rs)
      → (s : List A) × (t ≡ s ++ v ∷ []) × In s rs
  unfolding In
  In-map v t [] p = absurd (p refl)
  In-map v t (r ∷ rs) (inl e) = (r, e, inl refl)
  In-map v t (r ∷ rs) (inr p) = let (s, e, q) = In-map v t rs p in (s, e, inr q)

  map-In :
      (v : A) (s : List A) (rs : List (List A))
      → In s rs
      → In (s ++ v ∷ []) (map (λ q. q ++ v ∷ []) rs)
  unfolding In
  map-In v s [] p = absurd (p refl)
  map-In v s (r ∷ rs) (inl e) = inl (ap (λ q. q ++ v ∷ []) e)
  map-In v s (r ∷ rs) (inr p) = inr (map-In v s rs p)

  pub empty_list : (s : List A) → length s ≡ 0 → s ≡ []
  empty_list [] h = refl
  empty_list (x ∷ s) h = absurd (omega (arith, h))

  -- What extend gives, for any `p` in it.
  pub extend-In :
      (a : List A) (i : ℕ) (v : A) (rs : List (List A))
      → get_elem? a i ≡ some v
      → (rs' : List (List A)) × (extend a i rs ≡ some rs')
        × ((t : List A)
            → In t rs'
            → (s : List A) × (t ≡ s ++ v ∷ []) × (In s rs ⊎ ((rs ≡ []) × (s ≡ []))))
        × ((s : List A) → In s rs → In (s ++ v ∷ []) rs')
        × (rs ≡ [] → In (v ∷ []) rs')
  unfolding extend In
  extend-In a i v [] at = (
    (v ∷ []) ∷ [],
    rw at refl,
    λ t p. elim p [ inl e ↦ ([], e, inr (refl, refl)) | inr q ↦ absurd (q refl) ],
    λ s p. absurd (p refl),
    λ e. inl refl,
  )
  extend-In a i v (r ∷ rs) at = (
    map (λ q. q ++ v ∷ []) (r ∷ rs),
    rw at refl,
    λ t p. (let (s, e, q) = In-map v t (r ∷ rs) p in (s, e, inl q)),
    λ s p. map-In v s (r ∷ rs) p,
    λ e. absurd (cons-ne-nil _ _ e),
  )
