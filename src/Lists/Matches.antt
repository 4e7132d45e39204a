-- ===== src/Lists/Matches.antt =====
-- The first and the last entry whose element matches.
use mathlib.Core.Bool.{false≢true}
use go_pkgs.Common.{
  ℕ, ◌≡◌, refl, sym, ap, Bool, true, false, inl, inr, List, [], ◌∷◌, ◌++◌, map, ◌||◌, Bool-cases,
  if◌then◌else◌,
}
use go_pkgs.Lists.Entries.{element}

module _ {ℓ} {A : Type ℓ} (m : A → Bool) where
  unfoldable pub any : List A → Bool
  any [] = false
  any (x ∷ xs) = m x || any xs

  pub any-false : (x : A) (xs : List A) → any (x ∷ xs) ≡ false → (m x ≡ false) × (any xs ≡ false)
  unfolding any
  any-false x xs h = elim (Bool-cases (m x)) [
    | inl hit ↦ absurd (false≢true (sym (rw hit at h)))
    | inr miss ↦ (miss, rw miss at h)
  ]

  -- The entries without the first whose element matches.
  unfoldable pub without_first : List (ℕ × A) → List (ℕ × A)
  without_first [] = []
  without_first (e ∷ es) = if m e.1 then es else e ∷ without_first es

  -- The entries without the last whose element matches.
  unfoldable pub without_last : List (ℕ × A) → List (ℕ × A)
  without_last [] = []
  without_last (e ∷ es) =
      if any (map element es) then e ∷ without_last es else if m e.1 then es else e ∷ es

  pub cut_first :
      (es : List (ℕ × A))
      → any (map element es) ≡ true
      → (pre : List (ℕ × A)) × (i : ℕ) × (u : A) × (post : List (ℕ × A)) × (es
          ≡ pre ++ (i, u) ∷ post)
        × (m u ≡ true)
        × (any (map element pre) ≡ false)
        × (without_first es ≡ pre ++ post)
  unfolding any without_first element
  cut_first [] h = absurd (false≢true h)
  cut_first ((i, u) ∷ es) h = elim (Bool-cases (m u)) [
    | inl hit ↦ ([], i, u, es, refl, hit, refl, rw hit refl)
    | inr miss ↦
        let (pre, j, w, post, e, hit, misses, rest) = cut_first es (rw miss at h) in
        (
          (i, u) ∷ pre,
          j,
          w,
          post,
          ap (λ t. (i, u) ∷ t) e,
          hit,
          rw miss misses,
          rw miss (ap (λ t. (i, u) ∷ t) rest),
        )
  ]

  pub cut_last :
      (es : List (ℕ × A))
      → any (map element es) ≡ true
      → (pre : List (ℕ × A)) × (i : ℕ) × (u : A) × (post : List (ℕ × A)) × (es
          ≡ pre ++ (i, u) ∷ post)
        × (m u ≡ true)
        × (any (map element post) ≡ false)
        × (without_last es ≡ pre ++ post)
  unfolding any without_last element
  cut_last [] h = absurd (false≢true h)
  cut_last ((i, u) ∷ es) h = elim (Bool-cases (any (map element es))) [
    | inl later ↦
        let (pre, j, w, post, e, hit, misses, rest) = cut_last es later in
        (
          (i, u) ∷ pre,
          j,
          w,
          post,
          ap (λ t. (i, u) ∷ t) e,
          hit,
          misses,
          rw later (ap (λ t. (i, u) ∷ t) rest),
        )
    | inr none_later ↦ elim (Bool-cases (m u)) [
      | inl hit ↦ ([], i, u, es, refl, hit, none_later, rw (none_later, hit) refl)
      | inr miss ↦ absurd (false≢true (rw (miss, none_later) at h))
    ]
  ]
