-- ===== src/Lcs/Ends.antt =====
-- What the last elements of two lists say of their longest common subsequences.
use mathlib.Core.Bool.{false≢true}
use mathlib.Core.Option.{some-injective}
use go_pkgs.Common.{
  ℕ, suc, ◌+◌, ◌≤◌, ◌<◌, max, ◌≡◌, refl, sym, ap, ◌∙◌, ◌⊎◌, inl, inr, true, false, List, [], ◌∷◌,
  ◌++◌, some, arith, length, get_elem?, lt→ltb, length-append, subst, dec_lt,
}
use go_pkgs.Common.Equality.{Equality}
use go_pkgs.Lcs.{diagonal, up, left, up_and_left, choose}
use go_pkgs.Lcs.Members.{In, In-append, In-left, In-right}
use go_pkgs.Lcs.Best.{Picks, Picks-front, Picks-le-best, last_eq, best, same_at, same_at-some}
use go_pkgs.Lcs.Fill.{way}
use go_pkgs.Lcs.Backtrack.{not_ltb}

choose_sides :
    (l u : ℕ)
    → (((choose l u).1 ≡ up) × (max l u ≡ u) × (l < u))
      ⊎ (((choose l u).1 ≡ left) × (max l u ≡ l) × (u < l))
      ⊎ (((choose l u).1 ≡ up_and_left) × (max l u ≡ u) × (max l u ≡ l))
unfolding choose
choose_sides l u = elim (dec_lt l u) [
  | yes lt ↦ inl (rw (lt→ltb l u lt) refl, omega arith, lt)
  | no ge ↦ elim (dec_lt u l) [
    | yes gt ↦ inr (inl (rw (not_ltb l u (omega arith), lt→ltb u l gt) refl, omega arith, gt))
    | no eq ↦ inr (
        inr (
          rw (not_ltb l u (omega arith), not_ltb u l (omega arith)) refl,
          omega arith,
          omega arith,
        ))
  ]
]

shorter {ℓ} :
    {A : Type ℓ} (t s : List A) (v : A) (n : ℕ) → t ≡ s ++ v ∷ [] → length t ≡ n + 1 → length s ≡ n
shorter t s v n e len = omega (arith, len, ap length e, length-append s (v ∷ []))

module _ {ℓ} {A : Type ℓ} (E : Equality A) (a b : List A) where
  abbrev IsBest : ℕ → ℕ → List A → Type ℓ
  IsBest i j t = Picks a t i × Picks b t j × (length t ≡ best E a b i j)

  -- The longest common subsequences of the first `i` and `j` elements, without the empty one.
  abbrev pub IsAll : ℕ → ℕ → List (List A) → Type ℓ
  IsAll i j rs =
      ((t : List A) → In t rs → IsBest i j t × (1 ≤ length t))
      × ((t : List A) → IsBest i j t → 1 ≤ length t → In t rs)

  -- What the ends of the two lists say of a longest common subsequence.
  pub best_diagonal :
      (i j : ℕ) (v : A) (t : List A)
      → get_elem? a i ≡ some v
      → get_elem? b j ≡ some v
      → best E a b (suc i) (suc j) ≡ best E a b i j + 1
      → IsBest (suc i) (suc j) t
      → (s : List A) × (t ≡ s ++ v ∷ []) × IsBest i j s
  unfolding Picks
  best_diagonal i j v t at_a at_b more (inl p, inl q, len) =
      absurd (omega (arith, Picks-le-best E a b t i j p q, len, more))
  best_diagonal i j v t at_a at_b more (inl p, inr (s, y, e, at, q), len) =
      let same : y ≡ v = some-injective _ _ (sym at ∙ at_b) in
      let e' : t ≡ s ++ v ∷ [] = e ∙ ap (λ z. s ++ z ∷ []) same in
      (
        s,
        e',
        (
          Picks-front a s y i (subst (λ z. Picks a z i) e p),
          q,
          shorter t s v (best E a b i j) e' (len ∙ more),
        ),
      )
  best_diagonal i j v t at_a at_b more (inr (s, x, e, at, p), inl q, len) =
      let same : x ≡ v = some-injective _ _ (sym at ∙ at_a) in
      let e' : t ≡ s ++ v ∷ [] = e ∙ ap (λ z. s ++ z ∷ []) same in
      (
        s,
        e',
        (
          p,
          Picks-front b s x j (subst (λ z. Picks b z j) e q),
          shorter t s v (best E a b i j) e' (len ∙ more),
        ),
      )
  best_diagonal i j v t at_a at_b more (inr (s, x, e, at, p), inr (u, y, e', at', q), len) =
      let same : x ≡ v = some-injective _ _ (sym at ∙ at_a) in
      let e'' : t ≡ s ++ v ∷ [] = e ∙ ap (λ z. s ++ z ∷ []) same in
      let front : s ≡ u = (last_eq s u x y (sym e ∙ e')).0 in
      (
        s,
        e'',
        (
          p,
          subst (λ z. Picks b z j) (sym front) q,
          shorter t s v (best E a b i j) e'' (len ∙ more),
        ),
      )

  -- Where the ends differ, it does without one of them.
  best_other :
      (i j : ℕ) (t : List A)
      → same_at E a b i j ≡ false
      → Picks a t (suc i)
      → Picks b t (suc j)
      → Picks a t i ⊎ Picks b t j
  unfolding Picks
  best_other i j t differ (inl p) q = inl p
  best_other i j t differ (inr p) (inl q) = inr q
  best_other i j t differ (inr (s, x, e, at, p)) (inr (u, y, e', at', q)) =
      let same : x ≡ y = (last_eq s u x y (sym e ∙ e')).1 in
      absurd (
        false≢true (
          sym differ
          ∙ same_at-some E a b i j x y at at'
          ∙ ap (E.same x) (sym same)
          ∙ E.same-refl x))

  -- The way of unequal ends, and what it says of the lengths on the two sides.
  pub sides :
      (i j : ℕ)
      → same_at E a b i j ≡ false
      → ((way E a b (suc i) (suc j) ≡ up)
          × (best E a b (suc i) (suc j) ≡ best E a b (suc i) j)
          × (best E a b i (suc j) < best E a b (suc i) j))
        ⊎ ((way E a b (suc i) (suc j) ≡ left)
            × (best E a b (suc i) (suc j) ≡ best E a b i (suc j))
            × (best E a b (suc i) j < best E a b i (suc j)))
        ⊎ ((way E a b (suc i) (suc j) ≡ up_and_left)
            × (best E a b (suc i) (suc j) ≡ best E a b (suc i) j)
            × (best E a b (suc i) (suc j) ≡ best E a b i (suc j)))
  unfolding way best
  sides i j differ = rw differ (choose_sides (best E a b i (suc j)) (best E a b (suc i) j))

  pub diagonal_way :
      (i j : ℕ)
      → same_at E a b i j ≡ true
      → (way E a b (suc i) (suc j) ≡ diagonal) × (best E a b (suc i) (suc j) ≡ best E a b i j + 1)
  unfolding way best
  diagonal_way i j is = (rw is refl, rw is refl)

  pub longer-IsBest :
      (i j : ℕ) (x : A) (t u : List A)
      → get_elem? a i ≡ some x
      → get_elem? b j ≡ some x
      → best E a b (suc i) (suc j) ≡ best E a b i j + 1
      → t ≡ u ++ x ∷ []
      → IsBest i j u
      → IsBest (suc i) (suc j) t × (1 ≤ length t)
  unfolding Picks
  longer-IsBest i j x t u at_a at_b more e (p, q, len) = (
    (
      inr (u, x, e, at_a, p),
      inr (u, x, e, at_b, q),
      omega (arith, ap length e, length-append u (x ∷ []), len, more),
    ),
    omega (arith, ap length e, length-append u (x ∷ [])),
  )

  -- The ways of unequal ends.
  pub up-IsAll :
      (i j : ℕ) (rs : List (List A))
      → same_at E a b i j ≡ false
      → best E a b (suc i) (suc j) ≡ best E a b (suc i) j
      → best E a b i (suc j) < best E a b (suc i) j
      → IsAll (suc i) j rs
      → IsAll (suc i) (suc j) rs
  unfolding Picks
  up-IsAll i j rs differ eq less (sound, complete) = (
    λ t m. (let ((p, q, len), h) = sound t m in ((p, inl q, len ∙ sym eq), h)),
    λ t (p, q, len) h. elim (best_other i j t differ p q) [
      | inl p' ↦ absurd (omega (arith, Picks-le-best E a b t i (suc j) p' q, len, eq, less))
      | inr q' ↦ complete t (p, q', len ∙ eq) h
    ],
  )

  pub left-IsAll :
      (i j : ℕ) (rs : List (List A))
      → same_at E a b i j ≡ false
      → best E a b (suc i) (suc j) ≡ best E a b i (suc j)
      → best E a b (suc i) j < best E a b i (suc j)
      → IsAll i (suc j) rs
      → IsAll (suc i) (suc j) rs
  unfolding Picks
  left-IsAll i j rs differ eq less (sound, complete) = (
    λ t m. (let ((p, q, len), h) = sound t m in ((inl p, q, len ∙ sym eq), h)),
    λ t (p, q, len) h. elim (best_other i j t differ p q) [
      | inl p' ↦ complete t (p', q, len ∙ eq) h
      | inr q' ↦ absurd (omega (arith, Picks-le-best E a b t (suc i) j p q', len, eq, less))
    ],
  )

  pub both-IsAll :
      (i j : ℕ) (rs rs' : List (List A))
      → same_at E a b i j ≡ false
      → best E a b (suc i) (suc j) ≡ best E a b (suc i) j
      → best E a b (suc i) (suc j) ≡ best E a b i (suc j)
      → IsAll (suc i) j rs
      → IsAll i (suc j) rs'
      → IsAll (suc i) (suc j) (rs ++ rs')
  unfolding Picks
  both-IsAll i j rs rs' differ eq eq' (sound, complete) (sound', complete') = (
    λ t m. elim (In-append t rs rs' m) [
      | inl m ↦ let ((p, q, len), h) = sound t m in ((p, inl q, len ∙ sym eq), h)
      | inr m ↦ let ((p, q, len), h) = sound' t m in ((inl p, q, len ∙ sym eq'), h)
    ],
    λ t (p, q, len) h. elim (best_other i j t differ p q) [
      | inl p' ↦ In-right t rs rs' (complete' t (p', q, len ∙ eq') h)
      | inr q' ↦ In-left t rs rs' (complete t (p, q', len ∙ eq) h)
    ],
  )

  pub empty-IsAll : (i j : ℕ) (rs : List (List A)) → IsAll i j rs → best E a b i j ≡ 0 → rs ≡ []
  unfolding In
  empty-IsAll i j [] all e = refl
  empty-IsAll i j (r ∷ rs) (sound, complete) e =
      let ((p, q, len), h) = sound r (inl refl) in absurd (omega (arith, len, h, e))
