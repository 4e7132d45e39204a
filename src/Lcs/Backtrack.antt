-- ===== src/Lcs/Backtrack.antt =====
-- DP.LCS is a longest common subsequence.
use mathlib.Core.Bool.{false≢true}
use go_pkgs.Common.{
  ℕ, zero, suc, ◌+◌, ◌-◌, ◌≤◌, ◌<◌, max, ◌≡◌, refl, sym, ap, ◌∙◌, ◌⊎◌, inl, inr, true, false,
  Bool-cases, List, [], ◌∷◌, ◌++◌, Option, none, some, arith, length, get_elem?, ltb, lt→ltb, ◌==◌,
  length-append, dec_lt,
}
use go_pkgs.Common.Equality.{Equality}
use go_pkgs.Lcs.{diagonal, up, left, up_and_left, Dp, choose, new, backtrack, lcs}
use go_pkgs.Lcs.Best.{Picks, best, same_at, same_elements, Picks-le-best}
use go_pkgs.Lcs.Fill.{way, IsSolved, fill-IsSolved}

pub not_zero : (i : ℕ) → (suc i == 0) ≡ false
not_zero i = ground arith

pub less_one : (i : ℕ) → suc i - 1 ≡ i
less_one i = omega arith

pub not_ltb : (m n : ℕ) → n ≤ m → ltb m n ≡ false
not_ltb m n h = ground arith

choose-cases :
    (l u : ℕ)
    → ((((choose l u).1 ≡ up) ⊎ ((choose l u).1 ≡ up_and_left)) × (max l u ≡ u))
      ⊎ (((choose l u).1 ≡ left) × (max l u ≡ l))
unfolding choose
choose-cases l u = elim (dec_lt l u) [
  | yes lt ↦ inl (inl (rw (lt→ltb l u lt)), omega arith)
  | no ge ↦ elim (dec_lt u l) [
    | yes gt ↦ inr (rw (not_ltb l u (omega arith), lt→ltb u l gt), omega arith)
    | no eq ↦ inl (inr (rw (not_ltb l u (omega arith), not_ltb u l (omega arith))), omega arith)
  ]
]

pub nothing {ℓ} : {A : Type ℓ} (xs : List A) (i : ℕ) → Picks xs [] i
unfolding Picks
nothing xs zero = refl
nothing xs (suc i) = inl (nothing xs i)

module _ {ℓ} {A : Type ℓ} (E : Equality A) (a b : List A) where
  same-elements :
      (p q : Option A) → same_elements E p q ≡ true → (x : A) × (p ≡ some x) × (q ≡ some x)
  unfolding same_elements
  same-elements (some x) (some y) h = (x, refl, ap some (sym (E.same→eq x y h)))
  same-elements none q h = absurd (false≢true h)
  same-elements (some x) none h = absurd (false≢true h)

  pub same_at-true :
      (i j : ℕ)
      → same_at E a b i j ≡ true
      → (x : A) × (get_elem? a i ≡ some x) × (get_elem? b j ≡ some x)
  unfolding same_at
  same_at-true i j h = same-elements (get_elem? a i) (get_elem? b j) h

  -- What each way says of the lengths.
  pub way-cases :
      (i j : ℕ)
      → ((way E a b (suc i) (suc j) ≡ diagonal)
          × (same_at E a b i j ≡ true)
          × (best E a b (suc i) (suc j) ≡ best E a b i j + 1))
        ⊎ (((way E a b (suc i) (suc j) ≡ up) ⊎ (way E a b (suc i) (suc j) ≡ up_and_left))
            × (best E a b (suc i) (suc j) ≡ best E a b (suc i) j))
        ⊎ ((way E a b (suc i) (suc j) ≡ left) × (best E a b (suc i) (suc j) ≡ best E a b i (suc j)))
  unfolding way best
  way-cases i j = elim (Bool-cases (same_at E a b i j)) [
    | inl is ↦ inl (rw is refl, is, rw is refl)
    | inr is ↦ rw is (inr (choose-cases (best E a b i (suc j)) (best E a b (suc i) j)))
  ]

  module _ (dp : Dp A) (s : IsSolved E a b dp) where
    -- A common subsequence of the first `i` and `j` elements, as long as any.
    abbrev IsLcs : ℕ → ℕ → List A → Type ℓ
    IsLcs i j r = Picks a r i × Picks b r j × (length r ≡ best E a b i j)

    pub backtrack-IsLcs :
        (fuel i j : ℕ)
        → i + j < fuel
        → i ≤ length a
        → j ≤ length b
        → (r : List A) × (backtrack fuel dp i j ≡ some r) × IsLcs i j r
    unfolding backtrack Picks best
    backtrack-IsLcs zero i j lt hi hj = absurd (omega arith)
    backtrack-IsLcs (suc fuel) zero j lt hi hj = ([], refl, (refl, nothing b j, refl))
    backtrack-IsLcs (suc fuel) (suc i) zero lt hi hj =
        ([], rw (not_zero i, backtrack), (nothing a (suc i), refl, refl))
    backtrack-IsLcs (suc fuel) (suc i) (suc j) lt hi hj = elim (way-cases i j) [
      | inl (w, same, more) ↦
          let (r, run, (p, q, len)) =
            backtrack-IsLcs fuel i j (omega arith) (omega arith) (omega arith) in
          let (x, at_a, at_b) = same_at-true i j same in
          (
            r ++ x ∷ [],
            rw (
              not_zero i,
              backtrack,
              not_zero j,
              s.read_way (suc i) (suc j) hi hj,
              w,
              less_one i,
              less_one j,
              run,
              s.left_eq,
              at_a,
            ),
            (
              inr (r, x, refl, at_a, p),
              inr (r, x, refl, at_b, q),
              omega (arith, length-append r (x ∷ []), more),
            ),
          )
      | inr (inl (inl w, same_best)) ↦
          let (r, run, (p, q, len)) =
            backtrack-IsLcs fuel (suc i) j (omega arith) hi (omega arith) in
          (
            r,
            rw (not_zero i, backtrack, not_zero j, s.read_way (suc i) (suc j) hi hj, w, less_one j)
                run,
            (p, inl q, len ∙ sym same_best),
          )
      | inr (inl (inr w, same_best)) ↦
          let (r, run, (p, q, len)) =
            backtrack-IsLcs fuel (suc i) j (omega arith) hi (omega arith) in
          (
            r,
            rw (not_zero i, backtrack, not_zero j, s.read_way (suc i) (suc j) hi hj, w, less_one j)
                run,
            (p, inl q, len ∙ sym same_best),
          )
      | inr (inr (w, same_best)) ↦
          let (r, run, (p, q, len)) =
            backtrack-IsLcs fuel i (suc j) (omega arith) (omega arith) hj in
          (
            r,
            rw (not_zero i, backtrack, not_zero j, s.read_way (suc i) (suc j) hi hj, w, less_one i)
                run,
            (inl p, q, len ∙ sym same_best),
          )
    ]

  lcs-IsLcs :
      (r : List A) × (lcs E (new a b) ≡ some r)
      × Picks a r (length a)
      × Picks b r (length b)
      × (length r ≡ best E a b (length a) (length b))
  unfolding lcs
  lcs-IsLcs =
      let (dp, run, s) = fill-IsSolved E a b in
      let (r, found, (p, q, len)) =
        backtrack-IsLcs dp s (suc (length a + length b)) (length a) (length b) (omega arith)
          (omega arith) (omega arith) in
      (r, rw (run, s.left_eq, s.right_eq) found, p, q, len)

  pub lcs-best :
      (r : List A) × (lcs E (new a b) ≡ some r) × (length r ≡ best E a b (length a) (length b))
  lcs-best = let (r, run, p, q, len) = lcs-IsLcs in (r, run, len)

  -- LCS of a new DP never panics, and ends. It returns a list that takes elements of `a`, in order, and of
  -- `b`, and no list that does is longer.
  pub lcs_lem :
      (r : List A) × (lcs E (new a b) ≡ some r)
      × Picks a r (length a)
      × Picks b r (length b)
      × ((t : List A) → Picks a t (length a) → Picks b t (length b) → length t ≤ length r)
  lcs_lem =
      let (r, run, p, q, len) = lcs-IsLcs in
      (r, run, p, q, λ t pt qt. omega (arith, Picks-le-best E a b t (length a) (length b) pt qt))
