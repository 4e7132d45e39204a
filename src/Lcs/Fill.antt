-- ===== src/Lcs/Fill.antt =====
-- fill computes the lengths of the longest common subsequences of all prefixes, and the way to them.
use native.Mathlib.Numerals.{sub-one}
use go_pkgs.Common.{
  ℕ, zero, suc, ◌+◌, ◌≤◌, ◌<◌, max, ◌≡◌, refl, ◌∙◌, inl, inr, Bool, true, false, List, [], ◌∷◌,
  some, arith, length, get_elem?, if◌then◌else◌,
}
use go_pkgs.Common.Equality.{Equality}
use go_pkgs.Common.Loop.{Gives, gives, Gives-map, Gives-exists, for-Gives}
use go_pkgs.Lcs.{Direction, diagonal, Dp, read, blank, choose, fill_cell, fill_row, fill, new}
use go_pkgs.Lcs.Best.{best, same_at, same_at-some}
use go_pkgs.Lcs.Grid.{
  IsFilled, IsDone, IsFilled-read, IsFilled-write, IsFilled-next, write-written, blank-IsGrid,
  at-blank,
}

get_elem?-some {ℓ} :
    {A : Type ℓ} (xs : List A) (i : ℕ) → i < length xs → (x : A) × (get_elem? xs i ≡ some x)
get_elem?-some [] i h = absurd (omega arith)
get_elem?-some (x ∷ xs) zero h = (x, refl)
get_elem?-some (x ∷ xs) (suc i) h = get_elem?-some xs i (omega arith)

choose-max : (l u : ℕ) → (choose l u).0 ≡ max l u
unfolding choose
choose-max l u = ground arith

module _ {ℓ} {A : Type ℓ} (E : Equality A) (a b : List A) where
  -- The way from a cell; the cells of the first column and row have the zero value.
  unfoldable pub way : ℕ → ℕ → Direction
  way zero j = diagonal
  way (suc i) zero = diagonal
  way (suc i) (suc j) =
      if same_at E a b i j
      then diagonal
      else (choose (best E a b i (suc j)) (best E a b (suc i) j)).1

  Inv : ℕ → ℕ → List (List ℕ) × List (List Direction) → Type 0
  Inv y k (t, ds) =
      IsFilled 0 (length a + 1) (length b + 1) (best E a b) y k t
      × IsFilled diagonal (length a + 1) (length b + 1) way y k ds

  -- What a round writes to a cell.
  cell-eq :
      (i j : ℕ) (u w : A)
      → get_elem? a i ≡ some u
      → get_elem? b j ≡ some w
      → (let r =
            if E.same u w
            then (best E a b i j + 1, diagonal)
            else choose (best E a b i (suc j)) (best E a b (suc i) j) in
          (r.0 ≡ best E a b (suc i) (suc j)) × (r.1 ≡ way (suc i) (suc j)))
  unfolding best way
  cell-eq i j u w at_u at_w = rw (same_at-some E a b i j u w at_u at_w) (go (E.same u w))
    where
      go :
          (t : Bool)
          → (let r =
                if t
                then (best E a b i j + 1, diagonal)
                else choose (best E a b i (suc j)) (best E a b (suc i) j) in
              (r.0 ≡ (
                if t
                then best E a b i j + 1
                else max (best E a b i (suc j)) (best E a b (suc i) j)))
              × (r.1 ≡ (
                  if t
                  then diagonal
                  else (choose (best E a b i (suc j)) (best E a b (suc i) j)).1)))
      go true = (refl, refl)
      go false = (choose-max (best E a b i (suc j)) (best E a b (suc i) j), refl)

  fill_cell-Inv :
      (i j : ℕ) (s : List (List ℕ) × List (List Direction))
      → i < length a
      → j < length b
      → Inv (suc j) (suc i) s
      → Gives (Inv (suc j) (suc (suc i))) (fill_cell E a b (suc j) (suc i) s)
  unfolding Inv fill_cell
  fill_cell-Inv i j (t, ds) hi hj (p, q) =
      let (u, at_u) = get_elem?-some a i hi in
      let (w, at_w) = get_elem?-some b j hj in
      let m = length a + 1 in
      let n = length b + 1 in
      let test = same_at-some E a b i j u w at_u at_w in
      simp
        (
          sub-one,
          at_u,
          at_w,
          IsFilled-read 0 m n (best E a b) (suc j) (suc i) t p i j (omega arith) (omega arith)
              (inr (inl (omega arith))),
          IsFilled-read 0 m n (best E a b) (suc j) (suc i) t p i (suc j) (omega arith) (omega arith)
              (inr (inr (refl, omega arith))),
          IsFilled-read 0 m n (best E a b) (suc j) (suc i) t p (suc i) j (omega arith) (omega arith)
              (inr (inl (omega arith))),
        )
        (rw
          (
            (cell-eq i j u w at_u at_w).0,
            (cell-eq i j u w at_u at_w).1,
            write-written 0 m n t p.grid (suc i) (suc j) (best E a b (suc i) (suc j)) (omega arith)
                (omega arith),
            write-written diagonal m n ds q.grid (suc i) (suc j) (way (suc i) (suc j)) (omega arith)
                (omega arith),
          )
          (gives (
            IsFilled-write 0 m n (best E a b) (suc j) (suc i) t p (omega arith) (omega arith),
            IsFilled-write diagonal m n way (suc j) (suc i) ds q (omega arith) (omega arith),
          )))

  fill_row-Inv :
      (j : ℕ) (s : List (List ℕ) × List (List Direction))
      → j < length b
      → Inv (suc j) 1 s
      → Gives (Inv (suc (suc j)) 1) (fill_row E a b (suc j) s)
  unfolding fill_row Inv
  fill_row-Inv j s hj inv =
      Gives-map
        (for-Gives (Inv (suc j)) (length a + 1) (fill_cell E a b (suc j)) (length a) 1 s
          (omega arith) cells inv)
        (λ s' end. (
          IsFilled-next 0 (length a + 1) (length b + 1) (best E a b) (suc j) s'.0 end.0,
          IsFilled-next diagonal (length a + 1) (length b + 1) way (suc j) s'.1 end.1,
        ))
    where
      cells :
          (k : ℕ) (t : List (List ℕ) × List (List Direction))
          → 1 ≤ k
          → k < length a + 1
          → Inv (suc j) k t
          → Gives (Inv (suc j) (suc k)) (fill_cell E a b (suc j) k t)
      cells zero t lo hi inv' = absurd (omega arith)
      cells (suc i) t lo hi inv' = fill_cell-Inv i j t (omega arith) hj inv'

  blank-Inv : Inv 1 1 (blank a b 0, blank a b diagonal)
  unfolding Inv blank best way
  blank-Inv = (
    record {
      grid = blank-IsGrid 0 (length a + 1) (length b + 1);
      cells = λ x y hx hy d. at-blank 0 (length a + 1) (length b + 1) x y hx ∙ zero_best x y d;
    },
    record {
      grid = blank-IsGrid diagonal (length a + 1) (length b + 1);
      cells =
          λ x y hx hy d. at-blank diagonal (length a + 1) (length b + 1) x y hx ∙ zero_way x y d;
    },
  )
    where
      zero_best : (x y : ℕ) → IsDone 1 1 x y → 0 ≡ best E a b x y
      zero_best zero y d = refl
      zero_best (suc x) zero d = refl
      zero_best (suc x) (suc y) d = absurd (omega arith)

      zero_way : (x y : ℕ) → IsDone 1 1 x y → diagonal ≡ way x y
      zero_way zero y d = refl
      zero_way (suc x) zero d = refl
      zero_way (suc x) (suc y) d = absurd (omega arith)

  -- A DP whose directions are the ways of all its cells.
  pub record IsSolved (dp : Dp A) : Type ℓ where
    pub left_eq : dp.a ≡ a
    pub right_eq : dp.b ≡ b
    pub read_way : (x y : ℕ) → x ≤ length a → y ≤ length b → read dp.directions x y ≡ some (way x y)

  pub fill-IsSolved : (dp : Dp A) × (fill E (new a b) ≡ some dp) × IsSolved dp
  unfolding fill new Inv blank
  fill-IsSolved =
      let (s, run, inv) = Gives-exists (
        for-Gives (λ y. Inv y 1) (length b + 1) (fill_row E a b) (length b) 1
          (blank a b 0, blank a b diagonal) (omega arith) rows blank-Inv) in
      (
        record { a = a; b = b; filled = true; directions = s.1 },
        rw run,
        record {
          left_eq = refl;
          right_eq = refl;
          read_way = λ x y hx hy.
              IsFilled-read diagonal (length a + 1) (length b + 1) way (length b + 1) 1 s.1 inv.1 x
                y (omega arith) (omega arith) (inr (inl (omega arith)));
        },
      )
    where
      rows :
          (k : ℕ) (t : List (List ℕ) × List (List Direction))
          → 1 ≤ k
          → k < length b + 1
          → Inv k 1 t
          → Gives (Inv (suc k) 1) (fill_row E a b k t)
      rows zero t lo hi inv' = absurd (omega arith)
      rows (suc j) t lo hi inv' = fill_row-Inv j t (omega arith) inv'
