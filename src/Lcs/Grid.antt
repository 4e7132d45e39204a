-- ===== src/Lcs/Grid.antt =====
-- Tables of columns, and the part of one that a loop has filled.
use go_pkgs.Common.{
  ℕ, zero, suc, ◌<◌, ◌≡◌, ◌≢◌, refl, sym, ap, ap₂, ◌∙◌, ◌⊎◌, inl, inr, List, [], some, arith,
  length, get_or, set, replicate, get_elem?-eq-get_or, get_or-set_self, get_or-set_ne, length-set,
  length-replicate, get_or-replicate, store-eq_of_lt, ℕ_discrete,
}
use go_pkgs.Lcs.{read, write}

get_or-replicate_lt {ℓ} : {A : Type ℓ} (n i : ℕ) (v d : A) → i < n → get_or (replicate n v) i d ≡ v
get_or-replicate_lt zero i v d h = absurd (omega arith)
get_or-replicate_lt (suc n) zero v d h = refl
get_or-replicate_lt (suc n) (suc i) v d h = get_or-replicate_lt n i v d (omega arith)

module _ {ℓ} {V : Type ℓ} (d : V) where
  abbrev pub at : List (List V) → ℕ → ℕ → V
  at t x y = get_or (get_or t x []) y d

  -- `m` columns of `n` cells.
  pub record IsGrid (m n : ℕ) (t : List (List V)) : Type ℓ where
    pub width : length t ≡ m
    pub height : (x : ℕ) → x < m → length (get_or t x []) ≡ n

  pub read-at :
      (m n : ℕ) (t : List (List V))
      → IsGrid m n t
      → (x y : ℕ) → x < m
      → y < n
      → read t x y ≡ some (at t x y)
  unfolding read
  read-at m n t g x y hx hy =
      let w : length t ≡ m = g.width in
      let h : length (get_or t x []) ≡ n = g.height x hx in
      rw (get_elem?-eq-get_or t x [] (omega arith))
        (get_elem?-eq-get_or (get_or t x []) y d (omega arith))

  -- The table after `t[x][y] = v`.
  pub written : List (List V) → ℕ → ℕ → V → List (List V)
  written t x y v = set t x (set (get_or t x []) y v)

  pub write-written :
      (m n : ℕ) (t : List (List V))
      → IsGrid m n t
      → (x y : ℕ) (v : V) → x < m
      → y < n
      → write t x y v ≡ some (written t x y v)
  unfolding write written
  write-written m n t g x y v hx hy =
      let w : length t ≡ m = g.width in
      let h : length (get_or t x []) ≡ n = g.height x hx in
      rw
        (get_elem?-eq-get_or t x [] (omega arith), store-eq_of_lt (get_or t x []) y v (omega arith))
        (store-eq_of_lt t x (set (get_or t x []) y v) (omega arith))

  pub written-IsGrid :
      (m n : ℕ) (t : List (List V))
      → IsGrid m n t
      → (x y : ℕ) (v : V) → x < m
      → IsGrid m n (written t x y v)
  unfolding written
  written-IsGrid m n t g x y v hx = record {
    width = length-set t x (set (get_or t x []) y v) ∙ g.width;
    height = λ x' h. elim (ℕ_discrete x x') [
      | yes e ↦ rw⁻¹ e (
          ap length (get_or-set_self t x (set (get_or t x []) y v) [] (omega (arith, g.width)))
          ∙ length-set (get_or t x []) y v
          ∙ g.height x hx)
      | no ne ↦ ap length (get_or-set_ne t x x' (set (get_or t x []) y v) [] ne) ∙ g.height x' h
    ];
  }

  pub at-written_self :
      (m n : ℕ) (t : List (List V))
      → IsGrid m n t
      → (x y : ℕ) (v : V) → x < m
      → y < n
      → at (written t x y v) x y ≡ v
  unfolding written
  at-written_self m n t g x y v hx hy =
      ap (λ c. get_or c y d)
        (get_or-set_self t x (set (get_or t x []) y v) [] (omega (arith, g.width)))
      ∙ get_or-set_self (get_or t x []) y v d (omega (arith, g.height x hx))

  pub at-written_ne :
      (m n : ℕ) (t : List (List V))
      → IsGrid m n t
      → (x y : ℕ) (v : V) (x' y' : ℕ) → x < m
      → (x ≢ x') ⊎ (y ≢ y')
      → at (written t x y v) x' y' ≡ at t x' y'
  unfolding written
  at-written_ne m n t g x y v x' y' hx (inl ne) =
      ap (λ c. get_or c y' d) (get_or-set_ne t x x' (set (get_or t x []) y v) [] ne)
  at-written_ne m n t g x y v x' y' hx (inr ne) = elim (ℕ_discrete x x') [
    | no nx ↦ ap (λ c. get_or c y' d) (get_or-set_ne t x x' (set (get_or t x []) y v) [] nx)
    | yes e ↦ rw⁻¹ e (
        ap (λ c. get_or c y' d)
          (get_or-set_self t x (set (get_or t x []) y v) [] (omega (arith, g.width)))
        ∙ get_or-set_ne (get_or t x []) y y' v d ne)
  ]

  pub blank-IsGrid : (m n : ℕ) → IsGrid m n (replicate m (replicate n d))
  blank-IsGrid m n = record {
    width = length-replicate m (replicate n d);
    height = λ x h. ap length (get_or-replicate_lt m x (replicate n d) [] h) ∙ length-replicate n d;
  }

  pub at-blank : (m n x y : ℕ) → x < m → at (replicate m (replicate n d)) x y ≡ d
  at-blank m n x y h =
      ap (λ c. get_or c y d) (get_or-replicate_lt m x (replicate n d) [] h) ∙ get_or-replicate n y d

-- The cells that hold their value when column `k` of row `y` is next; the first column and row do so
-- from the start.
abbrev pub IsDone : ℕ → ℕ → ℕ → ℕ → Type 0
IsDone k y x' y' = (x' ≡ 0) ⊎ ((y' < y) ⊎ ((y' ≡ y) × (x' < k)))

module _ {ℓ} {V : Type ℓ} (d : V) (m n : ℕ) (f : ℕ → ℕ → V) where
  pub record IsFilled (y k : ℕ) (t : List (List V)) : Type ℓ where
    pub grid : IsGrid d m n t
    pub cells : (x' y' : ℕ) → x' < m → y' < n → IsDone k y x' y' → at d t x' y' ≡ f x' y'

  pub IsFilled-read :
      (y k : ℕ) (t : List (List V))
      → IsFilled y k t
      → (x' y' : ℕ) → x' < m
      → y' < n
      → IsDone k y x' y'
      → read t x' y' ≡ some (f x' y')
  IsFilled-read y k t p x' y' hx hy done =
      read-at d m n t p.grid x' y' hx hy ∙ ap some (p.cells x' y' hx hy done)

  pub IsFilled-write :
      (y k : ℕ) (t : List (List V))
      → IsFilled y k t
      → k < m
      → y < n
      → IsFilled y (suc k) (written d t k y (f k y))
  IsFilled-write y k t p hk hy = record {
    grid = written-IsGrid d m n t p.grid k y (f k y) hk;
    cells = λ x' y' hx hy' done. elim (ℕ_discrete k x') [
      | no nx ↦
          at-written_ne d m n t p.grid k y (f k y) x' y' hk (inl nx)
          ∙ p.cells x' y' hx hy' (before x' y' done (inl nx))
      | yes ex ↦ elim (ℕ_discrete y y') [
        | no ny ↦
            at-written_ne d m n t p.grid k y (f k y) x' y' hk (inr ny)
            ∙ p.cells x' y' hx hy' (before x' y' done (inr ny))
        | yes ey ↦
            ap₂ (at d (written d t k y (f k y))) (sym ex) (sym ey)
            ∙ at-written_self d m n t p.grid k y (f k y) hk hy
            ∙ ap₂ f ex ey
      ]
    ];
  }
    where
      before : (x' y' : ℕ) → IsDone (suc k) y x' y' → (k ≢ x') ⊎ (y ≢ y') → IsDone k y x' y'
      before x' y' (inl z) ne = inl z
      before x' y' (inr (inl lt)) ne = inr (inl lt)
      before x' y' (inr (inr (e, lt))) (inl nx) = inr (inr (e, omega arith))
      before x' y' (inr (inr (e, lt))) (inr ny) = absurd (ny (sym e))

  -- After the last column, the next row.
  pub IsFilled-next : (y : ℕ) (t : List (List V)) → IsFilled y m t → IsFilled (suc y) 1 t
  IsFilled-next y t p = record {
    grid = p.grid;
    cells = λ x' y' hx hy done. p.cells x' y' hx hy (earlier x' y' hx done);
  }
    where
      earlier : (x' y' : ℕ) → x' < m → IsDone 1 (suc y) x' y' → IsDone m y x' y'
      earlier x' y' hx (inl z) = inl z
      earlier x' y' hx (inr (inl lt)) = elim (ℕ_discrete y' y) [
        | yes e ↦ inr (inr (e, hx))
        | no ne ↦ inr (inl (omega arith))
      ]
      earlier x' y' hx (inr (inr (e, lt))) = inl (omega arith)
