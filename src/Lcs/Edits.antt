-- ===== src/Lcs/Edits.antt =====
-- Edit scripts that grow by an edit at their end, and what Apply and Reverse make of them.
use mathlib.Core.Option.{some-ne-none, some-injective}
use mathlib.Core.List.{append-nil, append_assoc}
use go_pkgs.Common.{
  ℕ, zero, suc, ◌+◌, ◌<◌, ◌≡◌, refl, sym, ap, ◌∙◌, inl, inr, List, [], ◌∷◌, ◌++◌, some, arith,
  length, get_elem?, take, length-append, Option-cases,
}
use go_pkgs.Lcs.{
  EditOp, insert, delete, identical, Edit, apply_edit, apply_edits, reverse_edit, reverse,
}

abbrev pub is_kept : EditOp → ℕ
is_kept identical = 1
is_kept _ = 0

module _ {ℓ} {A : Type ℓ} where
  take_next :
      (xs : List A) (i : ℕ) (x : A)
      → get_elem? xs i ≡ some x
      → take i xs ++ x ∷ [] ≡ take (suc i) xs
  take_next [] i x h = absurd (some-ne-none _ (sym h))
  take_next (y ∷ xs) zero x h = ap (λ z. z ∷ []) (sym (some-injective _ _ h))
  take_next (y ∷ xs) (suc i) x h = ap (λ t. y ∷ t) (take_next xs i x h)

  pub take_all : (xs : List A) → take (length xs) xs ≡ xs
  take_all [] = refl
  take_all (x ∷ xs) = ap (λ t. x ∷ t) (take_all xs)

  pub elem : (xs : List A) (i : ℕ) → i < length xs → (x : A) × (get_elem? xs i ≡ some x)
  elem [] i h = absurd (omega arith)
  elem (x ∷ xs) zero h = (x, refl)
  elem (x ∷ xs) (suc i) h = elem xs i (omega arith)

  apply_edits-append :
      (es : List (Edit A)) (e : Edit A) (a s t : List A)
      → apply_edits es a ≡ some s
      → apply_edit a e ≡ some t
      → apply_edits (es ++ e ∷ []) a ≡ some (s ++ t)
  unfolding apply_edits
  apply_edits-append [] e a s t h h' =
      rw h' (ap some (append-nil t ∙ ap (λ w. w ++ t) (some-injective _ _ h)))
  apply_edits-append (d ∷ es) e a s t h h' = elim (Option-cases (apply_edit a d)) [
    | inl fails ↦ absurd (some-ne-none _ (sym h ∙ rw fails refl))
    | inr (u, adds) ↦ elim (Option-cases (apply_edits es a)) [
      | inl fails ↦ absurd (some-ne-none _ (sym h ∙ rw (adds, fails) refl))
      | inr (v, run) ↦
          let same : s ≡ u ++ v = some-injective _ _ (sym h ∙ rw (adds, run) refl) in
          rw (adds, apply_edits-append es e a v t run h', same) (ap some (sym (append_assoc u v t)))
    ]
  ]

  reverse-append :
      (es : List (Edit A)) (e : Edit A) → reverse (es ++ e ∷ []) ≡ reverse es ++ reverse_edit e ∷ []
  unfolding reverse
  reverse-append [] e = refl
  reverse-append (d ∷ es) e = ap (λ t. reverse_edit d ∷ t) (reverse-append es e)

  -- The elements that a script keeps.
  unfoldable pub kept : List (Edit A) → ℕ
  kept [] = 0
  kept (e ∷ es) = is_kept e.op + kept es

  kept-append : (es : List (Edit A)) (e : Edit A) → kept (es ++ e ∷ []) ≡ kept es + is_kept e.op
  unfolding kept
  kept-append [] e = omega arith
  kept-append (d ∷ es) e = omega (arith, kept-append es e)

  -- A script that makes `q` of `p`, whose reverse makes `p` of `q`, and that keeps `n` elements.
  pub record IsScript (a b p q : List A) (n : ℕ) (es : List (Edit A)) : Type ℓ where
    pub forward : apply_edits es a ≡ some q
    pub backward : apply_edits (reverse es) b ≡ some p
    pub kept_eq : kept es ≡ n
    pub changes_eq : length es + n ≡ length p + length q

  -- An edit more at the end.
  IsScript-append :
      (a b p q : List A) (n m : ℕ) (es : List (Edit A)) (e : Edit A) (s t p' q' : List A)
      → IsScript a b p q n es
      → apply_edit a e ≡ some t
      → apply_edit b (reverse_edit e) ≡ some s
      → p ++ s ≡ p'
      → q ++ t ≡ q'
      → length s + length t ≡ 1 + is_kept e.op
      → n + is_kept e.op ≡ m
      → IsScript a b p' q' m (es ++ e ∷ [])
  IsScript-append a b p q n m es e s t p' q' h fwd bwd ep eq len more = record {
    forward = apply_edits-append es e a q t h.forward fwd ∙ ap some eq;
    backward =
        rw (reverse-append es e)
          (apply_edits-append (reverse es) (reverse_edit e) b p s h.backward bwd ∙ ap some ep);
    kept_eq = kept-append es e ∙ ap (λ k. k + is_kept e.op) h.kept_eq ∙ more;
    changes_eq = omega (
      arith,
      length-append es (e ∷ []),
      h.changes_eq,
      len,
      length-append p s,
      length-append q t,
      ap length (sym ep),
      ap length (sym eq),
      more,
    );
  }

-- A script that goes through the first `i` elements of `a` and the first `j` of `b`, in order: each element
-- of `a` is deleted, or identical with one of `b`, by one edit at its index, and each of `b` inserted, or
-- identical, by one edit at its index.
pub data Walk {ℓ} {A : Type ℓ} (a b : List A) : ℕ → ℕ → List (Edit A) → Type ℓ where
  start : Walk a b 0 0 []
  inserting :
      {i j : ℕ} {es : List (Edit A)} (x : A)
      → Walk a b i j es
      → get_elem? b j ≡ some x
      → Walk a b i (suc j) (es ++ record { op = insert; a = i; b = j; val = x } ∷ [])
  deleting :
      {i j : ℕ} {es : List (Edit A)} (x : A)
      → Walk a b i j es
      → get_elem? a i ≡ some x
      → Walk a b (suc i) j (es ++ record { op = delete; a = i; b = j; val = x } ∷ [])
  keeping :
      {i j : ℕ} {es : List (Edit A)} (x : A)
      → Walk a b i j es
      → get_elem? a i ≡ some x
      → get_elem? b j ≡ some x
      → Walk a b (suc i) (suc j) (es ++ record { op = identical; a = i; b = j; val = x } ∷ [])

module _ {ℓ} {A : Type ℓ} (a b : List A) where
  pub insert-IsScript :
      (i j : ℕ) (x : A) (es : List (Edit A)) (n : ℕ)
      → get_elem? b j ≡ some x
      → IsScript a b (take i a) (take j b) n es
      → IsScript a b
          (take i a)
          (take (suc j) b)
          n
          (es ++ record { op = insert; a = i; b = j; val = x } ∷ [])
  unfolding apply_edit reverse_edit
  insert-IsScript i j x es n at_b h =
      IsScript-append a b _ _ n n es _ [] (x ∷ []) _ _ h refl refl (append-nil (take i a))
        (take_next b j x at_b) refl (omega arith)

  pub delete-IsScript :
      (i j : ℕ) (x : A) (es : List (Edit A)) (n : ℕ)
      → get_elem? a i ≡ some x
      → IsScript a b (take i a) (take j b) n es
      → IsScript a b
          (take (suc i) a)
          (take j b)
          n
          (es ++ record { op = delete; a = i; b = j; val = x } ∷ [])
  unfolding apply_edit reverse_edit
  delete-IsScript i j x es n at_a h =
      IsScript-append a b _ _ n n es _ (x ∷ []) [] _ _ h refl refl (take_next a i x at_a)
        (append-nil (take j b)) refl (omega arith)

  pub keep-IsScript :
      (i j : ℕ) (x : A) (es : List (Edit A)) (n : ℕ)
      → get_elem? a i ≡ some x
      → get_elem? b j ≡ some x
      → IsScript a b (take i a) (take j b) n es
      → IsScript a b
          (take (suc i) a)
          (take (suc j) b)
          (n + 1)
          (es ++ record { op = identical; a = i; b = j; val = x } ∷ [])
  unfolding apply_edit reverse_edit
  keep-IsScript i j x es n at_a at_b h =
      IsScript-append a b _ _ n (n + 1) es _ (x ∷ []) (x ∷ []) _ _ h (rw at_a refl) refl
        (take_next a i x at_a) (take_next b j x at_b) refl refl
