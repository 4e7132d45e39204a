-- ===== src/Lists/Entries.antt =====
-- The entries of a list: the address of an item, which stands for its ID, and its element.
use mathlib.Core.Option.{some-ne-none, some-injective}
use mathlib.Core.List.{head-eq_of_cons-eq, tail-eq_of_cons-eq}
use go_pkgs.Common.{
  ℕ, suc, ◌≡◌, refl, sym, ap, ap₂, ◌∙◌, inl, inr, List, [], ◌∷◌, ◌++◌, map, Option, none, some,
  arith, length, ◌>>=◌, ◌==◌, if◌then◌else◌, Bool-cases, Option-cases,
}
use go_pkgs.Common.Equality.{eq_of_same}

-- The calls that change a list.
pub data Change {ℓ} (A : Type ℓ) : Type ℓ where
  add_last add_first : A → Change A
  drop : ℕ → Change A

module _ {ℓ} {A : Type ℓ} where
  unfoldable pub address : ℕ × A → ℕ
  address e = e.0

  unfoldable pub element : ℕ × A → A
  element e = e.1

  pub vals_split :
      (val : ℕ → A) (is : List ℕ) (i : ℕ) (js : List ℕ) (us : List A) (v : A) (ws : List A)
      → length is ≡ length us
      → map val (is ++ i ∷ js) ≡ us ++ v ∷ ws
      → (map val is ≡ us) × (val i ≡ v) × (map val js ≡ ws)
  vals_split val [] i js [] v ws len e = (refl, head-eq_of_cons-eq e, tail-eq_of_cons-eq e)
  vals_split val [] i js (u ∷ us) v ws len e = absurd (omega (arith, len))
  vals_split val (j ∷ is) i js [] v ws len e = absurd (omega (arith, len))
  vals_split val (j ∷ is) i js (u ∷ us) v ws len e =
      let (front, at, after) =
        vals_split val is i js us v ws (omega (arith, len)) (tail-eq_of_cons-eq e) in
      (ap₂ (λ x t. x ∷ t) (head-eq_of_cons-eq e) front, at, after)

  pub length-address : (es : List (ℕ × A)) → length (map address es) ≡ length es
  length-address [] = refl
  length-address (e ∷ es) = ap suc (length-address es)

  pub length_maps : (es : List (ℕ × A)) → length (map address es) ≡ length (map element es)
  length_maps [] = refl
  length_maps (e ∷ es) = ap suc (length_maps es)

  -- The entries without the one of `i`; there must be one.
  unfoldable pub drop_entry : ℕ → List (ℕ × A) → Option (List (ℕ × A))
  drop_entry i [] = none
  drop_entry i (e ∷ es) = if e.0 == i then some es else do es' ← drop_entry i es; some (e ∷ es')

  pub drop_entry-split :
      (i : ℕ) (es es' : List (ℕ × A))
      → drop_entry i es ≡ some es'
      → (fs : List (ℕ × A)) × (v : A) × (gs : List (ℕ × A)) × (es ≡ fs ++ (i, v) ∷ gs)
        × (es' ≡ fs ++ gs)
  unfolding drop_entry
  drop_entry-split i [] es' h = absurd (some-ne-none _ (sym h))
  drop_entry-split i ((j, v) ∷ es) es' h = elim (Bool-cases (j == i)) [
    | inl is ↦ (
      [],
      v,
      es,
      ap (λ k. (k, v) ∷ es) (eq_of_same j i is),
      sym (some-injective _ _ (rw is at h)),
    )
    | inr isnt ↦ elim (Option-cases (drop_entry i es)) [
      | inl fails ↦ absurd (some-ne-none _ (sym (rw (isnt, fails) at h)))
      | inr (rest, found) ↦
          let (fs, w, gs, e, e') = drop_entry-split i es rest found in
          (
            (j, v) ∷ fs,
            w,
            gs,
            ap (λ t. (j, v) ∷ t) e,
            sym (some-injective _ _ (rw (isnt, found) at h)) ∙ ap (λ t. (j, v) ∷ t) e',
          )
    ]
  ]
