-- ===== src/Lists/Double/Holds.antt =====
-- A doubly linked list holds a sequence of pairs: the address of an item, which is its DoubleID, and its element.
use mathlib.Core.List.{append-nil, map-append}
use go_pkgs.Common.{ℕ, suc, ◌≡◌, refl, sym, ap, ap₂, ◌∙◌, List, [], ◌∷◌, ◌++◌, map, some, subst}
use go_pkgs.Lists.Ring.{first, last}
use go_pkgs.Lists.Entries.{address, element, vals_split, length_maps}
use go_pkgs.Lists.Double.{Double, append, prepend, remove_item}
use go_pkgs.Lists.Double.Shape.{IsList, insert_found, before_eq}
use go_pkgs.Lists.Double.Removal.{remove_found}

module _ {ℓ} {A : Type ℓ} where
  -- The list holds the entries, in order.
  unfoldable pub Holds : Double A → List (ℕ × A) → Type ℓ
  Holds d es = IsList d (map address es) (map element es)

  same-IsList :
      {d : Double A} {ids ids' : List ℕ} {xs xs' : List A}
      → ids ≡ ids'
      → xs ≡ xs'
      → IsList d ids xs
      → IsList d ids' xs'
  same-IsList {d} {ids} {ids'} {xs} {xs'} e e' h =
      subst (λ t. IsList d t xs') e (subst (λ t. IsList d ids t) e' h)

  pub append-Holds :
      (v : A) (d : Double A) (es : List (ℕ × A))
      → Holds d es
      → (d' : Double A) × (append v d ≡ some (d.fresh, d'))
        × (d'.fresh ≡ suc d.fresh)
        × Holds d' (es ++ (d.fresh, v) ∷ [])
  unfolding append Holds address element first
  append-Holds v d es h =
      let ids = map address es in
      let h' : IsList d (ids ++ []) (map element es) = same-IsList (sym (append-nil ids)) refl h in
      let (d', run, next, h'') = insert_found d ids [] _ h' v in
      (
        d',
        rw (before_eq d ids [] _ h') run,
        next,
        same-IsList (sym (map-append address es _))
            (ap (λ t. t ++ v ∷ []) h.vals ∙ sym (map-append element es _)) h'',
      )

  pub prepend-Holds :
      (v : A) (d : Double A) (es : List (ℕ × A))
      → Holds d es
      → (d' : Double A) × (prepend v d ≡ some (d.fresh, d'))
        × (d'.fresh ≡ suc d.fresh)
        × Holds d' ((d.fresh, v) ∷ es)
  unfolding prepend Holds address element last
  prepend-Holds v d es h =
      let (d', run, next, h') = insert_found d [] (map address es) _ h v in
      (d', run, next, same-IsList refl (ap (λ t. v ∷ t) h.vals) h')

  -- The items of a list that is cut at one of them.
  pub Holds-split :
      (d : Double A) (es : List (ℕ × A)) (i : ℕ) (v : A) (fs : List (ℕ × A))
      → Holds d (es ++ (i, v) ∷ fs)
      → IsList d (map address es ++ i ∷ map address fs) (map element es ++ v ∷ map element fs)
        × (map d.val (map address es) ≡ map element es)
        × (d.val i ≡ v)
        × (map d.val (map address fs) ≡ map element fs)
  unfolding Holds address element
  Holds-split d es i v fs h =
      let h' =
        same-IsList (map-append address es ((i, v) ∷ fs)) (map-append element es ((i, v) ∷ fs)) h in
      let (front, at, after) =
        vals_split d.val (map address es) i (map address fs) (map element es) v (map element fs)
          (length_maps es) h'.vals in
      (h', front, at, after)

  pub remove_item-Holds :
      (unset : A) (d : Double A) (es : List (ℕ × A)) (i : ℕ) (v : A) (fs : List (ℕ × A))
      → Holds d (es ++ (i, v) ∷ fs)
      → (d' : Double A) × (remove_item unset i d ≡ some d')
        × (d'.fresh ≡ d.fresh)
        × Holds d' (es ++ fs)
  unfolding Holds
  remove_item-Holds unset d es i v fs h =
      let (h', front, at, after) = Holds-split d es i v fs h in
      let (d', run, next, h'') = remove_found unset d (map address es) i (map address fs) _ h' in
      (
        d',
        run,
        next,
        same-IsList (sym (map-append address es fs))
            (ap₂ (λ t u. t ++ u) front after ∙ sym (map-append element es fs)) h'',
      )
