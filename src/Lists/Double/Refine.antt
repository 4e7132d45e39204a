-- ===== src/Lists/Double/Refine.antt =====
-- Any changes of a doubly linked list, against the same changes of a sequence of entries.
use mathlib.Core.Option.{some-ne-none, some-injective}
use mathlib.Core.List.{map-append, reverse, reverse-cons}
use go_pkgs.Common.{
  ℕ, suc, ◌≡◌, refl, sym, ap, ◌∙◌, Bool, inl, inr, List, [], ◌∷◌, ◌++◌, map, Option, some, arith,
  length, ◌>>=◌, Option-cases, subst,
}
use go_pkgs.Common.Int.{pos}
use go_pkgs.Lists.Ring.{
  IsDistinct, IsDistinct-head, Runs, count, count-reverse, length-reverse, update_at, first, last,
}
use go_pkgs.Lists.Iterate.{head_of, first_element, consume, iterate-Runs}
use go_pkgs.Lists.Entries.{
  address, element, length-address, Change, add_last, add_first, drop, drop_entry, drop_entry-split,
}
use go_pkgs.Lists.Double.{
  Double, new, reset, append, prepend, remove_item, head, tail, forward, backward,
}
use go_pkgs.Lists.Double.Holds.{Holds, append-Holds, prepend-Holds, remove_item-Holds}

module _ {ℓ} {A : Type ℓ} (unset : A) where
  unfoldable pub change : Change A → Double A → Option (Double A)
  change (add_last v) d = do (_, d') ← append v d; some d'
  change (add_first v) d = do (_, d') ← prepend v d; some d'
  change (drop i) d = remove_item unset i d

  unfoldable pub run : List (Change A) → Double A → Option (Double A)
  run [] d = some d
  run (c ∷ cs) d = do d' ← change c d; run cs d'

module _ {ℓ} {A : Type ℓ} where
  -- The changes on entries, where `n` is the next address.
  unfoldable pub model : List (Change A) → ℕ → List (ℕ × A) → Option (List (ℕ × A))
  model [] n es = some es
  model (add_last v ∷ cs) n es = model cs (suc n) (es ++ (n, v) ∷ [])
  model (add_first v ∷ cs) n es = model cs (suc n) ((n, v) ∷ es)
  model (drop i ∷ cs) n es = do es' ← drop_entry i es; model cs n es'

  pub run-Holds :
      (unset : A) (cs : List (Change A)) (d : Double A) (es es' : List (ℕ × A))
      → Holds d es
      → model cs d.fresh es ≡ some es'
      → (d' : Double A) × (run unset cs d ≡ some d') × Holds d' es'
  unfolding run change model
  run-Holds unset [] d es es' h m = (d, refl, subst (Holds d) (some-injective _ _ m) h)
  run-Holds unset (add_last v ∷ cs) d es es' h m =
      let (d₁, step, next, h₁) = append-Holds v d es h in
      let (d', rest, h') = run-Holds unset cs d₁ _ es' h₁ (rw next m) in (d', rw step rest, h')
  run-Holds unset (add_first v ∷ cs) d es es' h m =
      let (d₁, step, next, h₁) = prepend-Holds v d es h in
      let (d', rest, h') = run-Holds unset cs d₁ _ es' h₁ (rw next m) in (d', rw step rest, h')
  run-Holds unset (drop i ∷ cs) d es es' h m = elim (Option-cases (drop_entry i es)) [
    | inl fails ↦ absurd (some-ne-none _ (sym (rw fails at m)))
    | inr (left, found) ↦
        let (fs, v, gs, e, e') = drop_entry-split i es left found in
        let (d₁, step, next, h₁) = remove_item-Holds unset d fs i v gs (subst (Holds d) e h) in
        let (d', rest, h') =
          run-Holds unset cs d₁ (fs ++ gs) es' h₁
            (rw next (subst (λ t. model cs d.fresh t ≡ some es') e' (rw found at m))) in
        (d', rw step rest, h')
  ]

  pub new-Holds : (unset : A) → Holds (new unset) []
  unfolding Holds new reset Runs IsDistinct count
  new-Holds unset = record {
    links = update_at _ 0 (some 0);
    back_links = update_at _ 0 (some 0);
    distinct = λ c. ground arith;
    old = λ c above. ground arith;
    vals = refl;
    len_eq = refl;
  }

  map-reverse : (f : ℕ → A) (ids : List ℕ) → map f (reverse ids) ≡ reverse (map f ids)
  map-reverse f [] = refl
  map-reverse f (i ∷ ids) =
      ap (map f) (reverse-cons i ids)
      ∙ map-append f (reverse ids) (i ∷ [])
      ∙ ap (λ t. t ++ f i ∷ []) (map-reverse f ids)
      ∙ sym (reverse-cons (f i) (map f ids))

  ends-Holds :
      (d : Double A) (es : List (ℕ × A))
      → Holds d es
      → (head d ≡ some (head_of (d.val 0) (map element es)))
        × (tail d ≡ some (head_of (d.val 0) (reverse (map element es))))
  unfolding head tail Holds
  ends-Holds d es h = (
    rw h.len_eq (rw h.vals at (first_element d.next d.val (map address es) h.links)),
    rw h.len_eq (
        rw (length-reverse (map address es), map-reverse d.val (map address es), h.vals) at
          (first_element d.prev d.val (reverse (map address es)) h.back_links)),
  )

  module _ {κ} {S : Type κ} (yield : S → A → S × Bool) (s : S) (d : Double A) (es : List (ℕ × A))
      (h : Holds d es) where
    no_sentinel : count 0 (map address es) ≡ 0
    unfolding Holds
    no_sentinel = omega (arith, IsDistinct-head 0 (map address es) h.distinct)

    forward-Holds : forward yield (suc (length es)) d s ≡ some (consume yield s (map element es))
    unfolding forward Holds
    forward-Holds =
        rw (length-address es, h.vals) at
          (iterate-Runs d.next d.val yield 0 (map address es) s h.links no_sentinel)

    backward-Holds :
        backward yield (suc (length es)) d s ≡ some (consume yield s (reverse (map element es)))
    unfolding backward Holds
    backward-Holds =
        rw
          (
            length-reverse (map address es),
            length-address es,
            map-reverse d.val (map address es),
            h.vals,
          )
          at
          (iterate-Runs d.prev d.val yield 0 (reverse (map address es)) s h.back_links
            (count-reverse 0 (map address es) ∙ no_sentinel))

  -- Appends, prepends and removals of items that are in the list never panic. Then Forward gives its body the
  -- elements in the order of a sequence that is changed alike, and Reverse in the opposite order, until the
  -- body stops, on one round for each element and one more; Len is their number, and Head and Tail are the
  -- first and the last, or the sentinel's value when there is none.
  pub run-model {κ} :
      (unset : A) (cs : List (Change A)) (es : List (ℕ × A))
      → model cs 1 [] ≡ some es
      → {S : Type κ} (yield : S → A → S × Bool) (s : S)
      → (d : Double A) × (run unset cs (new unset) ≡ some d)
        × (forward yield (suc (length es)) d s ≡ some (consume yield s (map element es)))
        × (backward yield (suc (length es)) d s ≡ some (consume yield s (reverse (map element es))))
        × (d.len ≡ pos (length es))
        × (head d ≡ some (head_of (d.val 0) (map element es)))
        × (tail d ≡ some (head_of (d.val 0) (reverse (map element es))))
  unfolding Holds new reset
  run-model unset cs es m yield s =
      let (d, run, h) = run-Holds unset cs (new unset) [] es (new-Holds unset) m in
      let (first, last) = ends-Holds d es h in
      (
        d,
        run,
        forward-Holds yield s d es h,
        backward-Holds yield s d es h,
        h.len_eq ∙ ap pos (length-address es),
        first,
        last,
      )
