-- ===== src/Lists/Double/Find.antt =====
-- Remove and RemoveReverse of a doubly linked list, whose loops end at a match alone.
use mathlib.Core.List.{reverse}
use go_pkgs.Common.{
  ℕ, zero, suc, ◌≤◌, ◌≡◌, refl, ap, ◌∙◌, Bool, true, false, inl, inr, List, [], ◌∷◌, ◌++◌, map,
  Option, none, some, arith, length, ◌<◌, length-append, subst,
}
use go_pkgs.Lists.Ring.{
  Runs, count, count_cases, count_self, count-append, count-reverse, length-reverse, count_tail,
  reverse_middle,
}
use go_pkgs.Lists.Counts.{count_cons}
use go_pkgs.Lists.Matches.{any, any-false, without_first, without_last, cut_first, cut_last}
use go_pkgs.Lists.Entries.{address, element, length-address}
use go_pkgs.Lists.Double.{Double, remove_item, remove_from, remove, remove_reverse}
use go_pkgs.Lists.Double.Holds.{Holds, Holds-split, remove_item-Holds}

no_item : (c : ℕ) → 1 ≤ count c [] → ⊥
unfolding count
no_item c h = absurd (omega arith)

module _ {ℓ} {A : Type ℓ} (unset : A) (link : ℕ → Option ℕ) (m : A → Bool) (d : Double A) where
  remove_from-Runs :
      (p : ℕ) (is : List ℕ) (i : ℕ) (js : List ℕ) (q : ℕ)
      → Runs link p (is ++ i ∷ js) q
      → ((c : ℕ) → 1 ≤ count c is → m (d.val c) ≡ false)
      → m (d.val i) ≡ true
      → (fuel : ℕ) → length is < fuel
      → remove_from unset link m fuel (link p) d ≡ remove_item unset i d
  unfolding Runs remove_from
  remove_from-Runs p [] i js q r misses hit zero lt = absurd (omega arith)
  remove_from-Runs p (x ∷ is) i js q r misses hit zero lt = absurd (omega arith)
  remove_from-Runs p [] i js q (e, r) misses hit (suc fuel) lt = rw (e, remove_from, hit) refl
  remove_from-Runs p (x ∷ is) i js q (e, r) misses hit (suc fuel) lt =
      rw (e, remove_from, misses x (omega (arith, count_self x is)))
        (remove_from-Runs x is i js q r (λ c k. misses c (omega (arith, k, count_tail c x is))) hit
          fuel (omega arith))

  -- Each of the items links to one of them.
  Runs-next :
      (p : ℕ) (ids : List ℕ) (q : ℕ)
      → Runs link p ids q
      → (c : ℕ) → 1 ≤ count c (p ∷ ids)
      → (b : ℕ) × (link c ≡ some b) × (1 ≤ count b (ids ++ q ∷ []))
  unfolding Runs
  Runs-next p [] q r c h = elim (count_cases c p [] h) [
    | inl at_p ↦ (q, ap link at_p ∙ r, omega (arith, count_self q []))
    | inr later ↦ absurd (no_item c later)
  ]
  Runs-next p (a ∷ ids) q (e, r) c h = elim (count_cases c p (a ∷ ids) h) [
    | inl at_p ↦ (a, ap link at_p ∙ e, omega (arith, count_self a (ids ++ q ∷ [])))
    | inr later ↦
        let (b, next, there) = Runs-next a ids q r c later in
        (b, next, omega (arith, there, count_tail b a (ids ++ q ∷ [])))
  ]

  around : (ids : List ℕ) (b : ℕ) → 1 ≤ count b (ids ++ 0 ∷ []) → 1 ≤ count b (0 ∷ ids)
  unfolding count
  around ids b h = omega (arith, h, count-append b ids (0 ∷ []))

  loops :
      (ids : List ℕ)
      → Runs link 0 ids 0
      → ((c : ℕ) → 1 ≤ count c (0 ∷ ids) → m (d.val c) ≡ false)
      → (fuel p : ℕ) → 1 ≤ count p (0 ∷ ids)
      → remove_from unset link m fuel (link p) d ≡ none
  unfolding remove_from
  loops ids r misses zero p h = refl
  loops ids r misses (suc fuel) p h =
      let (b, next, there) = Runs-next 0 ids 0 r p h in
      rw (next, remove_from, misses b (around ids b there))
        (loops ids r misses fuel b (around ids b there))

module _ {ℓ} {A : Type ℓ} (m : A → Bool) (val : ℕ → A) where
  any-count :
      (ids : List ℕ) → any m (map val ids) ≡ false → (c : ℕ) → 1 ≤ count c ids → m (val c) ≡ false
  any-count [] misses c h = absurd (no_item c h)
  any-count (a ∷ ids) misses c h =
      let (miss, misses') = any-false m (val a) (map val ids) misses in
      elim (count_cases c a ids h) [
        | inl at ↦ ap (λ x. m (val x)) at ∙ miss
        | inr later ↦ any-count ids misses' c later
      ]

module _ {ℓ} {A : Type ℓ} (unset v : A) (cmp : A → A → Bool) (d : Double A) where
  first-Holds :
      (fuel : ℕ) (es : List (ℕ × A)) (i : ℕ) (u : A) (fs : List (ℕ × A))
      → Holds d (es ++ (i, u) ∷ fs)
      → cmp u v ≡ true
      → any (λ x. cmp x v) (map element es) ≡ false
      → length es < fuel
      → (d' : Double A) × (remove unset v cmp fuel d ≡ some d') × Holds d' (es ++ fs)
  unfolding remove
  first-Holds fuel es i u fs h hit misses enough =
      let (h', front, at, after) = Holds-split d es i u fs h in
      let (d', run, next, h'') = remove_item-Holds unset d es i u fs h in
      let m : A → Bool = λ x. cmp x v in
      (
        d',
        remove_from-Runs unset d.next m d 0 (map address es) i (map address fs) 0 h'.links
              (any-count m d.val (map address es) (rw front misses)) (rw at hit) fuel
              (omega (arith, enough, length-address es))
            ∙ run,
        h'',
      )

  last-Holds :
      (fuel : ℕ) (es : List (ℕ × A)) (i : ℕ) (u : A) (fs : List (ℕ × A))
      → Holds d (es ++ (i, u) ∷ fs)
      → cmp u v ≡ true
      → any (λ x. cmp x v) (map element fs) ≡ false
      → length fs < fuel
      → (d' : Double A) × (remove_reverse unset v cmp fuel d ≡ some d') × Holds d' (es ++ fs)
  unfolding remove_reverse
  last-Holds fuel es i u fs h hit misses enough =
      let (h', front, at, after) = Holds-split d es i u fs h in
      let (d', run, next, h'') = remove_item-Holds unset d es i u fs h in
      let m : A → Bool = λ x. cmp x v in
      (
        d',
        remove_from-Runs unset d.prev m d 0 (reverse (map address fs)) i (reverse (map address es))
              0 (rw (reverse_middle (map address es) i (map address fs)) at h'.back_links)
              (λ c k.
                any-count m d.val (map address fs) (rw after misses) c
                  (omega (arith, k, count-reverse c (map address fs))))
              (rw at hit) fuel
              (omega (arith, enough, length-reverse (map address fs), length-address fs))
            ∙ run,
        h'',
      )

  -- When an element of the list matches, Remove takes out the first that does and RemoveReverse the last,
  -- and both end within a round for each element.
  pub remove-Holds :
      (es : List (ℕ × A))
      → Holds d es
      → any (λ x. cmp x v) (map element es) ≡ true
      → (d₁ d₂ : Double A) × (remove unset v cmp (length es) d ≡ some d₁)
        × Holds d₁ (without_first (λ x. cmp x v) es)
        × (remove_reverse unset v cmp (length es) d ≡ some d₂)
        × Holds d₂ (without_last (λ x. cmp x v) es)
  remove-Holds es h some_match =
      let m : A → Bool = λ x. cmp x v in
      let (pre, i, u, post, e, hit, misses, rest) = cut_first m es some_match in
      let (pre', i', u', post', e', hit', misses', rest') = cut_last m es some_match in
      let (d₁, run, h₁) =
        first-Holds (length es) pre i u post (subst (Holds d) e h) hit misses
          (omega (arith, ap length e, length-append pre ((i, u) ∷ post))) in
      let (d₂, run', h₂) =
        last-Holds (length es) pre' i' u' post' (subst (Holds d) e' h) hit' misses'
          (omega (arith, ap length e', length-append pre' ((i', u') ∷ post'))) in
      (d₁, d₂, run, rw rest h₁, run', rw rest' h₂)

  -- Remove and RemoveReverse never return when the comparison matches neither an element of the list nor the
  -- sentinel's: on any number of rounds, the loop is not done.
  pub remove_loops :
      (es : List (ℕ × A)) (fuel : ℕ)
      → Holds d es
      → any (λ x. cmp x v) (map element es) ≡ false
      → cmp (d.val 0) v ≡ false
      → (remove unset v cmp fuel d ≡ none) × (remove_reverse unset v cmp fuel d ≡ none)
  unfolding remove remove_reverse Holds
  remove_loops es fuel h misses sentinel =
      let m : A → Bool = λ x. cmp x v in
      let none_matches : (c : ℕ) → 1 ≤ count c (0 ∷ map address es) → m (d.val c) ≡ false = λ c k.
        elim (count_cases c 0 (map address es) k) [
          | inl at ↦ ap (λ x. m (d.val x)) at ∙ sentinel
          | inr later ↦ any-count m d.val (map address es) (rw h.vals misses) c later
        ] in
      (
        loops unset d.next m d (map address es) h.links none_matches fuel 0
            (omega (arith, count_self 0 (map address es))),
        loops unset d.prev m d (reverse (map address es)) h.back_links
            (λ c k. none_matches c (
              omega (
                arith,
                k,
                count_cons c 0 (reverse (map address es)),
                count_cons c 0 (map address es),
                count-reverse c (map address es),
              )))
            fuel 0 (omega (arith, count_self 0 (reverse (map address es)))),
      )
