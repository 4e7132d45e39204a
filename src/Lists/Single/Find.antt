-- ===== src/Lists/Single/Find.antt =====
-- Remove of a singly linked list.
use mathlib.Core.List.{append_assoc, map-append}
use go_pkgs.Common.{
  ℕ, zero, suc, ◌<◌, ◌≡◌, ◌≢◌, refl, ap, ◌∙◌, Bool, false, inl, inr, List, [], ◌∷◌, ◌++◌, map, some,
  arith, length, ◌==◌, subst, Bool-cases,
}
use go_pkgs.Lists.Matches.{without_first}
use go_pkgs.Lists.Entries.{address, element}
use go_pkgs.Lists.Ring.{
  count_head, count-append, first, last, last-append, IsDistinct, IsDistinct-head, Runs-last,
}
use go_pkgs.Lists.Single.{Single, remove_after, remove_from, remove}
use go_pkgs.Lists.Single.Holds.{IsChain}
use go_pkgs.Lists.Single.Steps.{Keeps, Keeps-split}

module _ {ℓ} {A : Type ℓ} where
  link_at :
      (s : Single A) (es : List (ℕ × A)) (js : List ℕ) (xs : List A)
      → IsChain s (map address es ++ js) xs
      → s.next (last 0 (map address es)) ≡ some (first js 0)
  link_at s es js xs h = Runs-last s.next 0 (map address es) js 0 h.links

  end_link :
      (s : Single A) (es : List (ℕ × A))
      → Keeps s (es ++ [])
      → s.next (last 0 (map address es)) ≡ some 0
  unfolding Keeps first
  end_link s es h =
      link_at s es [] (map element (es ++ []))
        (subst (λ t. IsChain s t (map element (es ++ []))) (map-append address es []) h)

  not_sentinel :
      (es : List (ℕ × A)) (i : ℕ) (js : List ℕ)
      → IsDistinct (0 ∷ map address es ++ i ∷ js)
      → (i == 0) ≡ false
  not_sentinel es i js dis = zero_test i (λ e.
      count_head 0 i js
        (omega (
          arith,
          IsDistinct-head 0 (map address es ++ i ∷ js) dis,
          count-append 0 (map address es) (i ∷ js),
        ))
        e)
    where
      zero_test : (x : ℕ) → (0 ≢ x) → (x == 0) ≡ false
      zero_test x h = ground arith

  last_address : (es : List (ℕ × A)) (i : ℕ) (v : A) → last 0 (map address (es ++ (i, v) ∷ [])) ≡ i
  unfolding address
  last_address es i v =
      ap (last 0) (map-append address es ((i, v) ∷ [])) ∙ last-append 0 i (map address es)

module _ {ℓ} {A : Type ℓ} (unset : A) (m : A → Bool) where
  remove_from-Keeps :
      (s : Single A) (fuel : ℕ) (es fs : List (ℕ × A))
      → length fs < fuel
      → Keeps s (es ++ fs)
      → (s' : Single A) × (remove_from unset m fuel
            (last 0 (map address es))
            (s.next (last 0 (map address es)))
            s
          ≡ some s')
        × Keeps s' (es ++ without_first m fs)
  unfolding remove_from without_first first
  remove_from-Keeps s zero es fs lt h = absurd (omega arith)
  remove_from-Keeps s (suc fuel) es [] lt h = (s, rw (end_link s es h) refl, h)
  remove_from-Keeps s (suc fuel) es ((i, v) ∷ fs) lt h =
      let (h', at, removed) = Keeps-split unset s es i v fs h in
      let link : s.next (last 0 (map address es)) ≡ some i =
        link_at s es (i ∷ map address fs) _ h' in
      let there = not_sentinel es i (map address fs) h'.distinct in
      elim (Bool-cases (m v)) [
        | inl hit ↦ (
          remove_after unset (last 0 (map address es)) i s,
          rw (link, remove_from, there, at, hit) refl,
          rw hit removed,
        )
        | inr miss ↦
            let (s', run, h'') =
              remove_from-Keeps s fuel (es ++ (i, v) ∷ []) fs (omega arith)
                (rw (append_assoc es ((i, v) ∷ []) fs) h) in
            (
              s',
              rw (link, remove_from, there, at, miss) (rw (last_address es i v) at run),
              rw miss (rw (append_assoc es ((i, v) ∷ []) (without_first m fs)) at h''),
            )
      ]

-- Remove never panics, and ends within a round for each element and one more: it takes out the first element
-- that the comparison matches, and without one it changes nothing.
pub remove_lem {ℓ} :
    {A : Type ℓ} (unset v : A) (cmp : A → A → Bool) (fuel : ℕ) (s : Single A) (es : List (ℕ × A))
    → Keeps s es
    → length es < fuel
    → (s' : Single A) × (remove unset v cmp fuel s ≡ some s')
      × Keeps s' (without_first (λ x. cmp x v) es)
unfolding remove last
remove_lem unset v cmp fuel s es h enough =
    remove_from-Keeps unset (λ x. cmp x v) s fuel [] es enough h
