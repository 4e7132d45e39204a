-- ===== src/Lists/Single/Steps.antt =====
-- Each change of a singly linked list, on the entries that it keeps.
use mathlib.Core.Option.{some-ne-none}
use mathlib.Core.List.{append-nil, map-append}
use go_pkgs.Common.Int.{ℤ, pos, ◌+ℤ◌, ◌-ℤ◌}
use go_pkgs.Common.Equality.{same_self}
use go_pkgs.Common.{
  ℕ, zero, suc, ◌<◌, ◌≡◌, ◌≢◌, refl, sym, ap, ap₂, ◌∙◌, false, inl, inr, List, [], ◌∷◌, ◌++◌, map,
  none, some, arith, length, ◌==◌, if◌then◌else◌, length-append, subst, Bool-cases, Option-cases,
}
use go_pkgs.Lists.{is_zero}
use go_pkgs.Lists.Entries.{address, element, length_maps, vals_split, drop_entry, drop_entry-split}
use go_pkgs.Lists.Counts.{pos_suc, pos_pred}
use go_pkgs.Lists.Ring.{
  count, count_head, count_self, count_tail, count-append, last, last-append, IsDistinct,
  IsDistinct-head, Runs,
}
use go_pkgs.Lists.Single.{
  Single, insert_after_item, append, prepend, find_prev, remove_item, remove_after, is_one,
}
use go_pkgs.Lists.Single.Holds.{IsChain, inserted-IsChain, removed-IsChain}

prepend_tail :
    (ids : List ℕ) (len : ℤ) (tail n : ℕ)
    → len ≡ pos (length ids)
    → tail ≡ last 0 ids
    → (if is_one (len +ℤ pos 1) then n else tail) ≡ last n ids
unfolding last is_one is_zero ◌+ℤ◌ ◌-ℤ◌
prepend_tail [] len tail n el et = rw el refl
prepend_tail (i ∷ ids) len tail n el et =
    rw (el, pos_suc (suc (length ids)), pos_pred (suc (length ids)), not_empty (length ids)) et
  where
    not_empty : (k : ℕ) → (suc k == 0) ≡ false
    not_empty k = ground arith

first_one : (is : List ℕ) (i : ℕ) (js : List ℕ) → IsDistinct (0 ∷ is ++ i ∷ js) → count i is ≡ 0
unfolding IsDistinct
first_one is i js dis =
    omega (arith, dis i, count_tail i 0 (is ++ i ∷ js), count-append i is (i ∷ js), count_self i js)

zero_test : (x : ℕ) → 0 ≢ x → (x == 0) ≡ false
zero_test x h = ground arith

other_test : (x i : ℕ) → x ≢ i → (x == i) ≡ false
other_test x i h = ground arith

module _ {ℓ} {A : Type ℓ} where
  -- The list holds the entries, in order.
  unfoldable pub Keeps : Single A → List (ℕ × A) → Type ℓ
  Keeps s es = IsChain s (map address es) (map element es)

  same-IsChain :
      {s : Single A} {ids ids' : List ℕ} {xs xs' : List A}
      → ids ≡ ids'
      → xs ≡ xs'
      → IsChain s ids xs
      → IsChain s ids' xs'
  same-IsChain {s} {ids} {ids'} {xs} {xs'} e e' h =
      subst (λ t. IsChain s t xs') e (subst (λ t. IsChain s ids t) e' h)

  pub append-Keeps :
      (v : A) (s : Single A) (es : List (ℕ × A))
      → Keeps s es
      → Keeps (append v s).1 (es ++ (s.fresh, v) ∷ [])
  unfolding append Keeps address element insert_after_item
  append-Keeps v s es h =
      let ids = map address es in
      let h' : IsChain s (ids ++ []) (map element es) =
        same-IsChain (sym (append-nil ids)) refl h in
      same-IsChain (sym (map-append address es _))
        (ap (λ t. t ++ v ∷ []) h.vals ∙ sym (map-append element es _))
        (rw h.tail_eq (inserted-IsChain s ids [] _ h' v s.fresh (sym (last-append 0 s.fresh ids))))

  pub prepend-Keeps :
      (v : A) (s : Single A) (es : List (ℕ × A))
      → Keeps s es
      → Keeps (prepend v s).1 ((s.fresh, v) ∷ es)
  unfolding prepend Keeps address element insert_after_item last
  prepend-Keeps v s es h = same-IsChain refl (ap (λ t. v ∷ t) h.vals) (
      inserted-IsChain s [] (map address es) _ h v
        (if is_one (s.len +ℤ pos 1) then s.fresh else s.tail)
        (prepend_tail (map address es) s.len s.tail s.fresh h.len_eq h.tail_eq))

  pub append-fresh : (v : A) (s : Single A) → (append v s).1.fresh ≡ suc s.fresh
  unfolding append insert_after_item
  append-fresh v s = refl

  pub prepend-fresh : (v : A) (s : Single A) → (prepend v s).1.fresh ≡ suc s.fresh
  unfolding prepend insert_after_item
  prepend-fresh v s = refl

  -- findPrev, from an item before the one that it looks for, and from one after which there is no such item.
  find_prev-Runs :
      (s : Single A) (fuel p : ℕ) (is : List ℕ) (i : ℕ) (js : List ℕ)
      → length is < fuel
      → Runs s.next p (is ++ i ∷ js) 0
      → count 0 (is ++ i ∷ js) ≡ 0
      → count i is ≡ 0
      → find_prev fuel i p (s.next p) s ≡ some (some (last p is))
  unfolding Runs find_prev last
  find_prev-Runs s zero p is i js lt r out fresh = absurd (omega arith)
  find_prev-Runs s (suc fuel) p [] i js lt (e, r) out fresh =
      rw (e, find_prev, zero_test i (count_head 0 i js out), same_self i) refl
  find_prev-Runs s (suc fuel) p (x ∷ is) i js lt (e, r) out fresh =
      rw
        (
          e,
          find_prev,
          zero_test x (count_head 0 x (is ++ i ∷ js) out),
          other_test x i (λ h. count_head i x is fresh (sym h)),
        )
        (find_prev-Runs s fuel x is i js (omega arith) r
          (omega (arith, out, count_tail 0 x (is ++ i ∷ js)))
          (omega (arith, fresh, count_tail i x is)))

  find_prev-none :
      (s : Single A) (fuel p : ℕ) (ids : List ℕ) (i : ℕ)
      → length ids < fuel
      → Runs s.next p ids 0
      → count 0 ids ≡ 0
      → count i ids ≡ 0
      → find_prev fuel i p (s.next p) s ≡ some none
  unfolding Runs find_prev
  find_prev-none s zero p ids i lt r out fresh = absurd (omega arith)
  find_prev-none s (suc fuel) p [] i lt r out fresh = rw r refl
  find_prev-none s (suc fuel) p (x ∷ ids) i lt (e, r) out fresh =
      rw
        (
          e,
          find_prev,
          zero_test x (count_head 0 x ids out),
          other_test x i (λ h. count_head i x ids fresh (sym h)),
        )
        (find_prev-none s fuel x ids i (omega arith) r (omega (arith, out, count_tail 0 x ids))
          (omega (arith, fresh, count_tail i x ids)))

  -- The entries without the one of `i`, if there is one.
  unfoldable pub without_entry : ℕ → List (ℕ × A) → List (ℕ × A)
  without_entry i es = elim (drop_entry i es) [ none ↦ es | some es' ↦ es' ]

  drop_entry-none :
      (i : ℕ) (es : List (ℕ × A)) → drop_entry i es ≡ none → count i (map address es) ≡ 0
  unfolding drop_entry address count
  drop_entry-none i [] h = refl
  drop_entry-none i ((j, v) ∷ es) h = elim (Bool-cases (j == i)) [
    | inl is ↦ absurd (some-ne-none _ (rw is at h))
    | inr isnt ↦ elim (Option-cases (drop_entry i es)) [
      | inl fails ↦ ground (arith, drop_entry-none i es fails)
      | inr (rest, found) ↦ absurd (some-ne-none _ (rw (isnt, found) at h))
    ]
  ]

  -- The items of a list that is cut at one of them, and the list without that one.
  pub Keeps-split :
      (unset : A) (s : Single A) (es : List (ℕ × A)) (i : ℕ) (v : A) (fs : List (ℕ × A))
      → Keeps s (es ++ (i, v) ∷ fs)
      → IsChain s (map address es ++ i ∷ map address fs) (map element es ++ v ∷ map element fs)
        × (s.val i ≡ v)
        × Keeps (remove_after unset (last 0 (map address es)) i s) (es ++ fs)
  unfolding Keeps address element
  Keeps-split unset s es i v fs h =
      let is = map address es in
      let js = map address fs in
      let h' : IsChain s (is ++ i ∷ js) (map element es ++ v ∷ map element fs) =
        same-IsChain (map-append address es ((i, v) ∷ fs)) (map-append element es ((i, v) ∷ fs))
          h in
      let (front, at, after) =
        vals_split s.val is i js (map element es) v (map element fs) (length_maps es) h'.vals in
      (
        h',
        at,
        same-IsChain (sym (map-append address es fs))
            (ap₂ (λ t u. t ++ u) front after ∙ sym (map-append element es fs))
            (removed-IsChain unset s is i js _ h'),
      )

  present :
      (unset : A) (s : Single A) (es : List (ℕ × A)) (i : ℕ) (v : A) (fs : List (ℕ × A))
      → Keeps s (es ++ (i, v) ∷ fs)
      → (s' : Single A) × (remove_item unset s.fresh i s ≡ some s')
        × (s'.fresh ≡ s.fresh)
        × Keeps s' (es ++ fs)
  unfolding remove_item remove_after
  present unset s es i v fs h =
      let is = map address es in
      let js = map address fs in
      let (h', at, removed) = Keeps-split unset s es i v fs h in
      let found =
        find_prev-Runs s s.fresh 0 is i js (omega (arith, h'.few, length-append is (i ∷ js)))
          h'.links (IsDistinct-head 0 (is ++ i ∷ js) h'.distinct) (first_one is i js h'.distinct) in
      (remove_after unset (last 0 is) i s, rw found refl, refl, removed)

  pub drop-Keeps :
      (unset : A) (s : Single A) (es : List (ℕ × A)) (i : ℕ)
      → Keeps s es
      → (s' : Single A) × (remove_item unset s.fresh i s ≡ some s')
        × (s'.fresh ≡ s.fresh)
        × Keeps s' (without_entry i es)
  unfolding without_entry remove_item Keeps
  drop-Keeps unset s es i h = elim (Option-cases (drop_entry i es)) [
    | inl fails ↦
        rw (without_entry, fails)
          (
            s,
            rw
                (find_prev-none s s.fresh 0 (map address es) i h.few h.links
                  (IsDistinct-head 0 (map address es) h.distinct) (drop_entry-none i es fails))
                refl,
            refl,
            h,
          )
    | inr (left, found) ↦
        let (fs, v, gs, e, e') = drop_entry-split i es left found in
        rw (without_entry, found, e') (present unset s fs i v gs (subst (Keeps s) e h))
  ]
