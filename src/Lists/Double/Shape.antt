-- ===== src/Lists/Double/Shape.antt =====
-- The items of a list link in a ring through the sentinel, both ways; insertAfterItem and removeItem keep it so.
use go_pkgs.Common.{
  ℕ, suc, ◌≤◌, ◌≡◌, ◌≢◌, refl, ap, ap₂, ◌∙◌, List, ◌∷◌, ◌++◌, map, some, arith, length,
  length-append, subst,
}
use go_pkgs.Common.Int.{pos, ◌+ℤ◌}
use mathlib.Core.List.{reverse, reverse-append, map-append}
use go_pkgs.Lists.Ring.{
  update, update_at, update_other, count, count-append, count-reverse, last, first, first-reverse,
  last_counts, not_counted, IsDistinct, Runs, Runs-insert, Runs-last, last-reverse, reverse_middle,
}
use go_pkgs.Lists.Counts.{
  map_frame, count_cons, count_new, IsDistinct-insert, IsDistinct-reverse, pos_suc,
}
use go_pkgs.Lists.Double.{Double, insert_after_item}

module _ {ℓ} {A : Type ℓ} where
  -- The items at `ids` are the list, in order, and hold `xs`.
  pub record IsList (d : Double A) (ids : List ℕ) (xs : List A) : Type ℓ where
    pub links : Runs d.next 0 ids 0
    pub back_links : Runs d.prev 0 (reverse ids) 0
    pub distinct : IsDistinct (0 ∷ ids)
    pub old : (c : ℕ) → d.fresh ≤ c → count c (0 ∷ ids) ≡ 0
    pub vals : map d.val ids ≡ xs
    pub len_eq : d.len ≡ pos (length ids)

module _ {ℓ} {A : Type ℓ} (d : Double A) (is js : List ℕ) (xs : List A)
    (h : IsList d (is ++ js) xs) where
  back : Runs d.prev 0 (reverse js ++ reverse is) 0
  back = rw (reverse-append is js) at h.back_links

  -- The item before and the item after.
  pub before_eq : d.prev (first js 0) ≡ some (last 0 is)
  before_eq =
      rw (last-reverse 0 js, first-reverse is 0) at
        (Runs-last d.prev 0 (reverse js) (reverse is) 0 back)

  after_eq : d.next (last 0 is) ≡ some (first js 0)
  after_eq = Runs-last d.next 0 is js 0 h.links

  new_counts : count d.fresh (0 ∷ is ++ js) ≡ 0
  new_counts = h.old d.fresh (omega arith)

  new_back_counts : count d.fresh (0 ∷ reverse js ++ reverse is) ≡ 0
  new_back_counts =
      count_cons d.fresh 0 (reverse js ++ reverse is)
      ∙ omega (
        arith,
        new_counts,
        count_cons d.fresh 0 (is ++ js),
        count-append d.fresh is js,
        count-append d.fresh (reverse js) (reverse is),
        count-reverse d.fresh is,
        count-reverse d.fresh js,
      )

  new_ne_last : d.fresh ≢ last 0 is
  new_ne_last e = absurd (
      omega (
        arith,
        last_counts 0 is,
        count-append (last 0 is) (0 ∷ is) js,
        subst (λ x. count x (0 ∷ is ++ js) ≡ 0) e new_counts,
      ))

  insert : A → Double A
  insert v =
      let n = d.fresh in
      record d {
        next = update (update d.next n (d.next (last 0 is))) (last 0 is) (some n);
        prev = update (update d.prev n (some (last 0 is))) (first js 0) (some n);
        val = update d.val n v;
        fresh = suc n;
        len = d.len +ℤ pos 1;
      }

  insert_run : (v : A) → insert_after_item v (last 0 is) d ≡ some (d.fresh, insert v)
  unfolding insert_after_item insert
  insert_run v =
      rw
        (
          update_at d.prev d.fresh (some (last 0 is)),
          update_other (update d.next d.fresh (d.next (last 0 is))) (last 0 is) (some d.fresh)
              d.fresh new_ne_last,
          update_at d.next d.fresh (d.next (last 0 is)),
          after_eq,
        )
        refl

  same : (v : A) (c : ℕ) → 1 ≤ count c (is ++ js) → update d.val d.fresh v c ≡ d.val c
  same v c k = update_other d.val d.fresh v c (
      not_counted d.fresh c (is ++ js) (omega (arith, new_counts, count_cons d.fresh 0 (is ++ js)))
        k)

  insert-IsList :
      (v : A) → IsList (insert v) (is ++ d.fresh ∷ js) (map d.val is ++ v ∷ map d.val js)
  unfolding insert
  insert-IsList v = record {
    links = Runs-insert d.next 0 is d.fresh js 0 h.distinct new_counts h.links;
    back_links = rw (reverse_middle is d.fresh js) (
        rw (last-reverse 0 js, before_eq) at
          (Runs-insert d.prev 0 (reverse js) d.fresh (reverse is) 0
            (IsDistinct-reverse is js h.distinct) new_back_counts back));
    distinct = IsDistinct-insert is d.fresh js h.distinct new_counts;
    old = λ c above. count_new c is d.fresh js above (h.old c (omega (arith, above)));
    vals =
        map-append _ is (d.fresh ∷ js)
        ∙ ap₂ (λ t u. t ++ u)
            (map_frame d.val (update d.val d.fresh v) is
              (λ c k. same v c (omega (arith, k, count-append c is js))))
            (ap₂ (λ x t. x ∷ t) (update_at d.val d.fresh v)
              (map_frame d.val (update d.val d.fresh v) js
                (λ c k. same v c (omega (arith, k, count-append c is js)))));
    len_eq =
        ap (λ l. l +ℤ pos 1) h.len_eq
        ∙ pos_suc (length (is ++ js))
        ∙ ap pos (omega (arith, length-append is js, length-append is (d.fresh ∷ js)));
  }

  pub insert_found :
      (v : A)
      → (d' : Double A) × (insert_after_item v (last 0 is) d ≡ some (d.fresh, d'))
        × (d'.fresh ≡ suc d.fresh)
        × IsList d' (is ++ d.fresh ∷ js) (map d.val is ++ v ∷ map d.val js)
  unfolding insert
  insert_found v = (insert v, insert_run v, refl, insert-IsList v)
