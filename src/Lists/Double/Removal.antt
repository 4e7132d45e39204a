-- ===== src/Lists/Double/Removal.antt =====
-- removeItem of an item of the list.
use go_pkgs.Common.{
  ℕ, ◌≤◌, ◌≡◌, ◌≢◌, refl, ap, ap₂, ◌∙◌, List, ◌∷◌, ◌++◌, map, none, some, arith, length,
  length-append, subst,
}
use go_pkgs.Common.Int.{pos, ◌-ℤ◌}
use mathlib.Core.List.{reverse, reverse-append, map-append}
use go_pkgs.Lists.Ring.{
  update, update_other, count, count-append, count-reverse, last, first, first-reverse, last_counts,
  last-reverse, not_counted, IsDistinct, Runs, Runs-first, Runs-after, Runs-frame, Runs-remove,
  reverse_middle,
}
use go_pkgs.Lists.Counts.{map_frame, count_cons, count_removed, count_less, pos_pred}
use go_pkgs.Lists.Double.{Double, remove_item}
use go_pkgs.Lists.Double.Shape.{IsList}

module _ {ℓ} {A : Type ℓ} (unset : A) (d : Double A) (is : List ℕ) (i : ℕ) (js : List ℕ)
    (xs : List A) (h : IsList d (is ++ i ∷ js) xs) where
  back : Runs d.prev 0 (reverse js ++ i ∷ reverse is) 0
  back = rw (reverse_middle is i js) at h.back_links

  prev_eq : d.prev i ≡ some (last 0 is)
  prev_eq =
      rw (first-reverse is 0) at (
        Runs-first d.prev i (reverse is) 0 (Runs-after d.prev 0 (reverse js) i (reverse is) 0 back))

  next_eq : d.next i ≡ some (first js 0)
  next_eq = Runs-first d.next i js 0 (Runs-after d.next 0 is i js 0 h.links)

  gone : count i (0 ∷ is ++ js) ≡ 0
  gone = count_removed i is js h.distinct

  item_ne_last : i ≢ last 0 is
  item_ne_last e = absurd (
      omega (
        arith,
        last_counts 0 is,
        count-append (last 0 is) (0 ∷ is) js,
        subst (λ x. count x (0 ∷ is ++ js) ≡ 0) e gone,
      ))

  without : Double A
  without = record d {
    next = update (update d.next (last 0 is) (d.next i)) i none;
    prev = update (update d.prev (first js 0) (d.prev i)) i none;
    val = update d.val i unset;
    len = d.len -ℤ pos 1;
  }

  remove_run : remove_item unset i d ≡ some without
  unfolding remove_item without
  remove_run = rw (prev_eq, update_other d.next (last 0 is) (d.next i) i item_ne_last, next_eq) refl

  back-IsDistinct : IsDistinct (0 ∷ reverse js ++ i ∷ reverse is)
  unfolding IsDistinct
  back-IsDistinct c = omega (
    arith,
    h.distinct c,
    count_cons c 0 (reverse js ++ i ∷ reverse is),
    count_cons c 0 (is ++ i ∷ js),
    ap (count c) (reverse_middle is i js),
    count-reverse c (is ++ i ∷ js),
  )

  back_gone : count i (0 ∷ reverse js ++ reverse is) ≡ 0
  back_gone = count_removed i (reverse js) (reverse is) back-IsDistinct

  kept : (c : ℕ) → 1 ≤ count c (is ++ js) → update d.val i unset c ≡ d.val c
  kept c k =
      update_other d.val i unset c
        (not_counted i c (is ++ js) (omega (arith, gone, count_cons i 0 (is ++ js))) k)

  less-IsDistinct : IsDistinct (0 ∷ is ++ js)
  unfolding IsDistinct
  less-IsDistinct c = omega (arith, h.distinct c, count_less c i is js)

  without-IsList : IsList without (is ++ js) (map d.val is ++ map d.val js)
  unfolding without
  without-IsList = record {
    links =
        Runs-frame _ _ 0 (is ++ js) 0
          (λ c k. update_other _ i none c (not_counted i c (0 ∷ is ++ js) gone k))
          (Runs-remove d.next 0 is i js 0 h.distinct h.links);
    back_links = rw (reverse-append is js) (
        Runs-frame _ _ 0 (reverse js ++ reverse is) 0
          (λ c k.
            update_other _ i none c (not_counted i c (0 ∷ reverse js ++ reverse is) back_gone k))
          (rw (last-reverse 0 js) at
            (Runs-remove d.prev 0 (reverse js) i (reverse is) 0 back-IsDistinct back)));
    distinct = less-IsDistinct;
    old = λ c above. omega (arith, h.old c above, count_less c i is js);
    vals =
        map-append _ is js
        ∙ ap₂ (λ t u. t ++ u)
            (map_frame d.val (update d.val i unset) is
              (λ c k. kept c (omega (arith, k, count-append c is js))))
            (map_frame d.val (update d.val i unset) js
              (λ c k. kept c (omega (arith, k, count-append c is js))));
    len_eq =
        ap (λ l. l -ℤ pos 1)
          (h.len_eq ∙ ap pos (omega (arith, length-append is (i ∷ js), length-append is js)))
        ∙ pos_pred (length (is ++ js));
  }

  pub remove_found :
      (d' : Double A) × (remove_item unset i d ≡ some d')
      × (d'.fresh ≡ d.fresh)
      × IsList d' (is ++ js) (map d.val is ++ map d.val js)
  unfolding without
  remove_found = (without, remove_run, refl, without-IsList)
