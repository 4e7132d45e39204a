-- ===== src/Lists/Single/Holds.antt =====
-- The items of a singly linked list link in a ring through the sentinel, and its tail is the last; every
-- change of the list keeps it so.
use mathlib.Core.List.{append-nil, map-append}
use go_pkgs.Common.Int.{pos, ◌+ℤ◌, ◌-ℤ◌}
use go_pkgs.Common.{
  ℕ, ◌≤◌, ◌<◌, ◌≡◌, ◌≢◌, sym, ap, ap₂, ◌∙◌, false, List, [], ◌∷◌, ◌++◌, map, none, arith, length,
  ◌==◌, if◌then◌else◌, length-append, subst,
}
use go_pkgs.Lists.Ring.{
  update, update_at, update_other, count, count-append, last, last-append_cons, last_counts,
  not_counted, IsDistinct, Runs, Runs-frame, Runs-remove, Runs-insert,
}
use go_pkgs.Lists.Counts.{
  map_frame, count_cons, count_new, IsDistinct-insert, count_removed, count_less, pos_suc, pos_pred,
}
use go_pkgs.Common.Equality.{same_self}
use go_pkgs.Lists.Single.{Single, insert_after_item, remove_after}

-- The items at `ids` are the list, in order, and hold `xs`.
pub record IsChain {ℓ} {A : Type ℓ} (s : Single A) (ids : List ℕ) (xs : List A) : Type ℓ where
  pub links : Runs s.next 0 ids 0
  pub distinct : IsDistinct (0 ∷ ids)
  pub old : (c : ℕ) → s.fresh ≤ c → count c (0 ∷ ids) ≡ 0
  pub vals : map s.val ids ≡ xs
  pub len_eq : s.len ≡ pos (length ids)
  pub tail_eq : s.tail ≡ last 0 ids
  pub few : length ids < s.fresh

module _ {ℓ} {A : Type ℓ} (s : Single A) (is js : List ℕ) (xs : List A)
    (h : IsChain s (is ++ js) xs) where
  new_counts : count s.fresh (0 ∷ is ++ js) ≡ 0
  new_counts = h.old s.fresh (omega arith)

  same : (v : A) (c : ℕ) → 1 ≤ count c (is ++ js) → update s.val s.fresh v c ≡ s.val c
  same v c k = update_other s.val s.fresh v c (
      not_counted s.fresh c (is ++ js) (omega (arith, new_counts, count_cons s.fresh 0 (is ++ js)))
        k)

  -- The list after insertAfterItem, with any tail that is right.
  pub inserted-IsChain :
      (v : A) (t : ℕ)
      → t ≡ last 0 (is ++ s.fresh ∷ js)
      → IsChain
          (record (insert_after_item v (last 0 is) s).1 { tail = t })
          (is ++ s.fresh ∷ js)
          (map s.val is ++ v ∷ map s.val js)
  unfolding insert_after_item
  inserted-IsChain v t e = record {
    links = Runs-insert s.next 0 is s.fresh js 0 h.distinct new_counts h.links;
    distinct = IsDistinct-insert is s.fresh js h.distinct new_counts;
    old = λ c above. count_new c is s.fresh js above (h.old c (omega (arith, above)));
    vals =
        map-append _ is (s.fresh ∷ js)
        ∙ ap₂ (λ t u. t ++ u)
            (map_frame s.val (update s.val s.fresh v) is
              (λ c k. same v c (omega (arith, k, count-append c is js))))
            (ap₂ (λ x t. x ∷ t) (update_at s.val s.fresh v)
              (map_frame s.val (update s.val s.fresh v) js
                (λ c k. same v c (omega (arith, k, count-append c is js)))));
    len_eq =
        ap (λ l. l +ℤ pos 1) h.len_eq
        ∙ pos_suc (length (is ++ js))
        ∙ ap pos (omega (arith, length-append is js, length-append is (s.fresh ∷ js)));
    tail_eq = e;
    few = omega (arith, h.few, length-append is js, length-append is (s.fresh ∷ js));
  }

differ : (x y : ℕ) → x ≢ y → (x == y) ≡ false
differ x y h = ground arith

tail_after :
    (is : List ℕ) (i : ℕ) (js : List ℕ) (t : ℕ)
    → IsDistinct (0 ∷ is ++ i ∷ js)
    → t ≡ last 0 (is ++ i ∷ js)
    → (if t == i then last 0 is else t) ≡ last 0 (is ++ js)
unfolding last
tail_after is i [] t dis e =
    rw (e, last-append_cons 0 is i [], append-nil is)
      (ap (λ b. if b then last 0 is else i) (same_self i))
tail_after is i (j ∷ js) t dis e =
    let at : t ≡ last j js = e ∙ last-append_cons 0 is i (j ∷ js) in
    let apart : t ≢ i =
      not_counted i t (is ++ j ∷ js)
        (omega (arith, count_removed i is (j ∷ js) dis, count_cons i 0 (is ++ j ∷ js)))
        (omega (
          arith,
          count-append t is (j ∷ js),
          subst (λ x. 1 ≤ count x (j ∷ js)) (sym at) (last_counts j js),
        )) in
    rw (differ t i apart) (at ∙ sym (last-append_cons 0 is j js))

module _ {ℓ} {A : Type ℓ} (unset : A) (s : Single A) (is : List ℕ) (i : ℕ) (js : List ℕ)
    (xs : List A) (h : IsChain s (is ++ i ∷ js) xs) where
  gone : count i (0 ∷ is ++ js) ≡ 0
  gone = count_removed i is js h.distinct

  kept : (c : ℕ) → 1 ≤ count c (is ++ js) → update s.val i unset c ≡ s.val c
  kept c k =
      update_other s.val i unset c
        (not_counted i c (is ++ js) (omega (arith, gone, count_cons i 0 (is ++ js))) k)

  less-IsDistinct : IsDistinct (0 ∷ is ++ js)
  unfolding IsDistinct
  less-IsDistinct c = omega (arith, h.distinct c, count_less c i is js)

  pub removed-IsChain :
      IsChain (remove_after unset (last 0 is) i s) (is ++ js) (map s.val is ++ map s.val js)
  unfolding remove_after
  removed-IsChain = record {
    links =
        Runs-frame _ _ 0 (is ++ js) 0
          (λ c k. update_other _ i none c (not_counted i c (0 ∷ is ++ js) gone k))
          (Runs-remove s.next 0 is i js 0 h.distinct h.links);
    distinct = less-IsDistinct;
    old = λ c above. omega (arith, h.old c above, count_less c i is js);
    vals =
        map-append _ is js
        ∙ ap₂ (λ t u. t ++ u)
            (map_frame s.val (update s.val i unset) is
              (λ c k. kept c (omega (arith, k, count-append c is js))))
            (map_frame s.val (update s.val i unset) js
              (λ c k. kept c (omega (arith, k, count-append c is js))));
    len_eq =
        ap (λ l. l -ℤ pos 1)
          (h.len_eq ∙ ap pos (omega (arith, length-append is (i ∷ js), length-append is js)))
        ∙ pos_pred (length (is ++ js));
    tail_eq = tail_after is i js s.tail h.distinct h.tail_eq;
    few = omega (arith, h.few, length-append is (i ∷ js), length-append is js);
  }
