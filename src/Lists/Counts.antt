-- ===== src/Lists/Counts.antt =====
-- Addresses of a list that gains or loses one, and the elements at them.
use go_pkgs.Common.{ℕ, suc, ◌+◌, ◌≤◌, ◌≡◌, refl, ap₂, List, [], ◌∷◌, ◌++◌, map, arith}
use go_pkgs.Common.Int.{pos, ◌+ℤ◌, ◌-ℤ◌}
use mathlib.Core.List.{reverse}
use go_pkgs.Lists.Ring.{count, count-append, count-reverse, count_self, count_tail, IsDistinct}

pub count_insert :
    (c : ℕ) (is : List ℕ) (n : ℕ) (js : List ℕ) → count c (is ++ n ∷ js) ≡ count c (n ∷ is ++ js)
unfolding count
count_insert c is n js = omega (arith, count-append c is (n ∷ js), count-append c is js)

pub count_cons : (c p : ℕ) (xs : List ℕ) → count c (p ∷ xs) ≡ count c (p ∷ []) + count c xs
unfolding count
count_cons c p xs = omega arith

pub count_new :
    (c : ℕ) (is : List ℕ) (n : ℕ) (js : List ℕ)
    → suc n ≤ c
    → count c (0 ∷ is ++ js) ≡ 0
    → count c (0 ∷ is ++ n ∷ js) ≡ 0
unfolding count
count_new c is n js above none_yet = ground (arith, count_insert c is n js)

pub IsDistinct-insert :
    (is : List ℕ) (n : ℕ) (js : List ℕ)
    → IsDistinct (0 ∷ is ++ js)
    → count n (0 ∷ is ++ js) ≡ 0
    → IsDistinct (0 ∷ is ++ n ∷ js)
unfolding IsDistinct count
IsDistinct-insert is n js dis new c = ground (arith, dis c, count_insert c is n js)

pub IsDistinct-reverse :
    (is js : List ℕ) → IsDistinct (0 ∷ is ++ js) → IsDistinct (0 ∷ reverse js ++ reverse is)
unfolding IsDistinct
IsDistinct-reverse is js dis c = omega (
  arith,
  dis c,
  count_cons c 0 (is ++ js),
  count_cons c 0 (reverse js ++ reverse is),
  count-append c is js,
  count-append c (reverse js) (reverse is),
  count-reverse c is,
  count-reverse c js,
)

pub pos_suc : (n : ℕ) → pos n +ℤ pos 1 ≡ pos (suc n)
unfolding ◌+ℤ◌
pos_suc n = ground arith

pub pos_pred : (n : ℕ) → pos (suc n) -ℤ pos 1 ≡ pos n
unfolding ◌-ℤ◌
pos_pred n = ground arith

pub count_removed :
    (i : ℕ) (is js : List ℕ) → IsDistinct (0 ∷ is ++ i ∷ js) → count i (0 ∷ is ++ js) ≡ 0
unfolding IsDistinct count
count_removed i is js dis = ground (arith, dis i, count_insert i is i js)

pub count_less : (c i : ℕ) (is js : List ℕ) → count c (0 ∷ is ++ js) ≤ count c (0 ∷ is ++ i ∷ js)
unfolding count
count_less c i is js = ground (arith, count_insert c is i js)

module _ {ℓ} {A : Type ℓ} where
  pub map_frame :
      (f g : ℕ → A) (ids : List ℕ) → ((c : ℕ) → 1 ≤ count c ids → g c ≡ f c) → map g ids ≡ map f ids
  map_frame f g [] same = refl
  map_frame f g (a ∷ ids) same =
      ap₂ (λ x xs. x ∷ xs) (same a (omega (arith, count_self a ids)))
        (map_frame f g ids (λ c h. same c (omega (arith, h, count_tail c a ids))))
