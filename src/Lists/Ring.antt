-- ===== src/Lists/Ring.antt =====
-- Links that run through distinct addresses: what redirecting a link does to them.
use go_pkgs.Common.{
  ℕ, suc, ◌+◌, ◌≤◌, ◌≡◌, ◌≢◌, refl, sym, ap, ◌∙◌, true, false, List, [], ◌∷◌, ◌++◌, Option, some,
  arith, ◌==◌, if◌then◌else◌, subst, length, length-append, ℕ_discrete, ◌⊎◌, inl, inr,
}
use mathlib.Core.List.{reverse, reverse-append, reverse-cons, append_assoc}

-- `f` with another value at `a`.
unfoldable pub update {ℓ} : {V : Type ℓ} → (ℕ → V) → ℕ → V → ℕ → V
update f a v c = if c == a then v else f c

module _ {ℓ} {V : Type ℓ} (f : ℕ → V) (a : ℕ) (v : V) where
  pub update_at : update f a v a ≡ v
  unfolding update
  update_at = rw (same a) refl
    where
      same : (x : ℕ) → (x == x) ≡ true
      same x = ground arith

  pub update_other : (c : ℕ) → c ≢ a → update f a v c ≡ f c
  unfolding update
  update_other c ne = rw (other c a ne) refl
    where
      other : (x y : ℕ) → x ≢ y → (x == y) ≡ false
      other x y h = ground arith

-- How often an address occurs.
unfoldable pub count : ℕ → List ℕ → ℕ
count c [] = 0
count c (a ∷ xs) = (if c == a then 1 else 0) + count c xs

pub count-append : (c : ℕ) (xs ys : List ℕ) → count c (xs ++ ys) ≡ count c xs + count c ys
unfolding count
count-append c [] ys = omega arith
count-append c (a ∷ xs) ys = omega (arith, count-append c xs ys)

pub count-reverse : (c : ℕ) (xs : List ℕ) → count c (reverse xs) ≡ count c xs
unfolding count
count-reverse c [] = refl
count-reverse c (a ∷ xs) =
    rw (reverse-cons a xs, count-append c (reverse xs) (a ∷ [])) (omega (arith, count-reverse c xs))

pub count_head : (c a : ℕ) (xs : List ℕ) → count c (a ∷ xs) ≡ 0 → c ≢ a
unfolding count
count_head c a xs h e = ground arith

pub count_self : (a : ℕ) (xs : List ℕ) → count a (a ∷ xs) ≡ suc (count a xs)
unfolding count
count_self a xs = ground arith

pub count_tail : (c a : ℕ) (xs : List ℕ) → count c xs ≤ count c (a ∷ xs)
unfolding count
count_tail c a xs = ground arith

-- The last of `a` and `xs`, and the first of `xs` and `b`.
unfoldable pub last : ℕ → List ℕ → ℕ
last a [] = a
last a (b ∷ ys) = last b ys

unfoldable pub first : List ℕ → ℕ → ℕ
first [] b = b
first (a ∷ xs) b = a

pub last_counts : (a : ℕ) (xs : List ℕ) → 1 ≤ count (last a xs) (a ∷ xs)
unfolding last count
last_counts a [] = omega (arith, count_self a [])
last_counts a (b ∷ ys) = omega (arith, last_counts b ys, count_tail (last b ys) a (b ∷ ys))

pub first-append : (xs : List ℕ) (a : ℕ) (b : ℕ) → first (xs ++ a ∷ []) b ≡ first xs a
unfolding first
first-append [] a b = refl
first-append (x ∷ xs) a b = refl

pub first-reverse : (xs : List ℕ) (a : ℕ) → first (reverse xs) a ≡ last a xs
unfolding first last
first-reverse [] a = refl
first-reverse (b ∷ ys) a =
    rw (reverse-cons b ys) (first-append (reverse ys) b a ∙ first-reverse ys b)

-- No address occurs twice.
unfoldable pub IsDistinct : List ℕ → Type 0
IsDistinct xs = (c : ℕ) → count c xs ≤ 1

-- The links of `f` run from `p` through `xs` to `q`.
unfoldable pub Runs : (ℕ → Option ℕ) → ℕ → List ℕ → ℕ → Type 0
Runs f p [] q = f p ≡ some q
Runs f p (a ∷ xs) q = (f p ≡ some a) × Runs f a xs q

pub Runs-first :
    (f : ℕ → Option ℕ) (p : ℕ) (xs : List ℕ) (q : ℕ) → Runs f p xs q → f p ≡ some (first xs q)
unfolding Runs first
Runs-first f p [] q r = r
Runs-first f p (a ∷ xs) q r = r.0

pub Runs-after :
    (f : ℕ → Option ℕ) (p : ℕ) (xs : List ℕ) (d : ℕ) (ys : List ℕ) (q : ℕ)
    → Runs f p (xs ++ d ∷ ys) q
    → Runs f d ys q
unfolding Runs
Runs-after f p [] d ys q (e, r) = r
Runs-after f p (a ∷ xs) d ys q (e, r) = Runs-after f a xs d ys q r

pub Runs-frame :
    (f g : ℕ → Option ℕ) (p : ℕ) (xs : List ℕ) (q : ℕ)
    → ((c : ℕ) → 1 ≤ count c (p ∷ xs) → g c ≡ f c)
    → Runs f p xs q
    → Runs g p xs q
unfolding Runs
Runs-frame f g p [] q same r = same p (omega (arith, count_self p [])) ∙ r
Runs-frame f g p (a ∷ xs) q same (e, r) = (
  same p (omega (arith, count_self p (a ∷ xs))) ∙ e,
  Runs-frame f g a xs q (λ c h. same c (omega (arith, count_tail c p (a ∷ xs)))) r,
)

IsDistinct-apart : (p : ℕ) (xs : List ℕ) → IsDistinct (p ∷ xs) → (c : ℕ) → 1 ≤ count c xs → c ≢ p
unfolding IsDistinct
IsDistinct-apart p xs dis c h e =
    absurd (omega (arith, dis p, count_self p xs, subst (λ x. 1 ≤ count x xs) e h))

IsDistinct-tail : (p : ℕ) (xs : List ℕ) → IsDistinct (p ∷ xs) → IsDistinct xs
unfolding IsDistinct
IsDistinct-tail p xs dis c = omega (arith, dis c, count_tail c p xs)

pub IsDistinct-head : (p : ℕ) (xs : List ℕ) → IsDistinct (p ∷ xs) → count p xs ≡ 0
unfolding IsDistinct
IsDistinct-head p xs dis = omega (arith, dis p, count_self p xs)

-- The link to `d` redirected to where `d` links to.
pub Runs-remove :
    (f : ℕ → Option ℕ) (p : ℕ) (xs : List ℕ) (d : ℕ) (ys : List ℕ) (q : ℕ)
    → IsDistinct (p ∷ xs ++ d ∷ ys)
    → Runs f p (xs ++ d ∷ ys) q
    → Runs (update f (last p xs) (f d)) p (xs ++ ys) q
unfolding Runs last
Runs-remove f p [] d [] q dis (e, r) = update_at f p (f d) ∙ r
Runs-remove f p [] d (y ∷ ys) q dis (e, (e', r)) = (
  update_at f p (f d) ∙ e',
  Runs-frame f (update f p (f d)) y ys q
      (λ c h.
        update_other f p (f d) c
          (IsDistinct-apart p (d ∷ y ∷ ys) dis c (omega (arith, count_tail c d (y ∷ ys)))))
      r,
)
Runs-remove f p (x ∷ xs) d ys q dis (e, r) = (
  update_other f (last x xs) (f d) p (λ h.
        IsDistinct-apart p (x ∷ xs ++ d ∷ ys) dis (last x xs)
          (omega (arith, last_counts x xs, count-append (last x xs) (x ∷ xs) (d ∷ ys))) (sym h))
      ∙ e,
  Runs-remove f x xs d ys q (IsDistinct-tail p (x ∷ xs ++ d ∷ ys) dis) r,
)

pub not_counted : (n c : ℕ) (xs : List ℕ) → count n xs ≡ 0 → 1 ≤ count c xs → c ≢ n
not_counted n c xs h k e = absurd (omega (arith, subst (λ x. 1 ≤ count x xs) e k))

Runs-new :
    (f : ℕ → Option ℕ) (p n : ℕ) (ys : List ℕ) (q : ℕ)
    → IsDistinct (p ∷ ys)
    → count n (p ∷ ys) ≡ 0
    → Runs f p ys q
    → Runs (update (update f n (f p)) p (some n)) n ys q
unfolding Runs
Runs-new f p n [] q dis new r =
    update_other (update f n (f p)) p (some n) n (count_head n p [] new) ∙ update_at f n (f p) ∙ r
Runs-new f p n (y ∷ ys) q dis new (e, r) = (
  update_other (update f n (f p)) p (some n) n (count_head n p (y ∷ ys) new)
      ∙ update_at f n (f p)
      ∙ e,
  Runs-frame f _ y ys q
      (λ c h.
        update_other (update f n (f p)) p (some n) c (IsDistinct-apart p (y ∷ ys) dis c h)
        ∙ update_other f n (f p) c
            (not_counted n c (p ∷ y ∷ ys) new (omega (arith, h, count_tail c p (y ∷ ys)))))
      r,
)

-- A new address `n` after the last of `xs`.
pub Runs-insert :
    (f : ℕ → Option ℕ) (p : ℕ) (xs : List ℕ) (n : ℕ) (ys : List ℕ) (q : ℕ)
    → IsDistinct (p ∷ xs ++ ys)
    → count n (p ∷ xs ++ ys) ≡ 0
    → Runs f p (xs ++ ys) q
    → Runs (update (update f n (f (last p xs))) (last p xs) (some n)) p (xs ++ n ∷ ys) q
unfolding Runs last
Runs-insert f p [] n ys q dis new r =
    (update_at (update f n (f p)) p (some n), Runs-new f p n ys q dis new r)
Runs-insert f p (x ∷ xs) n ys q dis new (e, r) = (
  update_other (update f n (f (last x xs))) (last x xs) (some n) p (λ h.
        IsDistinct-apart p (x ∷ xs ++ ys) dis (last x xs)
          (omega (arith, last_counts x xs, count-append (last x xs) (x ∷ xs) ys)) (sym h))
      ∙ update_other f n (f (last x xs)) p (λ h. count_head n p (x ∷ xs ++ ys) new (sym h))
      ∙ e,
  Runs-insert f x xs n ys q (IsDistinct-tail p (x ∷ xs ++ ys) dis)
      (omega (arith, new, count_tail n p (x ∷ xs ++ ys))) r,
)

pub last-append : (a b : ℕ) (xs : List ℕ) → last a (xs ++ b ∷ []) ≡ b
unfolding last
last-append a b [] = refl
last-append a b (x ∷ xs) = last-append x b xs

pub last-reverse : (a : ℕ) (xs : List ℕ) → last a (reverse xs) ≡ first xs a
unfolding last first
last-reverse a [] = refl
last-reverse a (x ∷ xs) = rw (reverse-cons x xs) (last-append a x (reverse xs))

pub reverse_middle :
    (xs : List ℕ) (n : ℕ) (ys : List ℕ) → reverse (xs ++ n ∷ ys) ≡ reverse ys ++ n ∷ reverse xs
reverse_middle xs n ys =
    reverse-append xs (n ∷ ys)
    ∙ ap (λ t. t ++ reverse xs) (reverse-cons n ys)
    ∙ append_assoc (reverse ys) (n ∷ []) (reverse xs)

pub Runs-last :
    (f : ℕ → Option ℕ) (p : ℕ) (xs ys : List ℕ) (q : ℕ)
    → Runs f p (xs ++ ys) q
    → f (last p xs) ≡ some (first ys q)
unfolding Runs last
Runs-last f p [] ys q r = Runs-first f p ys q r
Runs-last f p (x ∷ xs) ys q (e, r) = Runs-last f x xs ys q r

pub count_cases : (c a : ℕ) (xs : List ℕ) → 1 ≤ count c (a ∷ xs) → (c ≡ a) ⊎ (1 ≤ count c xs)
unfolding count
count_cases c a xs h = elim (ℕ_discrete c a) [ yes e ↦ inl e | no ne ↦ inr (ground arith) ]

pub length-reverse : (ids : List ℕ) → length (reverse ids) ≡ length ids
length-reverse [] = refl
length-reverse (i ∷ ids) =
    rw (reverse-cons i ids)
      (omega (arith, length-append (reverse ids) (i ∷ []), length-reverse ids))

pub last-append_cons :
    (a : ℕ) (xs : List ℕ) (b : ℕ) (ys : List ℕ) → last a (xs ++ b ∷ ys) ≡ last b ys
unfolding last
last-append_cons a [] b ys = refl
last-append_cons a (x ∷ xs) b ys = last-append_cons x xs b ys
