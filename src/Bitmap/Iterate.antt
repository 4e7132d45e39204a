-- ===== src/Bitmap/Iterate.antt =====
-- AllSet and AllClear: which indices an iteration hands to its caller, and in which order.
use native.Mathlib.Numerals.{add-one}
use go_pkgs.Common.{
  ℕ, zero, suc, ◌+◌, ◌-◌, ◌*◌, ◌<◌, ◌≡◌, refl, ◌∙◌, ap, inl, inr, Bool, true, false, not, List, [],
  ◌∷◌, Option, none, some, arith, length, if◌then◌else◌, Bool-cases, Option-cases,
}
use go_pkgs.Common.Int.{ℤ, pos, negsuc, pos_part}
use go_pkgs.Bitmap
use go_pkgs.Bitmap.{Bitmap, minus_one, last_of, iterate}
use go_pkgs.Bitmap.Bits.{contains}
use go_pkgs.Bitmap.Scan.{
  first, index_or_minus_one, next_set_lem, next_clear_lem, first-found, last_of-le,
}

-- A loop over numbers that its body can leave early.
unfoldable pub for_each {ℓ} : {S : Type ℓ} → (ℕ → S → Bool × S) → List ℕ → S → S
for_each yield [] s = s
for_each yield (n ∷ ns) s =
    let (more, s') = yield n s in let rest = for_each yield ns s' in if more then rest else s'

-- The numbers from `i` on, `n` of them, that satisfy `p`, in ascending order.
unfoldable pub select : (ℕ → Bool) → ℕ → ℕ → List ℕ
select p i zero = []
select p i (suc n) = if p i then i ∷ select p (i + 1) n else select p (i + 1) n

select-first-none : (p : ℕ → Bool) (i n : ℕ) → first p i n ≡ none → select p i n ≡ []
unfolding select first
select-first-none p i zero h = refl
select-first-none p i (suc n) h = ground (arith, select-first-none p (i + 1) n)

select-first-some :
    (p : ℕ → Bool) (i n k : ℕ)
    → first p i n ≡ some k
    → select p i n ≡ k ∷ select p (k + 1) (i + n - (k + 1))
unfolding select first
select-first-some p i zero k h = absurd (cc)
select-first-some p i (suc n) k h = elim (Bool-cases (p i)) [
  | inl here ↦
      let e : i ≡ k = ground arith in
      let count : i + suc n - (i + 1) ≡ n = omega arith in rw (here, ← e, count)
  | inr past ↦
      let count : i + 1 + n - (k + 1) ≡ i + suc n - (k + 1) = omega arith in
      rw past
        (select-first-some p (i + 1) n k (ground arith) ∙ ap (λ c. k ∷ select p (k + 1) c) count)
]

if_some {ℓ} :
    {A : Type ℓ} (b : Bool) (x y : A) → (if b then some x else some y) ≡ some (if b then x else y)
if_some true x y = refl
if_some false x y = refl

module _ {ℓ} {S : Type ℓ} (next : ℤ → Option ℤ) (yield : ℕ → S → Bool × S) (p : ℕ → Bool) (last : ℕ)
    (next_lem : (i : ℕ) → next (pos i) ≡ some (index_or_minus_one (first p i (last - i)))) where
  iterate-select :
      (fuel i : ℕ) (s : S)
      → last - i < fuel
      → iterate next yield fuel (next (pos i)) s ≡ some (for_each yield (select p i (last - i)) s)
  unfolding iterate for_each
  iterate-select zero i s f = absurd (omega arith)
  iterate-select (suc fuel) i s f = elim (Option-cases (first p i (last - i))) [
    | inl nothing ↦ rw (next_lem i, nothing, select-first-none p i (last - i) nothing)
    | inr (k, found) ↦
        let (lower, upper, _, _) = first-found p i (last - i) k found in
        let count : i + (last - i) - (k + 1) ≡ last - (k + 1) = omega arith in
        let rest = iterate-select fuel (k + 1) (yield k s).1 (omega arith) in
        rw (next_lem i, found, select-first-some p i (last - i) k found, count)
          (rw rest (if_some (yield k s).0 _ _))
  ]

iterate_stops {ℓ} :
    {S : Type ℓ} (next : ℤ → Option ℤ) (yield : ℕ → S → Bool × S) (f k : ℕ) (s : S)
    → iterate next yield (f + 1) (some (negsuc k)) s ≡ some s
unfolding iterate
iterate_stops next yield f k s = rw add-one

-- The indices that an iteration visits: those that satisfy `p`, ascending, from `start` up to the
-- bitmap's end or `size`.
abbrev pub visited : (ℕ → Bool) → Bitmap → ℤ → ℤ → List ℕ
visited p b (negsuc _) size = []
visited p b (pos start) size = select p start (pos_part (last_of b size) - start)

-- AllSet(start, size) hands to its caller the set bits from `start` on, below `size` and the bitmap's
-- end, each once and in ascending order, until the caller stops it; none if `start` is negative. It
-- ends and never panics.
pub all_set_lem {ℓ} :
    {S : Type ℓ} (b : Bitmap) (start size : ℤ) (yield : ℕ → S → Bool × S) (s : S)
    → Bitmap.all_set b start size yield s
      ≡ some (for_each yield (visited (contains b) b start size) s)
unfolding Bitmap.all_set iterate for_each
all_set_lem b (negsuc n) size yield s =
    rw (next_set_lem b (negsuc n) size)
      (iterate_stops (λ i. Bitmap.next_set b i size) yield (length b * 64) 0 s)
all_set_lem b (pos start) size yield s =
    iterate-select (λ i. Bitmap.next_set b i size) yield (contains b) (pos_part (last_of b size))
      (λ i. next_set_lem b (pos i) size) (length b * 64 + 1) start s
      (omega (arith, last_of-le b size))

-- AllClear(start, size) hands to its caller the clear bits from `start` on, below `size` and the
-- bitmap's end, each once and in ascending order, until the caller stops it; none if `start` is
-- negative. It ends and never panics.
pub all_clear_lem {ℓ} :
    {S : Type ℓ} (b : Bitmap) (start size : ℤ) (yield : ℕ → S → Bool × S) (s : S)
    → Bitmap.all_clear b start size yield s
      ≡ some (for_each yield (visited (λ i. not (contains b i)) b start size) s)
unfolding Bitmap.all_clear iterate for_each
all_clear_lem b (negsuc n) size yield s =
    rw (next_clear_lem b (negsuc n) size)
      (iterate_stops (λ i. Bitmap.next_clear b i size) yield (length b * 64) 0 s)
all_clear_lem b (pos start) size yield s =
    iterate-select (λ i. Bitmap.next_clear b i size) yield (λ i. not (contains b i))
      (pos_part (last_of b size)) (λ i. next_clear_lem b (pos i) size) (length b * 64 + 1) start s
      (omega (arith, last_of-le b size))
