-- ===== src/Contiguous/Extend.antt =====
-- The loop of `extend`: it counts the run of set bits from an index on.
use go_pkgs.Common.{
  ℕ, zero, suc, ◌+◌, ◌-◌, ◌*◌, ◌≤◌, ◌<◌, ◌≡◌, inl, inr, Bool, true, false, Option, some, arith,
  length, if◌then◌else◌, Bool-cases, ℕ_discrete,
}
use go_pkgs.Common.Int.{ℤ, pos, negsuc, leb_ℤ}
use go_pkgs.Bitmap.{Bitmap}
use go_pkgs.Bitmap.Bits.{contains, is_set_unsafe-eq}
use go_pkgs.Contiguous
use go_pkgs.Contiguous.{Contiguous, extend_from, rounds}

-- The number of indices up to `last`.
abbrev pub bound : ℤ → ℕ
bound (pos n) = suc n
bound (negsuc _) = 0

-- How many of the `n` numbers from `i` on satisfy `p` before the first that does not.
unfoldable pub run : (ℕ → Bool) → ℕ → ℕ → ℕ
run p i zero = 0
run p i (suc n) = if p i then suc (run p (i + 1) n) else 0

pub run-le : (p : ℕ → Bool) (i n : ℕ) → run p i n ≤ n
unfolding run
run-le p i zero = omega arith
run-le p i (suc n) = ground (arith, run-le p (i + 1) n)

pub run_all : (p : ℕ → Bool) (i n j : ℕ) → i ≤ j → j < i + run p i n → p j ≡ true
unfolding run
run_all p i zero j lo hi = absurd (omega arith)
run_all p i (suc n) j lo hi = elim (Bool-cases (p i)) [
  | inl here ↦ elim (ℕ_discrete i j) [
    | yes e ↦ rw e at here
    | no ne ↦ run_all p (i + 1) n j (omega arith) (ground arith)
  ]
  | inr past ↦ absurd (ground arith)
]

pub run_end : (p : ℕ → Bool) (i n : ℕ) → run p i n < n → p (i + run p i n) ≡ false
unfolding run
run_end p i zero h = absurd (omega arith)
run_end p i (suc n) h = elim (Bool-cases (p i)) [
  | inl here ↦
      let e : i + suc (run p (i + 1) n) ≡ i + 1 + run p (i + 1) n = omega arith in
      rw (here, e) (run_end p (i + 1) n (ground arith))
  | inr past ↦ let e : i + 0 ≡ i = omega arith in rw (past, e) past
]

pub leb-bound : (last : ℤ) (nb : ℕ) → leb_ℤ (pos nb) last ≡ true → nb < bound last
leb-bound (pos n) nb h = ground arith
leb-bound (negsuc n) nb h = absurd (ground arith)

pub bound-leb : (last : ℤ) (nb : ℕ) → leb_ℤ (pos nb) last ≡ false → bound last ≤ nb
bound-leb (pos n) nb h = ground arith
bound-leb (negsuc n) nb h = omega arith

module _ (bits : Bitmap) (last : ℤ) (room : bound last ≤ length bits * 64) where
  extend_from-run :
      (fuel nb first_clear : ℕ)
      → bound last - nb < fuel
      → extend_from fuel bits last nb first_clear
        ≡ some (first_clear + run (contains bits) nb (bound last - nb))
  unfolding extend_from run
  extend_from-run zero nb fc f = absurd (omega arith)
  extend_from-run (suc fuel) nb fc f = elim (Bool-cases (leb_ℤ (pos nb) last)) [
    | inl more ↦
        let lt = leb-bound last nb more in
        let left : bound last - nb ≡ suc (bound last - (nb + 1)) = omega arith in
        rw (more, is_set_unsafe-eq bits nb (omega arith), left)
          (ground (arith, extend_from-run fuel (nb + 1) (fc + 1) (omega arith)))
    | inr over ↦
        let done : bound last - nb ≡ 0 = omega (arith, bound-leb last nb over) in
        rw (over, done) (ground arith)
  ]

  rounds-lt : (nb : ℕ) → bound last - nb < rounds last
  unfolding rounds
  rounds-lt nb = ground arith

  -- `extend` never panics, and moves firstClear on by the run of set bits from its argument.
  pub extend-run :
      (start fc nb : ℕ) (ch : Option ℕ)
      → let c : Contiguous = record { last = last; start = start; first_clear = fc; ch = ch } in
        Contiguous.extend c bits nb
        ≡ some (record c { first_clear = fc + run (contains bits) nb (bound last - nb) })
  unfolding Contiguous.extend
  extend-run start fc nb ch = rw (extend_from-run (rounds last) nb fc (rounds-lt nb))
