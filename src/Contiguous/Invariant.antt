-- ===== src/Contiguous/Invariant.antt =====
-- The invariant of a tracked bitmap.
use go_pkgs.Common.{
  ℕ, zero, suc, ◌*◌, ◌≤◌, ◌<◌, ◌≡◌, true, false, ◌&&◌, List, [], ◌∷◌, some, arith, length,
  get_elem?, leb, ◌==◌,
}
use go_pkgs.Common.Int.{ℤ, pos, negsuc, leb_ℤ, ltb_ℤ}
use go_pkgs.Bitmap.Bits.{contains}
use go_pkgs.Contiguous.{Contiguous, Store}
use go_pkgs.Contiguous.Extend.{bound}

-- firstClear is the first clear index from `start` on, or one past the last; and the outstanding
-- channel is closed exactly when the whole range is set.
pub record IsTracking (c : Contiguous) (s : Store) : Type 0 where
  pub room : bound c.last ≤ length s.bits * 64
  pub lower : c.start ≤ c.first_clear
  pub upper : c.first_clear ≤ bound c.last
  pub run_set : (j : ℕ) → c.start ≤ j → j < c.first_clear → contains s.bits j ≡ true
  pub stops : c.first_clear < bound c.last → contains s.bits c.first_clear ≡ false
  pub channel :
      (id : ℕ) → c.ch ≡ some id → get_elem? s.channels id ≡ some (leb (bound c.last) c.first_clear)

pub get_elem?-lt {ℓ} :
    {A : Type ℓ} (xs : List A) (i : ℕ) {v : A} → get_elem? xs i ≡ some v → i < length xs
get_elem?-lt [] i h = cc
get_elem?-lt (x ∷ xs) zero h = omega arith
get_elem?-lt (x ∷ xs) (suc i) h = omega (arith, get_elem?-lt xs i h)

pub ltb_ℤ-bound : (last : ℤ) (i : ℕ) → ltb_ℤ last (pos i) ≡ false → i < bound last
ltb_ℤ-bound (pos n) i h = ground arith
ltb_ℤ-bound (negsuc n) i h = absurd (ground arith)

pub leb_ℤ-of-lt : (last : ℤ) (j : ℕ) → j < bound last → leb_ℤ (pos j) last ≡ true
leb_ℤ-of-lt (pos n) j h = ground arith
leb_ℤ-of-lt (negsuc n) j h = absurd (omega arith)

pub beyond :
    (last : ℤ) (i j : ℕ) → ltb_ℤ last (pos i) ≡ true → (i == j && leb_ℤ (pos j) last) ≡ false
beyond (pos n) i j h = ground arith
beyond (negsuc n) i j h = ground arith

pub ltb_ℤ-leb : (last : ℤ) (fc : ℕ) → ltb_ℤ last (pos fc) ≡ leb (bound last) fc
ltb_ℤ-leb (pos n) fc = ground arith
ltb_ℤ-leb (negsuc n) fc = ground arith
