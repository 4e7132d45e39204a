-- ===== src/Common/Finite.antt =====
-- Statements about small numbers, checked by evaluation.
use Prim.Native.Nat.{ℕ, zero, suc, ◌<◌}
use mathlib.Core.Path.{◌≡◌}
use mathlib.Core.Bool.{Bool, true, false, ◌&&◌}
use mathlib.Core.Option.{Option, none, some}
use native.Mathlib.Decide.{ℕ_discrete}
use native.Mathlib.Omega.{arith}
use go_pkgs.Common.Tests.{◌==◌}

-- `p` holds of the `n` numbers below `n`.
unfoldable pub every : (ℕ → Bool) → ℕ → Bool
every p zero = true
every p (suc n) = every p n && p n

pub every_holds : (p : ℕ → Bool) (n : ℕ) → every p n ≡ true → (i : ℕ) → i < n → p i ≡ true
unfolding every
every_holds p zero h i lt = absurd (omega arith)
every_holds p (suc n) h i lt = elim (ℕ_discrete i n) [
  | yes e ↦ rw e (ground arith)
  | no ne ↦ every_holds p n (ground arith) i (omega arith)
]

-- The result is a given number.
abbrev pub yields : Option ℕ → ℕ → Bool
yields none n = false
yields (some m) n = m == n

pub yields→eq : (o : Option ℕ) (n : ℕ) → yields o n ≡ true → o ≡ some n
yields→eq none n h = absurd (ground arith)
yields→eq (some m) n h = ground arith
