-- ===== src/Common/Equality.antt =====
-- The `==` of Go's comparable types: a test that decides whether two values are the same.
use mathlib.Core.Path.{◌≡◌}
use mathlib.Core.Bool.{Bool, true}
use Prim.Native.Nat.{ℕ}
use native.Mathlib.Omega.{arith}
use go_pkgs.Common.Tests.{◌==◌}

pub record Equality {ℓ} (A : Type ℓ) : Type ℓ where
  pub same : A → A → Bool
  pub same→eq : (x y : A) → same x y ≡ true → x ≡ y
  pub same-refl : (x : A) → same x x ≡ true

pub eq_of_same : (x y : ℕ) → (x == y) ≡ true → x ≡ y
eq_of_same x y h = ground arith

pub same_self : (x : ℕ) → (x == x) ≡ true
same_self x = ground arith

abbrev pub nat_equality : Equality ℕ
nat_equality = record { same = λ x y. x == y; same→eq = eq_of_same; same-refl = same_self }
