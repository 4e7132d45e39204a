-- ===== src/Common/Panic.antt =====
-- Code that may panic at run time: `none` is a panic (an index out of range, a nil pointer, a close
-- of a closed channel), or a loop whose fuel ran out. Every theorem on such code shows `some`.
use Prim.Native.Nat.{ℕ, ◌<◌}
use mathlib.Core.Path.{◌≡◌}
use mathlib.Core.List.{List}
use mathlib.Core.Option.{Option, none, some}
use native.Mathlib.Omega.{arith}
use go_pkgs.Common.Tests.{ltb, if◌then◌else◌}
use go_pkgs.Common.Lists.{length, set}

infixl 5 ◌>>=◌
abbrev pub ◌>>=◌ {ℓ κ} : {A : Type ℓ} {B : Type κ} → Option A → (A → Option B) → Option B
none >>= f = none
some a >>= f = f a

-- `xs[i] = v`
unfoldable pub store {ℓ} : {A : Type ℓ} → List A → ℕ → A → Option (List A)
store xs i v = if ltb i (length xs) then some (set xs i v) else none

pub store-eq_of_lt {ℓ} :
    {A : Type ℓ} (xs : List A) (i : ℕ) (v : A) → i < length xs → store xs i v ≡ some (set xs i v)
unfolding store
store-eq_of_lt xs i v h = ground arith
