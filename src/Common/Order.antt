-- ===== src/Common/Order.antt =====
-- The order of the keys: what the code uses of Go's `<` on integers and strings.
use mathlib.Core.Path.{◌≡◌}
use mathlib.Core.Logic.{inl, inr}
use mathlib.Core.Bool.{Bool, true, false}
use Prim.Native.Nat.{ℕ}
use native.Mathlib.Omega.{arith}
use go_pkgs.Common.Tests.{ltb, Bool-cases}

-- `lt b a ≡ false` says that `a` is at most `b`.
pub record Order {ℓ} (K : Type ℓ) : Type ℓ where
  pub lt : K → K → Bool
  pub asym : (a b : K) → lt a b ≡ true → lt b a ≡ false
  pub trans : (a b c : K) → lt b a ≡ false → lt c b ≡ false → lt c a ≡ false

module _ {ℓ} {K : Type ℓ} where
  pub irrefl : (O : Order K) (a : K) → O.lt a a ≡ false
  irrefl O a = elim (Bool-cases (O.lt a a)) [ inl below ↦ O.asym a a below | inr e ↦ e ]

  abbrev pub flip : Order K → Order K
  flip O = record {
    lt = λ a b. O.lt b a;
    asym = λ a b. O.asym b a;
    trans = λ a b c p q. O.trans c b a q p;
  }

  -- The order by which a heap is sorted: descending if `max`.
  abbrev pub toward : Order K → Bool → Order K
  toward O true = flip O
  toward O false = O

-- The native numbers.
pub ltb_asym : (a b : ℕ) → ltb a b ≡ true → ltb b a ≡ false
ltb_asym a b h = ground arith

pub ltb_trans : (a b c : ℕ) → ltb b a ≡ false → ltb c b ≡ false → ltb c a ≡ false
ltb_trans a b c p q = ground arith

abbrev pub nat_order : Order ℕ
nat_order = record { lt = ltb; asym = ltb_asym; trans = ltb_trans }
