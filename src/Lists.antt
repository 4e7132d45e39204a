-- ===== src/Lists.antt =====
-- algo/container/list: linked lists with a sentinel, as items at addresses. The fields of the items are
-- functions from addresses, the sentinel's address is 0, a nil pointer is `none`, and `fresh` is the
-- address of the next item. `none` is a nil dereference, or a loop whose fuel ran out.
pub mod Ring
pub mod Counts
pub mod Entries
pub mod Matches
pub mod Iterate
pub mod Double
pub mod Single
use go_pkgs.Common.Int.{ℤ, pos, negsuc}
use go_pkgs.Common.{ℕ, zero, suc, Bool, true, false, Option, none, some, ◌==◌, if◌then◌else◌}

-- `len == 0`
unfoldable pub is_zero : ℤ → Bool
is_zero (pos n) = n == 0
is_zero (negsuc n) = false

-- The loop of Forward and of Reverse, from the item `n`, whose items link by `next`.
pub iterate {ℓ κ} :
    {A : Type ℓ} {S : Type κ}
    → (ℕ → Option ℕ)
    → (ℕ → A)
    → (S → A → S × Bool)
    → ℕ
    → Option ℕ
    → S
    → Option S
iterate next val yield zero n s = none
iterate next val yield (suc fuel) none s = none
iterate next val yield (suc fuel) (some n) s = elim (n == 0) [
  | true ↦ some s
  | false ↦
      let (s', more) = yield s (val n) in
      elim more [ true ↦ iterate next val yield fuel (next n) s' | false ↦ some s' ]
]
