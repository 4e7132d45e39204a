-- ===== src/Common/Loop.antt =====
-- Counting loops whose rounds may panic, and the rule for their invariants.
use Prim.Native.Nat.{ℕ, zero, suc, ◌+◌, ◌≤◌, ◌<◌}
use mathlib.Core.Path.{◌≡◌, refl, ap, subst}
use mathlib.Core.Option.{Option, some}
use native.Mathlib.Omega.{arith}
use go_pkgs.Common.Panic.{◌>>=◌}

-- `rounds` rounds, the first at index `i`.
unfoldable pub for {ℓ} : {S : Type ℓ} (rounds i : ℕ) → (ℕ → S → Option S) → S → Option S
for zero i body s = some s
for (suc n) i body s = body i s >>= for n (suc i) body

-- The run does not panic, and its value satisfies `P`.
pub data Gives {ℓ κ} {A : Type ℓ} (P : A → Type κ) : Option A → Type (ℓ ⊔ κ) where
  gives : {a : A} → P a → Gives P (some a)

module _ {ℓ κ} {A : Type ℓ} {P : A → Type κ} where
  pub Gives-bind {ℓ' κ'} :
      {B : Type ℓ'} {Q : B → Type κ'} {r : Option A} {f : A → Option B}
      → Gives P r
      → ((a : A) → P a → Gives Q (f a))
      → Gives Q (r >>= f)
  Gives-bind (gives p) k = k _ p

  pub Gives-map {κ'} :
      {Q : A → Type κ'} {r : Option A} → Gives P r → ((a : A) → P a → Q a) → Gives Q r
  Gives-map (gives p) k = gives (k _ p)

  pub Gives-exists : {r : Option A} → Gives P r → (a : A) × (r ≡ some a) × P a
  Gives-exists (gives {a} p) = (a, refl, p)

pub Gives-eq {ℓ} : {A : Type ℓ} {x : A} {r : Option A} → Gives (λ y. y ≡ x) r → r ≡ some x
Gives-eq (gives e) = ap some e

pub for-Gives {ℓ κ} :
    {S : Type ℓ} (P : ℕ → S → Type κ) (stop : ℕ) (body : ℕ → S → Option S) (n i : ℕ) (s : S)
    → i + n ≡ stop
    → ((k : ℕ) (t : S) → i ≤ k → k < stop → P k t → Gives (P (suc k)) (body k t))
    → P i s
    → Gives (P stop) (for n i body s)
unfolding for
for-Gives P stop body zero i s e keep p = gives (subst (λ k. P k s) (omega arith) p)
for-Gives P stop body (suc n) i s e keep p =
    Gives-bind (keep i s (omega arith) (omega arith) p)
      (λ t. for-Gives P stop body n (suc i) t (omega arith) (λ k u lo. keep k u (omega arith)))
