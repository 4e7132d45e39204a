-- ===== src/Lists/Single.antt =====
-- algo/container/list/single.go: the singly linked list. Its tail is never nil once NewSingle has reset it.
pub mod Holds
pub mod Steps
pub mod Refine
pub mod Find
mod Tests
use go_pkgs.Common.Int.{ℤ, pos, ◌+ℤ◌, ◌-ℤ◌}
use go_pkgs.Common.{
  ℕ, zero, suc, ◌+◌, Bool, true, false, Option, none, some, ◌>>=◌, ◌==◌, if◌then◌else◌,
}
use go_pkgs.Lists.{is_zero, iterate}
use go_pkgs.Lists.Ring.{update}

pub record Single {ℓ} (A : Type ℓ) : Type ℓ where
  pub next : ℕ → Option ℕ
  pub val : ℕ → A
  pub fresh : ℕ
  pub tail : ℕ
  pub len : ℤ

-- `len == 1`
pub is_one : ℤ → Bool
is_one l = is_zero (l -ℤ pos 1)

module _ {ℓ} {A : Type ℓ} where
  pub reset : Single A → Single A
  reset s = record s { len = pos 0; next = update s.next 0 (some 0); tail = 0 }

  -- insertAfterItem, which returns the address of the new item.
  pub insert_after_item : A → ℕ → Single A → ℕ × Single A
  insert_after_item v it s =
      let n = s.fresh in
      let next₁ = update s.next n (s.next it) in
      (
        n,
        record s {
          next = update next₁ it (some n);
          val = update s.val n v;
          fresh = suc n;
          len = s.len +ℤ pos 1;
        },
      )

  pub append : A → Single A → ℕ × Single A
  append v s = let (n, s') = insert_after_item v s.tail s in (n, record s' { tail = n })

  pub prepend : A → Single A → ℕ × Single A
  prepend v s =
      let (n, s') = insert_after_item v 0 s in
      (n, record s' { tail = if is_one s'.len then n else s'.tail })

  pub head : Single A → Option A
  head s = if is_zero s.len then some (s.val 0) else do n ← s.next 0; some (s.val n)

  pub forward {κ} : {S : Type κ} → (S → A → S × Bool) → ℕ → Single A → S → Option S
  forward yield fuel s t = iterate s.next s.val yield fuel (s.next 0) t

  -- The loop of findPrev, from the item `n` after `prev`; an address, or nil.
  pub find_prev : ℕ → ℕ → ℕ → Option ℕ → Single A → Option (Option ℕ)
  find_prev zero it prev n s = none
  find_prev (suc fuel) it prev none s = none
  find_prev (suc fuel) it prev (some n) s = elim (n == 0) [
    | true ↦ some none
    | false ↦ elim (n == it) [ true ↦ some (some prev) | false ↦ find_prev fuel it n (s.next n) s ]
  ]

-- `unset` is the zero value of the elements' type.
module _ {ℓ} {A : Type ℓ} (unset : A) where
  pub new : Single A
  new = reset (record { next = λ a. none; val = λ a. unset; fresh = 1; tail = 0; len = pos 0 })

  pub remove_after : ℕ → ℕ → Single A → Single A
  remove_after prev it s = record s {
    next = update (update s.next prev (s.next it)) it none;
    val = update s.val it unset;
    tail = if s.tail == it then prev else s.tail;
    len = s.len -ℤ pos 1;
  }

  pub remove_item : ℕ → ℕ → Single A → Option (Single A)
  remove_item fuel it s = do
    found ← find_prev fuel it 0 (s.next 0) s
    elim found [ none ↦ some s | some prev ↦ some (remove_after prev it s) ]

  -- The loop of Remove.
  pub remove_from : (A → Bool) → ℕ → ℕ → Option ℕ → Single A → Option (Single A)
  remove_from matches zero prev n s = none
  remove_from matches (suc fuel) prev none s = none
  remove_from matches (suc fuel) prev (some n) s = elim (n == 0) [
    | true ↦ some s
    | false ↦ elim (matches (s.val n)) [
      | true ↦ some (remove_after prev n s)
      | false ↦ remove_from matches fuel n (s.next n) s
    ]
  ]

  pub remove : A → (A → A → Bool) → ℕ → Single A → Option (Single A)
  remove v cmp fuel s = remove_from (λ x. cmp x v) fuel 0 (s.next 0) s
