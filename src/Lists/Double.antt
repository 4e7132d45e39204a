-- ===== src/Lists/Double.antt =====
-- algo/container/list/double.go: the doubly linked list.
pub mod Shape
pub mod Removal
pub mod Holds
pub mod Refine
pub mod Find
mod Tests
use go_pkgs.Common.{ℕ, zero, suc, ◌+◌, Bool, true, false, Option, none, some, ◌>>=◌, if◌then◌else◌}
use go_pkgs.Common.Int.{ℤ, pos, ◌+ℤ◌, ◌-ℤ◌}
use go_pkgs.Lists.{is_zero, iterate}
use go_pkgs.Lists.Ring.{update}

pub record Double {ℓ} (A : Type ℓ) : Type ℓ where
  pub next : ℕ → Option ℕ
  pub prev : ℕ → Option ℕ
  pub val : ℕ → A
  pub fresh : ℕ
  pub len : ℤ

module _ {ℓ} {A : Type ℓ} where
  pub reset : Double A → Double A
  reset d = record d {
    len = pos 0;
    next = update d.next 0 (some 0);
    prev = update d.prev 0 (some 0);
  }

  -- insertAfterItem, which returns the address of the new item.
  pub insert_after_item : A → ℕ → Double A → Option (ℕ × Double A)
  insert_after_item v it d =
      let n = d.fresh in
      let prev₁ = update d.prev n (some it) in
      let next₁ = update d.next n (d.next it) in
      do
        a ← prev₁ n
        let next₂ = update next₁ a (some n)
        b ← next₂ n
        some (
          n,
          record d {
            next = next₂;
            prev = update prev₁ b (some n);
            val = update d.val n v;
            fresh = suc n;
            len = d.len +ℤ pos 1;
          },
        )

  pub append : A → Double A → Option (ℕ × Double A)
  append v d = do it ← d.prev 0; insert_after_item v it d

  pub prepend : A → Double A → Option (ℕ × Double A)
  prepend v d = insert_after_item v 0 d

  pub head : Double A → Option A
  head d = if is_zero d.len then some (d.val 0) else do n ← d.next 0; some (d.val n)

  pub tail : Double A → Option A
  tail d = if is_zero d.len then some (d.val 0) else do n ← d.prev 0; some (d.val n)

  pub forward {κ} : {S : Type κ} → (S → A → S × Bool) → ℕ → Double A → S → Option S
  forward yield fuel d s = iterate d.next d.val yield fuel (d.next 0) s

  pub backward {κ} : {S : Type κ} → (S → A → S × Bool) → ℕ → Double A → S → Option S
  backward yield fuel d s = iterate d.prev d.val yield fuel (d.prev 0) s

-- `unset` is the zero value of the elements' type.
module _ {ℓ} {A : Type ℓ} (unset : A) where
  pub new : Double A
  new =
      reset
        (record { next = λ a. none; prev = λ a. none; val = λ a. unset; fresh = 1; len = pos 0 })

  pub remove_item : ℕ → Double A → Option (Double A)
  remove_item it d = do
    a ← d.prev it
    let next₁ = update d.next a (d.next it)
    b ← next₁ it
    let prev₁ = update d.prev b (d.prev it)
    some (record d {
      next = update next₁ it none;
      prev = update prev₁ it none;
      val = update d.val it unset;
      len = d.len -ℤ pos 1;
    })

  -- The loop of Remove and of RemoveReverse, from the item `n`.
  pub remove_from : (ℕ → Option ℕ) → (A → Bool) → ℕ → Option ℕ → Double A → Option (Double A)
  remove_from link matches zero n d = none
  remove_from link matches (suc fuel) none d = some d
  remove_from link matches (suc fuel) (some n) d = elim (matches (d.val n)) [
    | true ↦ remove_item n d
    | false ↦ remove_from link matches fuel (link n) d
  ]

  pub remove : A → (A → A → Bool) → ℕ → Double A → Option (Double A)
  remove v cmp fuel d = remove_from d.next (λ x. cmp x v) fuel (d.next 0) d

  pub remove_reverse : A → (A → A → Bool) → ℕ → Double A → Option (Double A)
  remove_reverse v cmp fuel d = remove_from d.prev (λ x. cmp x v) fuel (d.prev 0) d
