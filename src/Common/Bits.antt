-- ===== src/Common/Bits.antt =====
-- The bits of a machine word, and how `&`, `|` and `^` act on them.
use Prim.Native.Nat.{
  ℕ, zero, suc, ◌+◌, ◌-◌, ◌*◌, ◌/◌, ◌%◌, ◌^◌, ◌≤◌, ◌<◌, min, max, bit_and, bit_or, bit_xor, digits,
  differ, bit_and-bitwise, bit_or-bitwise, bit_xor-bitwise,
}
use mathlib.Core.Path.{◌≡◌, refl, sym, ap, ◌∙◌}
use native.Mathlib.Decide.{ℕ_discrete}
use native.Mathlib.Nat.{pow-suc, one-le-pow}
use native.Mathlib.Omega.{arith}
use go_pkgs.Common.Tests.{◌==◌, if◌then◌else◌}

-- The native operations run a loop over the binary digits, with the left word as fuel. One round
-- more changes nothing, so a word can be read from its lowest digit.
module _ (z : ℕ → ℕ) (f : ℕ → ℕ → ℕ) where
  one_more : (n a b : ℕ) → a ≤ n → digits z f n a b ≡ digits z f (suc n) a b
  one_more zero zero b h = refl
  one_more zero (suc a) b h = absurd (omega arith)
  one_more (suc n) zero b h = refl
  one_more (suc n) (suc a) b h =
      ap (λ t. t * 2 + f (suc a % 2) (b % 2)) (one_more n (suc a / 2) (b / 2) (omega arith))

  enough : (n m a b : ℕ) → a ≤ m → m ≤ n → digits z f m a b ≡ digits z f n a b
  enough zero zero a b low high = refl
  enough zero (suc m) a b low high = absurd (omega arith)
  enough (suc n) m a b low high = elim (ℕ_discrete m (suc n)) [
    | yes e ↦ ap (λ t. digits z f t a b) e
    | no ne ↦ enough n m a b low (omega arith) ∙ one_more n a b (omega arith)
  ]

  module _ (op : ℕ → ℕ → ℕ) (means : (a b : ℕ) → op a b ≡ digits z f a a b)
      (base : (b : ℕ) → z b ≡ z (b / 2) * 2 + f 0 (b % 2)) where
    lowest_digit : (a b : ℕ) → op a b ≡ op (a / 2) (b / 2) * 2 + f (a % 2) (b % 2)
    lowest_digit zero b = means 0 b ∙ base b ∙ ap (λ t. t * 2 + f 0 (b % 2)) (sym (means 0 (b / 2)))
    lowest_digit (suc a) b =
        let rest = enough a (suc a / 2) (suc a / 2) (b / 2) (omega arith) (omega arith) in
        means (suc a) b
        ∙ ap (λ t. t * 2 + f (suc a % 2) (b % 2)) (sym (means (suc a / 2) (b / 2) ∙ rest))

differ-lt : (x y : ℕ) → x < 2 → y < 2 → differ x y ≡ (x + y) % 2
differ-lt zero y p q = omega arith
differ-lt (suc zero) zero p q = refl
differ-lt (suc zero) (suc zero) p q = refl
differ-lt (suc zero) (suc (suc y)) p q = absurd (omega arith)
differ-lt (suc (suc x)) y p q = absurd (omega arith)

bit_and_step : (a b : ℕ) → bit_and a b ≡ bit_and (a / 2) (b / 2) * 2 + min (a % 2) (b % 2)
bit_and_step = lowest_digit (λ b. 0) min bit_and bit_and-bitwise (λ b. omega arith)

bit_or_step : (a b : ℕ) → bit_or a b ≡ bit_or (a / 2) (b / 2) * 2 + max (a % 2) (b % 2)
bit_or_step = lowest_digit (λ b. b) max bit_or bit_or-bitwise (λ b. omega arith)

differ-zero : (b : ℕ) → b ≡ b / 2 * 2 + differ 0 (b % 2)
differ-zero b = omega (arith, differ-lt 0 (b % 2))

bit_xor_step : (a b : ℕ) → bit_xor a b ≡ bit_xor (a / 2) (b / 2) * 2 + (a % 2 + b % 2) % 2
bit_xor_step a b = omega (
  arith,
  lowest_digit (λ b. b) differ bit_xor bit_xor-bitwise differ-zero a b,
  differ-lt (a % 2) (b % 2) (omega arith) (omega arith),
)

half_zero : (a : ℕ) → a < 1 → a / 2 ≡ 0
half_zero a h = omega arith

-- The digit of weight 2 ^ k.
unfoldable pub bit : ℕ → ℕ → ℕ
bit w zero = w % 2
bit w (suc k) = bit (w / 2) k

pub bit-le-one : (w k : ℕ) → bit w k ≤ 1
unfolding bit
bit-le-one w zero = omega arith
bit-le-one w (suc k) = bit-le-one (w / 2) k

pub bit-zero : (k : ℕ) → bit 0 k ≡ 0
unfolding bit
bit-zero zero = refl
bit-zero (suc k) = bit-zero k

half_step : (q r : ℕ) → r ≤ 1 → (q * 2 + r) / 2 ≡ q
half_step q r h = omega arith

pub bit-bit_and : (a b k : ℕ) → bit (bit_and a b) k ≡ min (bit a k) (bit b k)
unfolding bit
bit-bit_and a b zero = omega (arith, bit_and_step a b)
bit-bit_and a b (suc k) =
    let half : bit_and a b / 2 ≡ bit_and (a / 2) (b / 2) = omega (arith, bit_and_step a b) in
    rw half (bit-bit_and (a / 2) (b / 2) k)

pub bit-bit_or : (a b k : ℕ) → bit (bit_or a b) k ≡ max (bit a k) (bit b k)
unfolding bit
bit-bit_or a b zero = omega (arith, bit_or_step a b)
bit-bit_or a b (suc k) =
    let half : bit_or a b / 2 ≡ bit_or (a / 2) (b / 2) = omega (arith, bit_or_step a b) in
    rw half (bit-bit_or (a / 2) (b / 2) k)

pub bit-bit_xor : (a b k : ℕ) → bit (bit_xor a b) k ≡ (bit a k + bit b k) % 2
unfolding bit
bit-bit_xor a b zero = omega (arith, bit_xor_step a b)
bit-bit_xor a b (suc k) =
    let half : bit_xor a b / 2 ≡ bit_xor (a / 2) (b / 2) = omega (arith, bit_xor_step a b) in
    rw half (bit-bit_xor (a / 2) (b / 2) k)

pub bit-pow : (k j : ℕ) → bit (2 ^ k) j ≡ (if k == j then 1 else 0)
unfolding bit
bit-pow zero zero = refl
bit-pow zero (suc j) = ground (arith, bit-zero j)
bit-pow (suc k) zero = ground (arith, pow-suc 2 k)
bit-pow (suc k) (suc j) =
    let half : 2 ^ suc k / 2 ≡ 2 ^ k = omega (arith, pow-suc 2 k) in
    rw half (bit-pow k j ∙ ground arith)

bit_and_below : (n a : ℕ) → a < n → bit_and a 0 ≡ 0
bit_and_below zero a h = absurd (omega arith)
bit_and_below (suc n) a h = elim (ℕ_discrete a 0) [
  | yes none_left ↦ rw none_left
  | no some_left ↦ omega (arith, bit_and_step a 0, bit_and_below n (a / 2) (omega arith))
]

bit_and-zero : (a : ℕ) → bit_and a 0 ≡ 0
bit_and-zero a = bit_and_below (a + 1) a (omega arith)

-- A word of k ones.
pub bit-ones : (k j : ℕ) → j < k → bit (2 ^ k - 1) j ≡ 1
unfolding bit
bit-ones zero j h = absurd (omega arith)
bit-ones (suc k) zero h = omega (arith, pow-suc 2 k, one-le-pow k 2)
bit-ones (suc k) (suc j) h =
    let half : (2 ^ suc k - 1) / 2 ≡ 2 ^ k - 1 = omega (arith, pow-suc 2 k, one-le-pow k 2) in
    rw half (bit-ones k j (omega arith))

-- Masking by one bit leaves that bit at its weight.
pub bit_and-pow : (w k : ℕ) → bit_and w (2 ^ k) ≡ bit w k * 2 ^ k
unfolding bit
bit_and-pow w zero = omega (arith, bit_and_step w 1, bit_and-zero (w / 2))
bit_and-pow w (suc k) =
    let half : 2 ^ suc k / 2 ≡ 2 ^ k = omega (arith, pow-suc 2 k) in
    let step = rw half at (bit_and_step w (2 ^ suc k)) in
    omega (
      arith,
      step,
      bit_and-pow (w / 2) k,
      pow-suc 2 k,
      ap (λ (t : ℕ). bit (w / 2) k * t) (pow-suc 2 k),
    )

pub bit_or-lt : (k a b : ℕ) → a < 2 ^ k → b < 2 ^ k → bit_or a b < 2 ^ k
bit_or-lt zero a b p q =
    omega
      (arith, bit_or_step a b, bit_or-bitwise 0 (b / 2), ap (λ t. bit_or t (b / 2)) (half_zero a p))
bit_or-lt (suc k) a b p q = omega (
  arith,
  bit_or_step a b,
  pow-suc 2 k,
  bit_or-lt k (a / 2) (b / 2) (omega (arith, pow-suc 2 k)) (omega (arith, pow-suc 2 k)),
)

bit_and-le_fuel : (n a b : ℕ) → a ≤ n → bit_and a b ≤ a
bit_and-le_fuel n zero b h = omega (arith, bit_and-bitwise 0 b)
bit_and-le_fuel zero (suc a) b h = absurd (omega arith)
bit_and-le_fuel (suc n) (suc a) b h =
    omega (arith, bit_and_step (suc a) b, bit_and-le_fuel n (suc a / 2) (b / 2) (omega arith))

pub bit_and-le : (a b : ℕ) → bit_and a b ≤ a
bit_and-le a b = bit_and-le_fuel a a b (omega arith)

bit_or-zero_below : (n a : ℕ) → a < n → bit_or a 0 ≡ a
bit_or-zero_below zero a h = absurd (omega arith)
bit_or-zero_below (suc n) a h = elim (ℕ_discrete a 0) [
  | yes none_left ↦ rw none_left
  | no some_left ↦ omega (arith, bit_or_step a 0, bit_or-zero_below n (a / 2) (omega arith))
]

-- Two fields of bits that do not meet.
pub bit_or-disjoint : (k a b : ℕ) → b < 2 ^ k → bit_or (a * 2 ^ k) b ≡ a * 2 ^ k + b
bit_or-disjoint zero a b h =
    let none_left : b ≡ 0 = omega arith in
    let one : a * 2 ^ 0 ≡ a = omega arith in
    rw (none_left, one) (bit_or-zero_below (a + 1) a (omega arith) ∙ omega arith)
bit_or-disjoint (suc k) a b h =
    let twice : a * 2 ^ suc k ≡ a * 2 ^ k * 2 =
      omega (arith, ap (λ (t : ℕ). a * t) (pow-suc 2 k)) in
    let half : a * 2 ^ k * 2 / 2 ≡ a * 2 ^ k = omega arith in
    rw twice (
      let step = rw half at (bit_or_step (a * 2 ^ k * 2) b) in
      omega (arith, step, bit_or-disjoint k a (b / 2) (omega (arith, pow-suc 2 k))))
