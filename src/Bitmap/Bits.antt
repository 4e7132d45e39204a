-- ===== src/Bitmap/Bits.antt =====
-- Which bits a bitmap holds, and how the operations on one bit change them.
use native.Mathlib.Nat.{one-le-pow, pow-le-pow_right}
use go_pkgs.Common.{
  ℕ, zero, suc, ◌+◌, ◌*◌, ◌/◌, ◌%◌, ◌^◌, ◌≤◌, ◌<◌, bit_and, bit_or, bit_xor, ◌≡◌, refl, ◌∙◌, ap,
  inl, inr, Bool, false, not, ◌&&◌, ◌||◌, [], ◌∷◌, Option, some, arith, length, get_elem?, get_or,
  set, replicate, store-eq_of_lt, ltb, leb, ◌==◌, if◌then◌else◌, length-set, length-replicate,
  get_or-replicate, get_or-set_self, get_or-set_ne, get_elem?-eq-get_or, ℕ_discrete, Bool-cases,
}
use go_pkgs.Common.Int.{ℤ, pos, negsuc}
use go_pkgs.Common.Bits.{
  bit, bit-le-one, bit-zero, bit-bit_and, bit-bit_or, bit-bit_xor, bit-pow, bit-ones, bit_and-pow,
  bit_or-lt, bit_and-le,
}
use go_pkgs.Bitmap
use go_pkgs.Bitmap.{Bitmap, max_uint64}

-- Bit `i` of the bitmap; false past its end.
unfoldable pub contains : Bitmap → ℕ → Bool
contains b i = bit (get_or b (i / 64) 0) (i % 64) == 1

-- Every word fits 64 bits.
abbrev pub IsValid : Bitmap → Type 0
IsValid [] = Unit {0}
IsValid (w ∷ b) = (w < 2 ^ 64) × IsValid b

-- Bit `j` is the one that the argument `i` names.
abbrev pub names : ℤ → ℕ → Bool
names (pos i) j = i == j
names (negsuc _) j = false

contains-replicate : (n i : ℕ) → contains (replicate n 0) i ≡ false
unfolding contains
contains-replicate n i = rw (get_or-replicate {A = ℕ} n (i / 64) 0, bit-zero (i % 64))

contains-nil : (i : ℕ) → contains [] i ≡ false
unfolding contains
contains-nil i = rw (bit-zero (i % 64))

get_or_past : (b : Bitmap) (k : ℕ) → length b ≤ k → get_or b k 0 ≡ 0
get_or_past [] k h = refl
get_or_past (x ∷ b) zero h = absurd (omega arith)
get_or_past (x ∷ b) (suc k) h = get_or_past b k (omega arith)

pub contains_past : (b : Bitmap) (i : ℕ) → length b * 64 ≤ i → contains b i ≡ false
unfolding contains
contains_past b i h = rw (get_or_past b (i / 64) (omega arith), bit-zero (i % 64))

replicate-IsValid : (n : ℕ) → IsValid (replicate n 0)
replicate-IsValid zero = tt
replicate-IsValid (suc n) = (omega arith, replicate-IsValid n)

-- New(size), for a size above 0, makes the fewest words that have room for `size` bits, all of them
-- clear and in range.
pub new_lem :
    (size : ℕ)
    → (size ≤ length (Bitmap.new (pos size)) * 64)
      × (length (Bitmap.new (pos size)) * 64 < size + 64)
      × ((i : ℕ) → contains (Bitmap.new (pos size)) i ≡ false)
      × IsValid (Bitmap.new (pos size))
unfolding Bitmap.new
new_lem zero = (omega arith, omega arith, contains-nil, tt)
new_lem (suc n) =
    let words = (suc n + 63) / 64 in
    let size = length-replicate {A = ℕ} words 0 in
    let positive : leb (suc n) 0 ≡ false = ground arith in
    rw positive
      (omega (arith, size), omega (arith, size), contains-replicate words, replicate-IsValid words)

-- A write of the word that holds bit `i` changes bit `i` alone, if the word's other bits stay.
contains-set_word :
    (b : Bitmap) (i j w v : ℕ)
    → i < length b * 64
    → bit w (j % 64) ≡ (if i % 64 == j % 64 then v else bit (get_or b (i / 64) 0) (j % 64))
    → contains (set b (i / 64) w) j ≡ (if i == j then v == 1 else contains b j)
unfolding contains
contains-set_word b i j w v h e = elim (ℕ_discrete (i / 64) (j / 64)) [
  | yes p ↦
      let same : get_or (set b (i / 64) w) (j / 64) 0 ≡ w =
        rw (← p) (get_or-set_self b (i / 64) w 0 (omega arith)) in
      let old : get_or b (i / 64) 0 ≡ get_or b (j / 64) 0 = ap (λ t. get_or b t 0) p in
      rw (same, e, old) (ground arith)
  | no n ↦ rw (get_or-set_ne b (i / 64) (j / 64) w 0 n) (ground arith)
]

set-IsValid : (b : Bitmap) (k w : ℕ) → w < 2 ^ 64 → IsValid b → IsValid (set b k w)
set-IsValid [] k w h v = tt
set-IsValid (x ∷ b) zero w h v = (h, v.1)
set-IsValid (x ∷ b) (suc k) w h v = (v.0, set-IsValid b k w h v.1)

get_or-IsValid : (b : Bitmap) (k : ℕ) → IsValid b → get_or b k 0 < 2 ^ 64
get_or-IsValid [] k v = omega arith
get_or-IsValid (x ∷ b) zero v = v.0
get_or-IsValid (x ∷ b) (suc k) v = get_or-IsValid b k v.1

-- A power of 2 of a bit's place in a word.
place-lt : (k : ℕ) → k < 64 → 2 ^ k < 2 ^ 64
place-lt k h = omega (arith, pow-le-pow_right {n = 2} (omega arith) {i = k} {j = 63} (omega arith))

bit-set_bit : (w k j : ℕ) → bit (bit_or w (2 ^ k)) j ≡ (if k == j then 1 else bit w j)
bit-set_bit w k j = ground (arith, bit-bit_or w (2 ^ k) j, bit-pow k j, bit-le-one w j)

bit-clear_bit :
    (w k j : ℕ)
    → j < 64
    → bit (bit_and w (bit_xor (2 ^ k) max_uint64)) j ≡ (if k == j then 0 else bit w j)
bit-clear_bit w k j h = ground (
  arith,
  bit-bit_and w (bit_xor (2 ^ k) max_uint64) j,
  bit-bit_xor (2 ^ k) max_uint64 j,
  bit-pow k j,
  bit-ones 64 j h,
  bit-le-one w j,
)

-- The test `w & (1 << k) != 0`.
pub bit_tested : (w k : ℕ) → not (bit_and w (2 ^ k) == 0) ≡ (bit w k == 1)
bit_tested w k = elim (ℕ_discrete (bit w k) 1) [
  | yes p ↦ rw (bit_and-pow w k, p) (ground (arith, one-le-pow k 2))
  | no n ↦
      let clear_bit : bit w k ≡ 0 = omega (arith, bit-le-one w k) in
      rw (bit_and-pow w k, clear_bit) (ground arith)
]

module _ (b : Bitmap) (i : ℕ) (h : i < length b * 64) where
  abbrev pub word : ℕ
  word = get_or b (i / 64) 0

  pub load_word : get_elem? b (i / 64) ≡ some (get_or b (i / 64) 0)
  load_word = get_elem?-eq-get_or b (i / 64) 0 (omega arith)

  pub set_unsafe-eq :
      Bitmap.set_unsafe b (pos i)
      ≡ some (set b (i / 64) (bit_or (get_or b (i / 64) 0) (2 ^ (i % 64))))
  unfolding Bitmap.set_unsafe
  set_unsafe-eq =
      rw (load_word, store-eq_of_lt b (i / 64) (bit_or word (2 ^ (i % 64))) (omega arith))

  clear_unsafe-eq :
      Bitmap.clear_unsafe b (pos i)
      ≡ some (set b (i / 64) (bit_and word (bit_xor (2 ^ (i % 64)) max_uint64)))
  unfolding Bitmap.clear_unsafe
  clear_unsafe-eq = rw (
    load_word,
    store-eq_of_lt b (i / 64) (bit_and word (bit_xor (2 ^ (i % 64)) max_uint64)) (omega arith),
  )

  pub is_set_unsafe-eq : Bitmap.is_set_unsafe b (pos i) ≡ some (contains b i)
  unfolding Bitmap.is_set_unsafe contains
  is_set_unsafe-eq = rw (load_word, bit_tested word (i % 64))

  pub contains-set_one :
      (j : ℕ) → contains (set b (i / 64) (bit_or word (2 ^ (i % 64)))) j ≡ (i == j || contains b j)
  contains-set_one j =
      contains-set_word b i j (bit_or word (2 ^ (i % 64))) 1 h (bit-set_bit word (i % 64) (j % 64))
      ∙ ground arith

  contains-clear_one :
      (j : ℕ)
      → contains (set b (i / 64) (bit_and word (bit_xor (2 ^ (i % 64)) max_uint64))) j
        ≡ (not (i == j) && contains b j)
  contains-clear_one j =
      contains-set_word b i j (bit_and word (bit_xor (2 ^ (i % 64)) max_uint64)) 0 h
        (bit-clear_bit word (i % 64) (j % 64) (omega arith))
      ∙ ground arith

-- What an update of one bit returns: a bitmap of the same length and in range, with the bits `p`.
pub record Updated (b : Bitmap) (p : ℕ → Bool) (r : Option Bitmap) : Type 0 where
  pub result : Bitmap
  pub returned : r ≡ some result
  pub same_length : length result ≡ length b
  pub bits : (j : ℕ) → contains result j ≡ p j
  pub valid : IsValid b → IsValid result

Updated-bits :
    {b : Bitmap} {p q : ℕ → Bool} {r : Option Bitmap}
    → Updated b p r
    → ((j : ℕ) → p j ≡ q j)
    → Updated b q r
Updated-bits u same = record {
  result = u.result;
  returned = u.returned;
  same_length = u.same_length;
  bits = λ j. u.bits j ∙ same j;
  valid = u.valid;
}

-- SetUnsafe(i) in range.
pub set_unsafe_lem :
    (b : Bitmap) (i : ℕ)
    → i < length b * 64
    → Updated b (λ j. i == j || contains b j) (Bitmap.set_unsafe b (pos i))
set_unsafe_lem b i h =
    let k = i / 64 in
    let w = bit_or (get_or b k 0) (2 ^ (i % 64)) in
    rw (set_unsafe-eq b i h) (record {
      result = set b k w;
      returned = refl;
      same_length = length-set b k w;
      bits = contains-set_one b i h;
      valid = λ v.
          set-IsValid b k w
            (bit_or-lt 64 (get_or b k 0) (2 ^ (i % 64)) (get_or-IsValid b k v)
              (place-lt (i % 64) (omega arith)))
            v;
    })

-- Set(i) never panics. It sets bit `i` if that lies in the bitmap, and changes no other bit, neither
-- the length nor the range of the words.
pub set_lem :
    (b : Bitmap) (i : ℤ)
    → Updated b (λ j. names i j && ltb j (length b * 64) || contains b j) (Bitmap.set b i)
unfolding Bitmap.set
set_lem b (negsuc _) = record {
  result = b;
  returned = refl;
  same_length = refl;
  bits = λ j. refl;
  valid = λ v. v;
}
set_lem b (pos i) = elim (Bool-cases (leb (length b * 64) i)) [
  | inl out ↦ rw out (record {
    result = b;
    returned = refl;
    same_length = refl;
    bits = λ j. ground arith;
    valid = λ v. v;
  })
  | inr within ↦
      let h : i < length b * 64 = ground arith in
      let u = set_unsafe_lem b i h in rw within (Updated-bits u (λ j. ground arith))
]

-- Clear(i) never panics. It clears bit `i` if that lies in the bitmap, and changes no other bit,
-- neither the length nor the range of the words.
pub clear_lem :
    (b : Bitmap) (i : ℤ) → Updated b (λ j. not (names i j) && contains b j) (Bitmap.clear b i)
unfolding Bitmap.clear
clear_lem b (negsuc _) = record {
  result = b;
  returned = refl;
  same_length = refl;
  bits = λ j. refl;
  valid = λ v. v;
}
clear_lem b (pos i) = elim (Bool-cases (leb (length b * 64) i)) [
  | inl out ↦ rw out (record {
    result = b;
    returned = refl;
    same_length = refl;
    bits = λ j. ground (arith, contains_past b i (ground arith));
    valid = λ v. v;
  })
  | inr within ↦
      let h : i < length b * 64 = ground arith in
      let k = i / 64 in
      let w = bit_and (get_or b k 0) (bit_xor (2 ^ (i % 64)) max_uint64) in
      rw (within, clear_unsafe-eq b i h)
        (record {
          result = set b k w;
          returned = refl;
          same_length = length-set b k w;
          bits = λ j. contains-clear_one b i h j;
          valid = λ v.
              set-IsValid b k w
                (omega (
                  arith,
                  bit_and-le (get_or b k 0) (bit_xor (2 ^ (i % 64)) max_uint64),
                  get_or-IsValid b k v,
                ))
                v;
        })
]

-- The bit that an `int` argument names: false for a negative one, and past the end.
abbrev pub member : Bitmap → ℤ → Bool
member b (pos i) = contains b i
member b (negsuc _) = false

-- IsSet(i) never panics, and is the bit of the bitmap that `i` names, or false where there is none.
pub is_set_lem : (b : Bitmap) (i : ℤ) → Bitmap.is_set b i ≡ some (member b i)
unfolding Bitmap.is_set
is_set_lem b (negsuc _) = refl
is_set_lem b (pos i) = elim (Bool-cases (leb (length b * 64) i)) [
  | inl out ↦ rw (out, contains_past b i (ground arith))
  | inr within ↦ rw within (is_set_unsafe-eq b i (ground arith))
]
