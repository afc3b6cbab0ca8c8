-- ===== src/Common/Bits/Symmetric.antt =====
-- The bit operations are symmetric.
use Prim.Native.Nat.{ℕ, zero, suc, ◌+◌, ◌/◌, ◌%◌, ◌<◌, bit_and, bit_or, bit_xor, differ}
use mathlib.Core.Path.{◌≡◌, refl}
use native.Mathlib.Omega.{arith}
use simple_scc.Common.Bits.Digits.{bit_and_digit, bit_or_digit, bit_xor_digit}

differ_comm : (x y : ℕ) → differ x y ≡ differ y x
differ_comm zero zero = refl
differ_comm zero (suc y) = refl
differ_comm (suc x) zero = refl
differ_comm (suc x) (suc y) = differ_comm x y

bit_and_below : (n a b : ℕ) → a + b < n → bit_and a b ≡ bit_and b a
bit_and_below zero a b h = absurd (omega arith)
bit_and_below (suc n) zero zero h = refl
bit_and_below (suc n) zero (suc b) h = omega (
  arith,
  bit_and_digit zero (suc b),
  bit_and_digit (suc b) zero,
  bit_and_below n (zero / 2) (suc b / 2) (omega arith),
)
bit_and_below (suc n) (suc a) zero h = omega (
  arith,
  bit_and_digit (suc a) zero,
  bit_and_digit zero (suc a),
  bit_and_below n (suc a / 2) (zero / 2) (omega arith),
)
bit_and_below (suc n) (suc a) (suc b) h = omega (
  arith,
  bit_and_digit (suc a) (suc b),
  bit_and_digit (suc b) (suc a),
  bit_and_below n (suc a / 2) (suc b / 2) (omega arith),
)

pub bit_and_comm : (a b : ℕ) → bit_and a b ≡ bit_and b a
bit_and_comm a b = bit_and_below (suc (a + b)) a b (omega arith)

bit_or_below : (n a b : ℕ) → a + b < n → bit_or a b ≡ bit_or b a
bit_or_below zero a b h = absurd (omega arith)
bit_or_below (suc n) zero zero h = refl
bit_or_below (suc n) zero (suc b) h = omega (
  arith,
  bit_or_digit zero (suc b),
  bit_or_digit (suc b) zero,
  bit_or_below n (zero / 2) (suc b / 2) (omega arith),
)
bit_or_below (suc n) (suc a) zero h = omega (
  arith,
  bit_or_digit (suc a) zero,
  bit_or_digit zero (suc a),
  bit_or_below n (suc a / 2) (zero / 2) (omega arith),
)
bit_or_below (suc n) (suc a) (suc b) h = omega (
  arith,
  bit_or_digit (suc a) (suc b),
  bit_or_digit (suc b) (suc a),
  bit_or_below n (suc a / 2) (suc b / 2) (omega arith),
)

pub bit_or_comm : (a b : ℕ) → bit_or a b ≡ bit_or b a
bit_or_comm a b = bit_or_below (suc (a + b)) a b (omega arith)

bit_xor_below : (n a b : ℕ) → a + b < n → bit_xor a b ≡ bit_xor b a
bit_xor_below zero a b h = absurd (omega arith)
bit_xor_below (suc n) zero zero h = refl
bit_xor_below (suc n) zero (suc b) h = omega (
  arith,
  bit_xor_digit zero (suc b),
  bit_xor_digit (suc b) zero,
  bit_xor_below n (zero / 2) (suc b / 2) (omega arith),
  differ_comm (zero % 2) (suc b % 2),
)
bit_xor_below (suc n) (suc a) zero h = omega (
  arith,
  bit_xor_digit (suc a) zero,
  bit_xor_digit zero (suc a),
  bit_xor_below n (suc a / 2) (zero / 2) (omega arith),
  differ_comm (suc a % 2) (zero % 2),
)
bit_xor_below (suc n) (suc a) (suc b) h = omega (
  arith,
  bit_xor_digit (suc a) (suc b),
  bit_xor_digit (suc b) (suc a),
  bit_xor_below n (suc a / 2) (suc b / 2) (omega arith),
  differ_comm (suc a % 2) (suc b % 2),
)

pub bit_xor_comm : (a b : ℕ) → bit_xor a b ≡ bit_xor b a
bit_xor_comm a b = bit_xor_below (suc (a + b)) a b (omega arith)
