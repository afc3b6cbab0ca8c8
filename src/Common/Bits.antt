-- ===== src/Common/Bits.antt =====
-- `&` with a mask of low ones, and `|` of numbers whose ones do not meet, as arithmetic.
mod Digits
pub mod Symmetric
pub use Digits.{bit_or-zero, bit_xor-zero}
use Digits.{bit_and_digit, bit_or_digit, bit_xor_digit, bit_and-zero, zero-bit_or}
use Prim.Native.Nat.{
  ℕ, zero, suc, ◌+◌, ◌-◌, ◌*◌, ◌/◌, ◌%◌, ◌^◌, ◌<◌, bit_and, bit_or, bit_xor, differ,
}
use mathlib.Core.Path.{◌≡◌, refl, sym, ap, ◌∙◌}
use native.Mathlib.Nat.{pow-suc, one-le-pow, mod-eq_of_lt, div-div-eq-div-mul, pow-succ'}
use native.Mathlib.Omega.{arith}

-- Twice a multiple, in the form that the linear tactics read.
double_multiple : (y k : ℕ) → y * 2 ^ suc k ≡ 2 * (y * 2 ^ k)
double_multiple y k = omega (arith, ap (λ (t : ℕ). y * t) (pow-suc 2 k))

mask_sum : (k x y : ℕ) → x < 2 ^ k → bit_and (x + y * 2 ^ k) (2 ^ k - 1) ≡ x
mask_sum zero x y h = rw bit_and-zero (omega arith)
mask_sum (suc k) x y h = ground (
  arith,
  one-le-pow k 2,
  pow-suc 2 k,
  double_multiple y k,
  bit_and_digit (x + y * 2 ^ suc k) (2 ^ suc k - 1),
  mask_sum k (x / 2) y (omega arith),
)

-- The low `k` bits are the remainder by `2 ^ k`.
pub bit_and-mask : (k x : ℕ) → bit_and x (2 ^ k - 1) ≡ x % 2 ^ k
bit_and-mask k x = ground (arith, one-le-pow k 2, mask_sum k (x % 2 ^ k) (x / 2 ^ k))

-- A value below `2 ^ k` joined with a multiple of `2 ^ k`, in both orders.
pub bit_or-high : (k x y : ℕ) → x < 2 ^ k → bit_or x (y * 2 ^ k) ≡ x + y * 2 ^ k
bit_or-high zero x y h = ground (arith, zero-bit_or y)
bit_or-high (suc k) x y h = ground (
  arith,
  pow-suc 2 k,
  double_multiple y k,
  bit_or_digit x (y * 2 ^ suc k),
  bit_or-high k (x / 2) y (omega arith),
)

pub bit_or-low : (k x y : ℕ) → x < 2 ^ k → bit_or (y * 2 ^ k) x ≡ x + y * 2 ^ k
bit_or-low zero x y h = ground (arith, bit_or-zero y)
bit_or-low (suc k) x y h = ground (
  arith,
  pow-suc 2 k,
  double_multiple y k,
  bit_or_digit (y * 2 ^ suc k) x,
  bit_or-low k (x / 2) y (omega arith),
)

-- The test of the top bit of a byte.
pub bit_and-top : (c : ℕ) → c < 256 → bit_and c 128 ≡ 0 → c < 128
bit_and-top c h e = omega (
  arith,
  bit_and_digit c 128,
  bit_and_digit (c / 2) 64,
  bit_and_digit (c / 2 / 2) 32,
  bit_and_digit (c / 2 / 2 / 2) 16,
  bit_and_digit (c / 2 / 2 / 2 / 2) 8,
  bit_and_digit (c / 2 / 2 / 2 / 2 / 2) 4,
  bit_and_digit (c / 2 / 2 / 2 / 2 / 2 / 2) 2,
  bit_and_digit (c / 2 / 2 / 2 / 2 / 2 / 2 / 2) 1,
)

half_quotient : (k x : ℕ) → x / 2 ^ suc k ≡ x / 2 / 2 ^ k
half_quotient k x = ap (λ (t : ℕ). x / t) (pow-succ' 2 k) ∙ sym (div-div-eq-div-mul x 2 (2 ^ k))

double_sum : (j k : ℕ) → 2 ^ (j + suc k) ≡ 2 ^ (j + k) * 2
double_sum j k =
    let next : j + suc k ≡ suc (j + k) = omega arith in
    ap (λ (t : ℕ). 2 ^ t) next ∙ pow-suc 2 (j + k)

half_mask : (k j : ℕ) → (2 ^ (j + suc k) - 2 ^ suc k) / 2 ≡ 2 ^ (j + k) - 2 ^ k
half_mask k j = let double = double_sum j k in omega (arith, double, pow-suc 2 k)

-- A mask that clears the low `k` bits of a number below `2 ^ (j + k)`.
pub bit_and-clear :
    (k j x : ℕ) → x < 2 ^ (j + k) → bit_and x (2 ^ (j + k) - 2 ^ k) ≡ x / 2 ^ k * 2 ^ k
bit_and-clear zero j x h = omega (arith, bit_and-mask (j + 0) x, mod-eq_of_lt h)
bit_and-clear (suc k) j x h =
    let double = double_sum j k in
    omega (
      arith,
      double,
      pow-suc 2 k,
      bit_and_digit x (2 ^ (j + suc k) - 2 ^ suc k),
      ap (λ (t : ℕ). bit_and (x / 2) t) (half_mask k j),
      bit_and-clear k j (x / 2) (omega (arith, double)),
      double_multiple (x / 2 / 2 ^ k) k,
      ap (λ (t : ℕ). t * 2 ^ suc k) (half_quotient k x),
    )

-- Bitwise operations stay below a power of two.
pub bit_and-lt : (k x y : ℕ) → x < 2 ^ k → y < 2 ^ k → bit_and x y < 2 ^ k
bit_and-lt zero x y h l = ground (arith, bit_and-zero 0)
bit_and-lt (suc k) x y h l =
    ground (arith, pow-suc 2 k, bit_and_digit x y, bit_and-lt k (x / 2) (y / 2))

pub bit_or-lt : (k x y : ℕ) → x < 2 ^ k → y < 2 ^ k → bit_or x y < 2 ^ k
bit_or-lt zero x y h l = ground (arith, zero-bit_or 0)
bit_or-lt (suc k) x y h l =
    ground (arith, pow-suc 2 k, bit_or_digit x y, bit_or-lt k (x / 2) (y / 2))

differ-lt : (x y : ℕ) → x < 2 → y < 2 → differ x y < 2
differ-lt zero y h l = l
differ-lt (suc x) y h l = ground arith

pub bit_xor-lt : (k x y : ℕ) → x < 2 ^ k → y < 2 ^ k → bit_xor x y < 2 ^ k
bit_xor-lt zero x y h l = ground (arith, bit_xor-zero 0)
bit_xor-lt (suc k) x y h l =
    ground (
      arith,
      pow-suc 2 k,
      bit_xor_digit x y,
      differ-lt (x % 2) (y % 2),
      bit_xor-lt k (x / 2) (y / 2),
    )
