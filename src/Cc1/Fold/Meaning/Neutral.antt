-- ===== src/Cc1/Fold/Meaning/Neutral.antt =====
-- Zero and one as operands of the machine's operations: the values behind the cases of `identity`.
use simple_scc.Common.{ℕ, ◌*◌, ◌^◌, ◌≡◌, refl, arith, Bool, true, false}
use native.Mathlib.Nat.{mul-one, div-one}
use simple_scc.Common.Bits.{bit_or-zero, bit_xor-zero}
use simple_scc.Common.Int.{ℤ, pos, negsuc, ◌+ℤ◌, ◌-ℤ◌, ◌*ℤ◌, quot, to_word}
use simple_scc.Cc1.Types.{IsSize, one, two, four, eight}
use simple_scc.Cc1.Fold.Meaning.{wrap, modulo, scale, floor_shift, join, differ}

-- Zero and one as right operands.
pub +ℤ-zero : (x : ℤ) → x +ℤ pos 0 ≡ x
unfolding ◌+ℤ◌
+ℤ-zero x = ground arith

pub -ℤ-zero : (x : ℤ) → x -ℤ pos 0 ≡ x
unfolding ◌-ℤ◌
-ℤ-zero x = ground arith

pub *ℤ-zero : (x : ℤ) → x *ℤ pos 0 ≡ pos 0
unfolding ◌*ℤ◌
*ℤ-zero (pos n) = ground arith
*ℤ-zero (negsuc n) = ground arith

pub *ℤ-one : (x : ℤ) → x *ℤ pos 1 ≡ x
unfolding ◌*ℤ◌
*ℤ-one (pos n) = rw mul-one
*ℤ-one (negsuc n) = rw mul-one

pub quot-one : (x : ℤ) → quot x (pos 1) ≡ x
unfolding quot
quot-one (pos n) = rw div-one
quot-one (negsuc n) = rw div-one

pub scale-zero : (x : ℤ) → scale x (pos 0) ≡ x
unfolding scale
scale-zero x = *ℤ-one x

pub floor_shift-zero : (x : ℤ) → floor_shift x (pos 0) ≡ x
unfolding floor_shift
floor_shift-zero (pos n) = rw div-one
floor_shift-zero (negsuc n) = rw div-one

pub zero-scale : (y : ℤ) → scale (pos 0) y ≡ pos 0
unfolding scale ◌*ℤ◌
zero-scale y = ground arith

pub zero-floor_shift : (y : ℤ) → floor_shift (pos 0) y ≡ pos 0
unfolding floor_shift
zero-floor_shift y = ground arith

-- A value and its word agree in every width of the integer types.
pub modulo-to_word :
    {size : ℕ} (x : ℤ)
    → IsSize size
    → modulo (pos (to_word x)) (2 ^ (size * 8)) ≡ modulo x (2 ^ (size * 8))
unfolding modulo to_word
modulo-to_word (pos n) one = omega arith
modulo-to_word (pos n) two = omega arith
modulo-to_word (pos n) four = omega arith
modulo-to_word (pos n) eight = omega arith
modulo-to_word (negsuc n) one = omega arith
modulo-to_word (negsuc n) two = omega arith
modulo-to_word (negsuc n) four = omega arith
modulo-to_word (negsuc n) eight = omega arith

pub wrap-to_word :
    {size : ℕ} (b : Bool) (x : ℤ)
    → IsSize size
    → wrap b (2 ^ (size * 8)) (pos (to_word x)) ≡ wrap b (2 ^ (size * 8)) x
unfolding wrap
wrap-to_word true x h = rw (modulo-to_word x h)
wrap-to_word false x h = rw (modulo-to_word x h)

pub wrap-zero : {size : ℕ} (b : Bool) → IsSize size → wrap b (2 ^ (size * 8)) (pos 0) ≡ pos 0
unfolding wrap modulo
wrap-zero true one = refl
wrap-zero true two = refl
wrap-zero true four = refl
wrap-zero true eight = refl
wrap-zero false one = refl
wrap-zero false two = refl
wrap-zero false four = refl
wrap-zero false eight = refl

pub wrap-join :
    {size : ℕ} (b : Bool) (x : ℤ)
    → IsSize size
    → wrap b (2 ^ (size * 8)) (join x (pos 0)) ≡ wrap b (2 ^ (size * 8)) x
unfolding join to_word
wrap-join b x h = rw bit_or-zero (wrap-to_word b x h)

pub wrap-differ :
    {size : ℕ} (b : Bool) (x : ℤ)
    → IsSize size
    → wrap b (2 ^ (size * 8)) (differ x (pos 0)) ≡ wrap b (2 ^ (size * 8)) x
unfolding differ to_word
wrap-differ b x h = rw bit_xor-zero (wrap-to_word b x h)
