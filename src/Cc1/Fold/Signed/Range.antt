-- ===== src/Cc1/Fold/Signed/Range.antt =====
-- The ranges of quotients, remainders and right shifts: the operations that `compute` in
-- Cc1/Fold/Signed, the second switch of `foldint`, runs without a check of the value.
use simple_scc.Common.{ℕ, zero, suc, ◌/◌, ◌%◌, ◌<◌, ◌≤◌, ◌^◌, ◌≡◌, refl, arith, lt→ltb}
use simple_scc.Common.Int.{
  ℤ, pos, negsuc, neg_part, ◌+ℤ◌, ◌*ℤ◌, quot, rem, neg_parts, neg_parts', ◌≤ℤ◌, int_laws,
}
use native.Mathlib.Nat.{
  div-le_self, div-lt_self, mod-le, one-le-pow, div-mul-le_self, lt-div-mul-add,
}
use simple_scc.Common.Ub.{ok}
use simple_scc.Cc1.Fold.Signed.{shift_right}
use simple_scc.Cc1.Fold.Signed.Exact.{InRange}

pub quot-InRange :
    (top : ℕ) (l r : ℤ)
    → InRange top l
    → InRange top r
    → (r ≡ negsuc 0 → neg_part l ≤ top)
    → InRange top (quot l r)
unfolding quot
quot-InRange top (pos a) (pos b) hl hr h = omega (arith, div-le_self a b)
quot-InRange top (pos a) (negsuc b) hl hr h =
    omega (arith, div-le_self a (suc b), neg_parts (a / suc b), neg_parts' (a / suc b))
quot-InRange top (negsuc a) (pos b) hl hr h =
    omega (arith, div-le_self (suc a) b, neg_parts (suc a / b), neg_parts' (suc a / b))
quot-InRange top (negsuc a) (negsuc zero) hl hr h = omega (arith, h refl)
quot-InRange top (negsuc a) (negsuc (suc b)) hl hr h =
    omega (arith, div-lt_self {n = suc a} {k = suc (suc b)} (omega arith) (omega arith))

pub rem-InRange : (top : ℕ) (l r : ℤ) → InRange top l → InRange top r → InRange top (rem l r)
unfolding rem
rem-InRange top (pos a) (pos b) hl hr = omega (arith, mod-le a b)
rem-InRange top (pos a) (negsuc b) hl hr = omega (arith, mod-le a (suc b))
rem-InRange top (negsuc a) (pos b) hl hr =
    omega (arith, mod-le (suc a) b, neg_parts (suc a % b), neg_parts' (suc a % b))
rem-InRange top (negsuc a) (negsuc b) hl hr =
    omega (arith, mod-le (suc a) (suc b), neg_parts (suc a % suc b), neg_parts' (suc a % suc b))

pow_pos : (r : ℕ) → 0 < 2 ^ r
pow_pos r = one-le-pow r 2 (omega arith)

-- A right shift rounds the quotient down.
pub shift_right_lem :
    (l : ℤ) (r : ℕ)
    → r < 64
    → (v : ℤ) × (shift_right l (pos r) ≡ ok v)
      × (v *ℤ pos (2 ^ r) ≤ℤ l)
      × (l +ℤ pos 1 ≤ℤ v *ℤ pos (2 ^ r) +ℤ pos (2 ^ r))
unfolding shift_right ◌*ℤ◌
shift_right_lem (pos a) r h =
    let low = div-mul-le_self a (2 ^ r) in
    let high = lt-div-mul-add {a = a} (pow_pos r) in
    (pos (a / 2 ^ r), rw (lt→ltb r 64 h), omega int_laws, omega int_laws)
shift_right_lem (negsuc a) r h =
    let low = div-mul-le_self a (2 ^ r) in
    let high = lt-div-mul-add {a = a} (pow_pos r) in
    (negsuc (a / 2 ^ r), rw (lt→ltb r 64 h), omega int_laws, omega int_laws)

pub shift_right-InRange :
    {top : ℕ} {v : ℤ} (l : ℤ) (r : ℕ) → InRange top l → shift_right l (pos r) ≡ ok v → InRange top v
unfolding shift_right
shift_right-InRange (pos a) r h e = ground (arith, div-le_self a (2 ^ r))
shift_right-InRange (negsuc a) r h e = ground (arith, div-le_self a (2 ^ r))
