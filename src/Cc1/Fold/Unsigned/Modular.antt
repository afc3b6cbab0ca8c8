-- ===== src/Cc1/Fold/Unsigned/Modular.antt =====
-- `folduint` of fold.c beside arithmetic modulo the width of the result type.
use simple_scc.Common.{
  ℕ, ◌+◌, ◌-◌, ◌*◌, ◌/◌, ◌%◌, ◌^◌, ◌<◌, ◌≡◌, ◌≢◌, refl, ◌∙◌, arith, bit_and, bit_or, bit_xor, ◌&&◌,
  ◌||◌, ltb, leb, Bool, true, false, lt→ltb, ap, Option, some, ◌==◌, not,
}
use native.Mathlib.Nat.{mod-eq_of_lt, div-le_self, mod-le}
use simple_scc.Common.Bits.{bit_and-mask, bit_and-lt, bit_or-lt, bit_xor-lt}
use simple_scc.Common.Ub.{Ub, ok}
use simple_scc.Cc1.Types.{ones, IsSize, one, two, four, eight}
use simple_scc.Cc1.Fold.Op.{Op}
use simple_scc.Cc1.Fold.Unsigned.{folduint, switch, of_bool}

-- The mask of a type keeps the bits of its width.
pub ones-mask : {size : ℕ} (x : ℕ) → IsSize size → bit_and x (ones size) ≡ x % 2 ^ (size * 8)
unfolding ones
ones-mask x one = bit_and-mask 8 x
ones-mask x two = bit_and-mask 16 x
ones-mask x four = bit_and-mask 32 x
ones-mask x eight = bit_and-mask 64 x

-- Arithmetic modulo `m`, for operands below `m`.
pub data Modular (m l r : ℕ) : Op → ℕ → Type 0 where
  add : Modular m l r Op.add ((l + r) % m)
  sub : Modular m l r Op.sub ((l + m - r) % m)
  mul : Modular m l r Op.mul (l * r % m)
  div : r ≢ 0 → Modular m l r Op.div (l / r)
  rem : r ≢ 0 → Modular m l r Op.rem (l % r)
  shl : r < 64 → Modular m l r Op.shl (l * 2 ^ r % m)
  shr : r < 64 → Modular m l r Op.shr (l / 2 ^ r)
  sneg : Modular m l r Op.sneg ((m - l) % m)
  cpl : Modular m l r Op.cpl (m - 1 - l)
  neg : Modular m l r Op.neg (of_bool (l == 0))
  lt : Modular m l r Op.lt (of_bool (ltb l r))
  gt : Modular m l r Op.gt (of_bool (ltb r l))
  le : Modular m l r Op.le (of_bool (leb l r))
  ge : Modular m l r Op.ge (of_bool (leb r l))
  eq : Modular m l r Op.eq (of_bool (l == r))
  ne : Modular m l r Op.ne (of_bool (not (l == r)))
  band : Modular m l r Op.band (bit_and l r)
  bxor : Modular m l r Op.bxor (bit_xor l r)
  bor : Modular m l r Op.bor (bit_or l r)
  and : Modular m l r Op.and (of_bool (not (l == 0) && not (r == 0)))
  or : Modular m l r Op.or (of_bool (not (l == 0) || not (r == 0)))

-- Wrapping at 64 bits does not show below the width.
wrapped : {size : ℕ} (x : ℕ) → IsSize size → x % 2 ^ 64 % 2 ^ (size * 8) ≡ x % 2 ^ (size * 8)
wrapped x one = omega arith
wrapped x two = omega arith
wrapped x four = omega arith
wrapped x eight = omega arith

-- Nor does the modulus that a difference is taken from.
wrapped_difference :
    {size : ℕ} (l r : ℕ)
    → IsSize size
    → r < 2 ^ (size * 8)
    → (l + 2 ^ 64 - r) % 2 ^ 64 % 2 ^ (size * 8) ≡ (l + 2 ^ (size * 8) - r) % 2 ^ (size * 8)
wrapped_difference l r one h = omega arith
wrapped_difference l r two h = omega arith
wrapped_difference l r four h = omega arith
wrapped_difference l r eight h = omega arith

wrapped_negation :
    {size : ℕ} (l : ℕ)
    → IsSize size
    → l < 2 ^ (size * 8)
    → (2 ^ 64 - l) % 2 ^ 64 % 2 ^ (size * 8) ≡ (2 ^ (size * 8) - l) % 2 ^ (size * 8)
wrapped_negation l one h = omega arith
wrapped_negation l two h = omega arith
wrapped_negation l four h = omega arith
wrapped_negation l eight h = omega arith

wrapped_complement :
    {size : ℕ} (l : ℕ)
    → IsSize size
    → l < 2 ^ (size * 8)
    → (2 ^ 64 - 1 - l) % 2 ^ (size * 8) ≡ 2 ^ (size * 8) - 1 - l
wrapped_complement l one h = omega arith
wrapped_complement l two h = omega arith
wrapped_complement l four h = omega arith
wrapped_complement l eight h = omega arith

-- What `folduint` stores for a case of its switch that goes through the mask.
masked :
    {size : ℕ} (u v : ℕ)
    → IsSize size
    → u % 2 ^ (size * 8) ≡ v
    → ◌≡◌ {A = Ub (Option ℕ)} (ok (some (bit_and u (ones size)))) (ok (some v))
masked u v s e = ap (λ w. ok (some w)) (ones-mask u s ∙ e)

-- So is a value below the modulus.
masked_below :
    {size : ℕ} (u : ℕ)
    → IsSize size
    → u < 2 ^ (size * 8)
    → ◌≡◌ {A = Ub (Option ℕ)} (ok (some (bit_and u (ones size)))) (ok (some u))
masked_below u s h = masked u u s (mod-eq_of_lt h)

not_zero : (r : ℕ) → r ≢ 0 → (r == 0) ≡ false
not_zero r h = ground arith

truth_below : {size : ℕ} (b : Bool) → IsSize size → of_bool b < 2 ^ (size * 8)
truth_below b one = ground arith
truth_below b two = ground arith
truth_below b four = ground arith
truth_below b eight = ground arith

-- For operands of the type, `folduint` stores the result of each operation of its switch: of
-- + - * / % << >>, of the negative and the complement modulo 2 ^ width; of & | ^ bit by bit; and of the
-- comparisons and ! && || as 0 or 1. The divisor is not zero, and a count of a shift is below 64.
pub folduint-Modular :
    {op : Op} {size l r v : ℕ}
    → IsSize size
    → l < 2 ^ (size * 8)
    → r < 2 ^ (size * 8)
    → Modular (2 ^ (size * 8)) l r op v
    → folduint op size l r ≡ ok (some v)
unfolding folduint switch
folduint-Modular {l = l} {r = r} s hl hr add = masked _ _ s (wrapped (l + r) s)
folduint-Modular {l = l} {r = r} s hl hr sub = masked _ _ s (wrapped_difference l r s hr)
folduint-Modular {l = l} {r = r} s hl hr mul = masked _ _ s (wrapped (l * r) s)
folduint-Modular {l = l} {r = r} s hl hr (div h) =
    rw (not_zero r h) (masked_below (l / r) s (omega (arith, div-le_self l r)))
folduint-Modular {l = l} {r = r} s hl hr (rem h) =
    rw (not_zero r h) (masked_below (l % r) s (omega (arith, mod-le l r)))
folduint-Modular {l = l} {r = r} s hl hr (shl h) =
    rw (lt→ltb r 64 h) (masked _ _ s (wrapped (l * 2 ^ r) s))
folduint-Modular {l = l} {r = r} s hl hr (shr h) =
    rw (lt→ltb r 64 h) (masked_below (l / 2 ^ r) s (omega (arith, div-le_self l (2 ^ r))))
folduint-Modular {l = l} {r = r} s hl hr sneg = masked _ _ s (wrapped_negation l s hl)
folduint-Modular {l = l} {r = r} s hl hr cpl = masked _ _ s (wrapped_complement l s hl)
folduint-Modular {l = l} {r = r} s hl hr neg =
    ground (arith, masked_below 0 s, masked_below 1 s, truth_below true s)
folduint-Modular {l = l} {r = r} s hl hr lt = refl
folduint-Modular {l = l} {r = r} s hl hr gt = refl
folduint-Modular {l = l} {r = r} s hl hr le = refl
folduint-Modular {l = l} {r = r} s hl hr ge = refl
folduint-Modular {l = l} {r = r} s hl hr eq = refl
folduint-Modular {l = l} {r = r} s hl hr ne = refl
folduint-Modular {size = size} {l = l} {r = r} s hl hr band =
    masked_below (bit_and l r) s (bit_and-lt (size * 8) l r hl hr)
folduint-Modular {size = size} {l = l} {r = r} s hl hr bxor =
    masked_below (bit_xor l r) s (bit_xor-lt (size * 8) l r hl hr)
folduint-Modular {size = size} {l = l} {r = r} s hl hr bor =
    masked_below (bit_or l r) s (bit_or-lt (size * 8) l r hl hr)
folduint-Modular s hl hr and = refl
folduint-Modular s hl hr or = refl
