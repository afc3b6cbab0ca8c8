-- ===== src/Cc1/Fold/Signed/Limits.antt =====
-- The limits of the signed types, the table in types.c, as integers.
use simple_scc.Common.{ℕ, suc, ◌-◌, ◌*◌, ◌<◌, ◌^◌, ◌≡◌, ◌⊎◌, inl, inr, refl, arith, true}
use simple_scc.Common.Int.{pos, negsuc, to_signed}
use simple_scc.Common.Ub.{ok}
use simple_scc.Cc1.Types.{Ctype, TypeOp, getlimits, limits_of, signed_limits}
use simple_scc.Cc1.Types.{IsSize, one, two, four, eight}

-- The table of limits gives `tp` the values from `- top - 1` to `top`, and they fit 64 bits.
pub record IsSigned (tp : Ctype) (top : ℕ) : Type 0 where
  pub limits_eq : getlimits tp ≡ ok (record { max = top; min = 2 ^ 64 - suc top })
  pub fits : top < 2 ^ 63

pub to_signed-top : (top : ℕ) → top < 2 ^ 63 → to_signed top ≡ pos top
unfolding to_signed
to_signed-top top h = ground arith

pub to_signed-min : (top : ℕ) → top < 2 ^ 63 → to_signed (2 ^ 64 - suc top) ≡ negsuc top
unfolding to_signed
to_signed-min top h = ground arith

-- The table of limits at each size.
limits_of-signed :
    {size : ℕ} (o : TypeOp)
    → (o ≡ TypeOp.int) ⊎ (o ≡ TypeOp.enum)
    → IsSize size
    → limits_of o true size
      ≡ ok (record { max = 2 ^ (size * 8 - 1) - 1; min = 2 ^ 64 - suc (2 ^ (size * 8 - 1) - 1) })
unfolding limits_of signed_limits
limits_of-signed TypeOp.int h one = refl
limits_of-signed TypeOp.int h two = refl
limits_of-signed TypeOp.int h four = refl
limits_of-signed TypeOp.int h eight = refl
limits_of-signed TypeOp.enum h one = refl
limits_of-signed TypeOp.enum h two = refl
limits_of-signed TypeOp.enum h four = refl
limits_of-signed TypeOp.enum h eight = refl
limits_of-signed _ (inl h) z = cc
limits_of-signed _ (inr h) z = cc

top_fits : {size : ℕ} → IsSize size → 2 ^ (size * 8 - 1) - 1 < 2 ^ 63
top_fits one = omega arith
top_fits two = omega arith
top_fits four = omega arith
top_fits eight = omega arith

-- The signed integer and enumeration types of 1, 2, 4 and 8 bytes have the limits of values from
-- -2 ^ (bits - 1) to 2 ^ (bits - 1) - 1, and these fit 64 bits.
pub getlimits-IsSigned :
    (tp : Ctype)
    → (tp.op ≡ TypeOp.int) ⊎ (tp.op ≡ TypeOp.enum)
    → tp.signed ≡ true
    → IsSize tp.size
    → IsSigned tp (2 ^ (tp.size * 8 - 1) - 1)
unfolding getlimits
getlimits-IsSigned tp ho hs hz = record {
  limits_eq = rw hs (limits_of-signed tp.op ho hz);
  fits = top_fits hz;
}
