-- ===== src/Cc1/Fold/Signed/Exact.antt =====
-- The tests that `addi` and `muli` make, against exact integer arithmetic.
use simple_scc.Common.{
  ℕ, zero, suc, ◌-◌, ◌*◌, ◌/◌, ◌<◌, ◌≤◌, ◌^◌, ◌≡◌, refl, arith, Bool, leb, ◌&&◌,
}
use simple_scc.Common.Int.{
  ℤ, pos, negsuc, pos_part, neg_part, negate, ◌-ℤ◌, neg, ◌+ℤ◌, ◌-ℤ◌, ◌*ℤ◌, quot, neg_parts,
  neg_parts',
}
use simple_scc.Common.Ub.{ok}
use simple_scc.Cc1.Fold.Signed.{sum_fits, product_fits, tint}

-- The values of a signed type whose largest value is `top`: from `-top - 1` to `top`.
pub record InRange (top : ℕ) (v : ℤ) : Type 0 where
  pub above : pos_part v ≤ top
  pub below : neg_part v ≤ suc top

abbrev pub in_range : ℕ → ℤ → Bool
in_range top v = leb (pos_part v) top && leb (neg_part v) (suc top)

pub sum_fits-exact :
    (top : ℕ) (l r : ℤ)
    → InRange top l
    → InRange top r
    → sum_fits (pos top) (negsuc top) l r ≡ in_range top (l +ℤ r)
unfolding sum_fits ◌+ℤ◌ ◌-ℤ◌
sum_fits-exact top (pos a) (pos b) hl hr = ground arith
sum_fits-exact top (pos a) (negsuc b) hl hr = ground arith
sum_fits-exact top (negsuc a) (pos b) hl hr = ground arith
sum_fits-exact top (negsuc a) (negsuc b) hl hr = ground arith

-- Division by a positive number, as a bound on a product.
le-div : (a m b : ℕ) → a ≤ m / suc b → a * suc b ≤ m
le-div a m b h = grind arith

div-lt : (a m b : ℕ) → m / suc b < a → m < a * suc b
div-lt a m b h = grind arith

leb-div : (a m b : ℕ) → leb a (m / suc b) ≡ leb (a * suc b) m
leb-div a m b = ground (arith, le-div a m b, div-lt a m b)

leb-suc_div : (a m b : ℕ) → leb (suc a) (m / suc b) ≡ leb (suc a * suc b) m
leb-suc_div a m b = leb-div (suc a) m b

in_range-neg : (top n : ℕ) → in_range top (neg n) ≡ leb n (suc top)
in_range-neg top zero = ground arith
in_range-neg top (suc n) = ground arith

-- `product_fits` for each pair of signs.
product_pos :
    (top a b : ℕ)
    → a ≤ top
    → b ≤ top
    → product_fits (pos top) (negsuc top) (pos a) (pos b) ≡ ok (leb (a * b) top)
unfolding product_fits quot
product_pos top a zero ha hb = ground arith
product_pos top a (suc zero) ha hb = ground arith
product_pos top zero (suc (suc b)) ha hb = ground arith
product_pos top (suc zero) (suc (suc b)) ha hb = ground arith
product_pos top (suc (suc a)) (suc (suc b)) ha hb =
    ground (arith, leb-div (suc (suc a)) top (suc b))

product_pos_neg :
    (top a b : ℕ)
    → a ≤ top
    → b ≤ top
    → product_fits (pos top) (negsuc top) (pos a) (negsuc b) ≡ ok (leb (a * suc b) (suc top))
unfolding product_fits quot
product_pos_neg top zero b ha hb = ground arith
product_pos_neg top (suc zero) b ha hb = ground arith
product_pos_neg top (suc (suc a)) b ha hb = ground (
  arith,
  leb-div (suc b) (suc top) (suc a),
  neg_parts (suc top / suc (suc a)),
  neg_parts' (suc top / suc (suc a)),
)

product_neg_pos :
    (top a b : ℕ)
    → a ≤ top
    → b ≤ top
    → product_fits (pos top) (negsuc top) (negsuc a) (pos b) ≡ ok (leb (suc a * b) (suc top))
unfolding product_fits quot
product_neg_pos top a zero ha hb = ground arith
product_neg_pos top a (suc zero) ha hb = ground arith
product_neg_pos top a (suc (suc b)) ha hb = ground (
  arith,
  leb-div (suc a) (suc top) (suc b),
  neg_parts (suc top / suc (suc b)),
  neg_parts' (suc top / suc (suc b)),
)

product_neg :
    (top a b : ℕ)
    → a < 2 ^ 63 - 1
    → b < 2 ^ 63 - 1
    → product_fits (pos top) (negsuc top) (negsuc a) (negsuc b) ≡ ok (leb (suc a * suc b) top)
unfolding product_fits quot tint
product_neg top a b ha hb = ground (arith, leb-div (suc a) top b)

-- The minimum of the 64-bit type cannot be negated, so it is left out.
pub product_fits-exact :
    (top : ℕ) (l r : ℤ)
    → InRange top l
    → InRange top r
    → neg_part l < 2 ^ 63
    → neg_part r < 2 ^ 63
    → product_fits (pos top) (negsuc top) l r ≡ ok (in_range top (l *ℤ r))
unfolding ◌*ℤ◌
product_fits-exact top (pos a) (pos b) hl hr hl' hr' = ground (arith, product_pos top a b)
product_fits-exact top (pos a) (negsuc b) hl hr hl' hr' =
    ground (arith, product_pos_neg top a b, in_range-neg top (a * suc b))
product_fits-exact top (negsuc a) (pos b) hl hr hl' hr' =
    ground (arith, product_neg_pos top a b, in_range-neg top (suc a * b))
product_fits-exact top (negsuc a) (negsuc b) hl hr hl' hr' = ground (arith, product_neg top a b)

-- `subi` adds the negation, which is no value of the type at the minimum: there zero minus the
-- minimum is let through.
pub sum_fits-negate :
    (top : ℕ) (l r : ℤ)
    → InRange top l
    → InRange top r
    → (l ≡ pos 0 → neg_part r ≤ top)
    → sum_fits (pos top) (negsuc top) l (negate r) ≡ in_range top (l -ℤ r)
unfolding sum_fits ◌-ℤ◌
sum_fits-negate top (pos zero) (pos zero) hl hr h = ground arith
sum_fits-negate top (pos zero) (pos (suc b)) hl hr h = ground arith
sum_fits-negate top (pos zero) (negsuc b) hl hr h = ground (arith, h refl)
sum_fits-negate top (pos (suc a)) (pos zero) hl hr h = ground arith
sum_fits-negate top (pos (suc a)) (pos (suc b)) hl hr h = ground arith
sum_fits-negate top (pos (suc a)) (negsuc b) hl hr h = ground arith
sum_fits-negate top (negsuc a) (pos zero) hl hr h = ground arith
sum_fits-negate top (negsuc a) (pos (suc b)) hl hr h = ground arith
sum_fits-negate top (negsuc a) (negsuc b) hl hr h = ground arith
