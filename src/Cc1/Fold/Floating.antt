-- ===== src/Cc1/Fold/Floating.antt =====
-- Folding of floating constants: the validators and `foldfloat` of fold.c. TFLOAT is the host's
-- floating type; its operations are a parameter.
use simple_scc.Common.{
  ℕ, Bool, true, false, not, ◌&&◌, ◌||◌, Option, none, some, ◌==◌, if◌then◌else◌,
}
use simple_scc.Common.Int.{ℤ, pos, negsuc}
use simple_scc.Common.Ub.{Ub, ok, undefined}
use simple_scc.Cc1.Types.{Ctype}
use simple_scc.Cc1.Fold.Op.{Op}

-- `bits` and `of_bits` read the members of the union `u` of a symbol through one another.
pub record FloatOps : Type 1 where
  pub F : Type 0
  pub fadd : F → F → F
  pub fsub : F → F → F
  pub fmul : F → F → F
  pub fdiv : F → F → F
  pub fneg : F → F
  pub flt : F → F → Bool
  pub fle : F → F → Bool
  pub feq : F → F → Bool
  pub of_int : ℤ → F
  pub to_tuint : F → ℕ
  pub bits : F → ℕ
  pub of_bits : ℕ → F

-- The union `u` of a constant: a TINT or TUINT, a 64-bit word, or a TFLOAT.
pub data Value (F : Type 0) : Type 0 where
  word : ℕ → Value F
  real : F → Value F

module _ (fl : FloatOps) where
  open fl use {F, fadd, fsub, fmul, fdiv, fneg, flt, fle, feq, of_int, bits, of_bits}

  unfoldable pub as_word : Value F → ℕ
  as_word (word w) = w
  as_word (real f) = bits f

  unfoldable pub as_real : Value F → F
  as_real (word w) = of_bits w
  as_real (real f) = f

  -- The table of limits holds -1 and 2 for the three floating sizes.
  float_sized : ℕ → Bool
  float_sized size = size == 4 || size == 8 || size == 16

  fmin : F
  fmin = of_int (negsuc 0)

  fmax : F
  fmax = of_int (pos 2)

  zero_f : F
  zero_f = of_int (pos 0)

  sum_fits_f : F → F → Bool
  sum_fits_f l r =
      flt l zero_f && flt r zero_f && fle (fsub fmin r) l
      || feq l zero_f
      || feq r zero_f
      || flt l zero_f && flt zero_f r
      || flt zero_f l && flt r zero_f
      || flt zero_f l && flt zero_f r && fle l (fsub fmax r)

  product_fits_f : F → F → Bool
  product_fits_f l r =
      flt (of_int (negsuc 0)) l && fle l (of_int (pos 1))
      || flt (of_int (negsuc 0)) r && fle r (of_int (pos 1))
      || flt l zero_f && flt r zero_f && fle (fneg l) (fdiv fmax (fneg r))
      || flt l zero_f && flt zero_f r && fle (fdiv fmin r) l
      || flt zero_f l && flt r zero_f && fle (fdiv fmin l) r
      || flt zero_f l && flt zero_f r && fle l (fdiv fmax r)

  magnitude : F → F
  magnitude v = if flt v zero_f then fneg v else v

  quotient_fits_f : F → F → Bool
  quotient_fits_f l r = not (feq r zero_f || flt r (of_int (pos 1)) && flt (fmul fmax r) l)

  -- `addf`, `subf`, `mulf`, `divf`, or no validator.
  unfoldable pub validate_f : Op → F → F → Bool
  unfolding sum_fits_f product_fits_f quotient_fits_f magnitude zero_f fmin fmax
  validate_f Op.add l r = sum_fits_f l r
  validate_f Op.sub l r = sum_fits_f l (fneg r)
  validate_f Op.mul l r = product_fits_f l r
  validate_f Op.div l r = quotient_fits_f (magnitude l) (magnitude r)
  validate_f _ l r = true

  -- The second switch; a comparison stores an integer.
  unfoldable pub compute_f : Op → F → F → Option (Value F)
  compute_f Op.add l r = some (real (fadd l r))
  compute_f Op.sub l r = some (real (fsub l r))
  compute_f Op.mul l r = some (real (fmul l r))
  compute_f Op.div l r = some (real (fdiv l r))
  compute_f Op.lt l r = some (word (if flt l r then 1 else 0))
  compute_f Op.gt l r = some (word (if flt r l then 1 else 0))
  compute_f Op.ge l r = some (word (if fle r l then 1 else 0))
  compute_f Op.le l r = some (word (if fle l r then 1 else 0))
  compute_f Op.eq l r = some (word (if feq l r then 1 else 0))
  compute_f Op.ne l r = some (word (if feq l r then 0 else 1))
  compute_f _ l r = none

  validated : Op → Bool
  validated Op.add = true
  validated Op.sub = true
  validated Op.mul = true
  validated Op.div = true
  validated _ = false

  -- The index into the table of limits is not set for another size.
  unfoldable pub foldfloat : Op → Ctype → F → F → Ub (Option (Value F))
  unfolding validate_f compute_f validated float_sized
  foldfloat op tp l r =
      if validated op && not (float_sized tp.size)
      then undefined
      else if validate_f op l r
      then ok (compute_f op l r)
      else ok none
