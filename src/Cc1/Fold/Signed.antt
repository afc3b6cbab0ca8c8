-- ===== src/Cc1/Fold/Signed.antt =====
-- Folding of signed integers: the validators and `foldint` of fold.c. A TINT is an integer of 64
-- bits; arithmetic that leaves them is undefined, as are C's shifts out of range.
pub mod Exact
pub mod Limits
pub mod Range
pub mod Sound
use simple_scc.Common.{
  ℕ, ◌+◌, ◌-◌, ◌*◌, ◌/◌, ◌^◌, ◌<◌, ◌≤◌, bit_and, bit_or, bit_xor, Bool, true, false, not, ◌&&◌,
  ◌||◌, Option, none, some, ltb, leb, ◌==◌, if◌then◌else◌,
}
use simple_scc.Common.Int.{
  ℤ, pos, negsuc, pos_part, neg_part, neg, negate, ◌+ℤ◌, ◌-ℤ◌, ◌*ℤ◌, quot, rem, ltb_ℤ, leb_ℤ, eqb_ℤ,
  to_signed, to_word,
}
use simple_scc.Common.Ub.{Ub, ok, undefined, ◌>>=◌}
use simple_scc.Cc1.Types.{Ctype, getlimits}
use simple_scc.Cc1.Fold.Op.{Op}

-- A result of TINT arithmetic.
unfoldable pub tint : ℤ → Ub ℤ
tint v = if ltb (pos_part v) (2 ^ 63) && leb (neg_part v) (2 ^ 63) then ok v else undefined

abbrev is_neg : ℤ → Bool
is_neg v = ltb_ℤ v (pos 0)

abbrev is_pos : ℤ → Bool
is_pos v = ltb_ℤ (pos 0) v

-- The six tests of `addi`; each difference is read only where it cannot overflow.
unfoldable pub sum_fits : ℤ → ℤ → ℤ → ℤ → Bool
sum_fits max min l r =
    is_neg l && is_neg r && leb_ℤ (min -ℤ r) l
    || eqb_ℤ l (pos 0)
    || eqb_ℤ r (pos 0)
    || is_neg l && is_pos r
    || is_pos l && is_neg r
    || is_pos l && is_pos r && leb_ℤ l (max -ℤ r)

unfoldable pub addi : ℤ → ℤ → Ctype → Ub Bool
addi l r tp = do lim ← getlimits tp; ok (sum_fits (to_signed lim.max) (to_signed lim.min) l r)

unfoldable pub subi : ℤ → ℤ → Ctype → Ub Bool
unfolding tint
subi l r tp = do r' ← tint (negate r); addi l r' tp

-- `l > -1 && l <= 1`
abbrev zero_or_one : ℤ → Bool
zero_or_one v = ltb_ℤ (negsuc 0) v && leb_ℤ v (pos 1)

-- The six tests of `muli`, in their order.
unfoldable pub product_fits : ℤ → ℤ → ℤ → ℤ → Ub Bool
unfolding tint
product_fits max min l r =
    if zero_or_one l || zero_or_one r
    then ok true
    else if is_neg l && is_neg r
    then (do l' ← tint (negate l); r' ← tint (negate r); ok (leb_ℤ l' (quot max r')))
    else if is_neg l && is_pos r
    then ok (leb_ℤ (quot min r) l)
    else if is_pos l && is_neg r
    then ok (leb_ℤ (quot min l) r)
    else ok (is_pos l && is_pos r && leb_ℤ l (quot max r))

unfoldable pub muli : ℤ → ℤ → Ctype → Ub Bool
muli l r tp = do lim ← getlimits tp; product_fits (to_signed lim.max) (to_signed lim.min) l r

-- `-lim->min.i` is a TUINT, so `l` is compared with it as a word.
unfoldable pub divi : ℤ → ℤ → Ctype → Ub Bool
divi l r tp = do
  lim ← getlimits tp
  ok (
      not (
        eqb_ℤ r (pos 0) || to_word l == to_word (negate (to_signed lim.min)) && eqb_ℤ r (negsuc 0)))

-- `1 << r` is a shift of an int.
unfoldable pub lshi : ℤ → ℤ → Ctype → Ub Bool
lshi l r tp =
    if is_neg r || leb_ℤ (pos (tp.size * 8)) r
    then ok false
    else if ltb (pos_part r) 31
    then muli l (pos (2 ^ pos_part r)) tp
    else undefined

unfoldable pub rshi : ℤ → ℤ → Ctype → Ub Bool
rshi l r tp = ok (not (is_neg r || leb_ℤ (pos (tp.size * 8)) r))

-- A left shift is undefined for a negative value, a product that is no TINT, and a count outside 0 … 63.
unfoldable pub shift_left : ℤ → ℤ → Ub ℤ
unfolding tint
shift_left (pos l) (pos r) = if ltb r 64 then tint (pos l *ℤ pos (2 ^ r)) else undefined
shift_left (negsuc l) (pos r) = undefined
shift_left l (negsuc r) = undefined

-- A right shift of a negative value rounds down, as the compilers do that leave this to themselves;
-- undefined for a count outside 0 … 63.
unfoldable pub shift_right : ℤ → ℤ → Ub ℤ
shift_right (pos l) (pos r) = if ltb r 64 then ok (pos (l / 2 ^ r)) else undefined
shift_right (negsuc l) (pos r) = if ltb r 64 then ok (negsuc (l / 2 ^ r)) else undefined
shift_right l (negsuc r) = undefined

unfoldable pub of_bool : Bool → ℤ
of_bool b = if b then pos 1 else pos 0

abbrev truth : ℤ → Bool
truth v = not (eqb_ℤ v (pos 0))

-- The second switch of `foldint`.
unfoldable pub compute : Op → ℤ → ℤ → Ub (Option ℤ)
unfolding tint shift_left shift_right of_bool
compute Op.add l r = do v ← tint (l +ℤ r); ok (some v)
compute Op.sub l r = do v ← tint (l -ℤ r); ok (some v)
compute Op.mul l r = do v ← tint (l *ℤ r); ok (some v)
compute Op.div l r = if eqb_ℤ r (pos 0) then undefined else (do v ← tint (quot l r); ok (some v))
compute Op.rem l r =
    if eqb_ℤ r (pos 0) then undefined else (do q ← tint (quot l r); ok (some (rem l r)))
compute Op.shl l r = do v ← shift_left l r; ok (some v)
compute Op.shr l r = do v ← shift_right l r; ok (some v)
compute Op.band l r = ok (some (to_signed (bit_and (to_word l) (to_word r))))
compute Op.bxor l r = ok (some (to_signed (bit_xor (to_word l) (to_word r))))
compute Op.bor l r = ok (some (to_signed (bit_or (to_word l) (to_word r))))
compute Op.and l r = ok (some (of_bool (truth l && truth r)))
compute Op.or l r = ok (some (of_bool (truth l || truth r)))
compute Op.lt l r = ok (some (of_bool (ltb_ℤ l r)))
compute Op.gt l r = ok (some (of_bool (ltb_ℤ r l)))
compute Op.ge l r = ok (some (of_bool (leb_ℤ r l)))
compute Op.le l r = ok (some (of_bool (leb_ℤ l r)))
compute Op.eq l r = ok (some (of_bool (eqb_ℤ l r)))
compute Op.ne l r = ok (some (of_bool (not (eqb_ℤ l r))))
compute Op.neg l r = ok (some (of_bool (not (truth l))))
compute Op.sneg l r = do v ← tint (negate l); ok (some v)
compute Op.cpl l r = ok (some (negsuc 0 -ℤ l))
compute _ l r = ok none

-- The first switch: no validator accepts all operands.
unfoldable pub validate : Op → ℤ → ℤ → Ctype → Ub Bool
validate Op.add l r tp = addi l r tp
validate Op.sub l r tp = subi l r tp
validate Op.mul l r tp = muli l r tp
validate Op.div l r tp = divi l r tp
validate Op.shl l r tp = lshi l r tp
validate Op.shr l r tp = rshi l r tp
validate Op.rem l r tp = divi l r tp
validate _ l r tp = ok true

-- `some i` is the value stored in `res`; `none` means that nothing was folded.
unfoldable pub foldint : Op → Ctype → ℤ → ℤ → Ub (Option ℤ)
foldint op tp l r = do valid ← validate op l r tp; if valid then compute op l r else ok none
