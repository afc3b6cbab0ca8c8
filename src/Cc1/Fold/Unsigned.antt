-- ===== src/Cc1/Fold/Unsigned.antt =====
-- Folding of unsigned integers and pointers: `folduint` of fold.c. A TUINT is a 64-bit word.
pub mod Modular
use simple_scc.Common.{
  ℕ, ◌+◌, ◌-◌, ◌*◌, ◌/◌, ◌%◌, ◌^◌, bit_and, bit_or, bit_xor, Bool, not, ◌&&◌, ◌||◌, Option, none,
  some, ltb, leb, ◌==◌, if◌then◌else◌,
}
use simple_scc.Common.Ub.{Ub, ok, undefined, ◌>>=◌}
use simple_scc.Cc1.Types.{ones}
use simple_scc.Cc1.Fold.Op.{Op}

abbrev pub of_bool : Bool → ℕ
of_bool b = if b then 1 else 0

abbrev truth : ℕ → Bool
truth v = not (v == 0)

-- The switch: `word u` for the cases that leave `u` to be masked, `sign i` for those that jump to
-- `sign`, `other` for the default.
pub data Case : Type 0 where
  word sign : ℕ → Case
  other : Case

unfoldable pub switch : Op → ℕ → ℕ → Ub Case
switch Op.add l r = ok (word ((l + r) % 2 ^ 64))
switch Op.sub l r = ok (word ((l + 2 ^ 64 - r) % 2 ^ 64))
switch Op.mul l r = ok (word (l * r % 2 ^ 64))
switch Op.div l r = if r == 0 then undefined else ok (word (l / r))
switch Op.rem l r = if r == 0 then undefined else ok (word (l % r))
switch Op.shl l r = if ltb r 64 then ok (word (l * 2 ^ r % 2 ^ 64)) else undefined
switch Op.shr l r = if ltb r 64 then ok (word (l / 2 ^ r)) else undefined
switch Op.band l r = ok (word (bit_and l r))
switch Op.bxor l r = ok (word (bit_xor l r))
switch Op.bor l r = ok (word (bit_or l r))
switch Op.neg l r = ok (word (of_bool (not (truth l))))
switch Op.sneg l r = ok (word ((2 ^ 64 - l) % 2 ^ 64))
switch Op.cpl l r = ok (word (2 ^ 64 - 1 - l))
switch Op.and l r = ok (sign (of_bool (truth l && truth r)))
switch Op.or l r = ok (sign (of_bool (truth l || truth r)))
switch Op.lt l r = ok (sign (of_bool (ltb l r)))
switch Op.gt l r = ok (sign (of_bool (ltb r l)))
switch Op.ge l r = ok (sign (of_bool (leb r l)))
switch Op.le l r = ok (sign (of_bool (leb l r)))
switch Op.eq l r = ok (sign (of_bool (l == r)))
switch Op.ne l r = ok (sign (of_bool (not (l == r))))
switch _ l r = ok other

store : ℕ → Case → Option ℕ
store size (word u) = some (bit_and u (ones size))
store size (sign i) = some i
store size other = none

-- `size` is `res->type->size`; the answer is the word stored in `res`, `none` if nothing was folded.
unfoldable pub folduint : Op → ℕ → ℕ → ℕ → Ub (Option ℕ)
unfolding store
folduint op size l r = do c ← switch op l r; ok (store size c)
