-- ===== src/Cc1/Fold/Simplify.antt =====
-- `xxsimplify`, `xsimplify` and `simplify` of fold.c: children first, then the node, again as long
-- as its operation changes.
use simple_scc.Common.{ℕ, zero, suc, ◌+◌, ◌*◌, Bool, true, false, Option, none, some}
use simple_scc.Common.Ub.{Ub, ok, undefined, ◌>>=◌}
use simple_scc.Cc1.Fold.Op.{Op, same_op}
use simple_scc.Cc1.Fold.Floating.{FloatOps}
use simple_scc.Cc1.Fold.Tree.{Tree, nil, node}
use simple_scc.Cc1.Fold.Constant.{fold}
use simple_scc.Cc1.Fold.Unary.{foldunary}
use simple_scc.Cc1.Fold.Binary.{commutative, associative, identity, reduce, foldternary}

-- The cases of the switch of `xxsimplify`. Two more, INC and DEC, are tokens of the lexer, which no
-- node has for its operation.
pub data Shape : Type 0 where
  ternary fixed unary binary : Shape

unfoldable pub shape : Op → Shape
shape Op.ask = ternary
shape Op.call = fixed
shape Op.par = fixed
shape Op.sym = fixed
shape Op.assign = fixed
shape Op.a_mul = fixed
shape Op.a_div = fixed
shape Op.a_mod = fixed
shape Op.a_add = fixed
shape Op.a_sub = fixed
shape Op.a_shl = fixed
shape Op.a_shr = fixed
shape Op.a_and = fixed
shape Op.a_xor = fixed
shape Op.a_or = fixed
shape Op.sneg = unary
shape Op.cpl = unary
shape Op.addr = unary
shape Op.ptr = unary
shape Op.cast = unary
shape Op.neg = unary
shape op = binary

pub size : {F : Type 0} → Tree F → ℕ
size nil = 0
size (node op tp k sym l r) = suc (size l + size r)

abbrev pub op_of : {F : Type 0} → Tree F → Op
op_of nil = Op.sym
op_of (node op tp k sym l r) = op

module _ (fl : FloatOps) where
  open fl use {F}

  -- A unary node with a right child fails the assertion.
  unary_step : Tree F → Ub (Tree F)
  unary_step (node op tp k sym l nil) = do np ← foldunary fl (node op tp k sym l nil); fold fl np
  unary_step _ = undefined

  binary_step : Tree F → Ub (Tree F)
  binary_step np = do
    np ← associative fl (commutative fl np)
    np ← fold fl np
    ok (reduce fl (identity fl np))

  by_shape : Shape → Tree F → Ub (Tree F)
  by_shape ternary np = foldternary fl np
  by_shape fixed np = ok np
  by_shape unary np = unary_step np
  by_shape binary np = binary_step np

  -- One round of the switch.
  unfoldable pub round : Op → Tree F → Ub (Tree F)
  unfolding by_shape unary_step binary_step shape
  round op np = by_shape (shape op) np

  -- Whether the loop stops; the operation of a null pointer is not read.
  next : Op → Tree F → Option Bool
  next op nil = none
  next op (node op' tp k sym l r) = some (same_op op op')

  -- The loop on a node; `none` means that the fuel ran out.
  unfoldable pub repeat : ℕ → Op → Tree F → Ub (Option (Tree F))
  unfolding next same_op
  repeat zero op np = ok none
  repeat (suc fuel) op np = do
    np ← round op np
    elim (next op np) [
      | none ↦ undefined
      | some true ↦ ok (some np)
      | some false ↦ repeat fuel (op_of np) np
    ]

  -- The rounds that are allowed.
  rounds : Tree F → ℕ
  rounds np = suc (4 * size np + 3)

  unfoldable pub simplify : Tree F → Ub (Option (Tree F))
  unfolding rounds
  simplify nil = ok (some nil)
  simplify (node op tp k sym l r) = do
    l' ← simplify l
    r' ← simplify r
    elim l' [
      | none ↦ ok none
      | some l'' ↦ elim r' [
        | none ↦ ok none
        | some r'' ↦ repeat (rounds (node op tp k sym l'' r'')) op (node op tp k sym l'' r'')
      ]
    ]
