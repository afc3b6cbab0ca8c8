-- ===== src/Cc1/Fold/Binary.antt =====
-- `commutative`, `identity`, `foldternary`, `reduce` and `associative` of fold.c, with `negop` of
-- expr.c.
use simple_scc.Common.{
  ◌-◌, ◌^◌, Bool, true, false, not, ◌&&◌, ◌||◌, Option, none, some, if◌then◌else◌,
}
use simple_scc.Common.Ub.{Ub, ok, undefined, ◌>>=◌}
use simple_scc.Cc1.Types.{Ctype}
use simple_scc.Cc1.Fold.Op.{Op, same_op}
use simple_scc.Cc1.Fold.Floating.{FloatOps, word, as_word}
use simple_scc.Cc1.Fold.Tree.{Symbol, Tree, nil, node, is_constant, cmpnode, power2node}
use simple_scc.Cc1.Fold.Constant.{fold}

-- The negation of a comparison; the code aborts for another operation.
unfoldable pub negop : Op → Op
negop Op.eq = Op.ne
negop Op.ne = Op.eq
negop Op.lt = Op.ge
negop Op.ge = Op.lt
negop Op.le = Op.gt
negop Op.gt = Op.le
negop op = op

-- The operation after the operands are exchanged, where `commutative` exchanges them.
unfoldable pub exchanged : Op → Option Op
exchanged Op.lt = some (negop Op.lt)
exchanged Op.gt = some (negop Op.gt)
exchanged Op.ge = some (negop Op.ge)
exchanged Op.le = some (negop Op.le)
exchanged Op.eq = some Op.eq
exchanged Op.ne = some Op.ne
exchanged Op.add = some Op.add
exchanged Op.mul = some Op.mul
exchanged Op.band = some Op.band
exchanged Op.bxor = some Op.bxor
exchanged Op.bor = some Op.bor
exchanged op = none

-- What `identity` does with a node.
pub data Action : Type 0 where
  keep free_right free_left change_to_comma : Action

-- The switch of `identity`, on whether the right and left operands are the constants 0 and 1, and
-- whether the right one is -1.
unfoldable pub identity_action : Op → Bool → Bool → Bool → Bool → Bool → Action
identity_action Op.or zero_r one_r zero_l one_l ones_r =
    if one_l || zero_r
    then free_right
    else if zero_l
    then free_left
    else if one_r
    then change_to_comma
    else keep
identity_action Op.and zero_r one_r zero_l one_l ones_r =
    if zero_l || one_r
    then free_right
    else if one_l
    then free_left
    else if zero_r
    then change_to_comma
    else keep
identity_action Op.shl zero_r one_r zero_l one_l ones_r =
    if zero_r || zero_l then free_right else keep
identity_action Op.shr zero_r one_r zero_l one_l ones_r =
    if zero_r || zero_l then free_right else keep
identity_action Op.bxor zero_r one_r zero_l one_l ones_r = if zero_r then free_right else keep
identity_action Op.add zero_r one_r zero_l one_l ones_r = if zero_r then free_right else keep
identity_action Op.bor zero_r one_r zero_l one_l ones_r = if zero_r then free_right else keep
identity_action Op.sub zero_r one_r zero_l one_l ones_r = if zero_r then free_right else keep
identity_action Op.mul zero_r one_r zero_l one_l ones_r =
    if zero_r then change_to_comma else if one_r then free_right else keep
identity_action Op.div zero_r one_r zero_l one_l ones_r = if one_r then free_right else keep
identity_action Op.band zero_r one_r zero_l one_l ones_r = if ones_r then free_right else keep
identity_action Op.rem zero_r one_r zero_l one_l ones_r = if one_r then change_to_comma else keep
identity_action op zero_r one_r zero_l one_l ones_r = keep

module _ (fl : FloatOps) where
  open fl use {F}

  exchange : Option Op → Tree F → Tree F
  exchange (some op') (node op tp k sym l r) = node op' tp k sym r l
  exchange _ np = np

  -- A constant left operand goes to the right.
  unfoldable pub commutative : Tree F → Tree F
  unfolding exchange exchanged negop
  commutative (node op tp k sym l nil) = node op tp k sym l nil
  commutative (node op tp k sym l r) =
      if is_constant r || not (is_constant l)
      then node op tp k sym l r
      else exchange (exchanged op) (node op tp k sym l r)
  commutative nil = nil

  unfoldable pub act : Action → Tree F → Tree F
  act free_right (node op tp k sym l r) = l
  act free_left (node op tp k sym l r) = r
  act change_to_comma (node op tp k sym l r) = node Op.comma tp k sym l r
  act _ np = np

  unfoldable pub identity : Tree F → Tree F
  unfolding act identity_action
  identity (node op tp k sym l nil) = node op tp k sym l nil
  identity (node op tp k sym l r) =
      let action =
        identity_action op (cmpnode fl r 0) (cmpnode fl r 1) (cmpnode fl l 0) (cmpnode fl l 1)
          (cmpnode fl r (2 ^ 64 - 1)) in
      act action (node op tp k sym l r)
  identity nil = nil

  -- `cond ? yes : no` with a constant condition; the body is the colon.
  unfoldable pub foldternary : Tree F → Ub (Tree F)
  foldternary (node op tp k sym cond (node op' tp' k' sym' body_yes body_no)) =
      if is_constant cond
      then ok (if cmpnode fl cond 0 then body_no else body_yes)
      else ok (node op tp k sym cond (node op' tp' k' sym' body_yes body_no))
  foldternary (node op tp k sym cond nil) =
      if is_constant cond then undefined else ok (node op tp k sym cond nil)
  foldternary nil = undefined

  -- The constant with its value less one.
  less_one : Tree F → Tree F
  less_one (node op tp k (some s) l r) =
      node op tp k (some (record s { value = word (as_word fl s.value - 1) })) l r
  less_one np = np

  -- A remainder by a power of two is a mask.
  unfoldable pub reduce : Tree F → Tree F
  unfolding less_one
  reduce (node Op.rem tp k sym l r) =
      if power2node fl r then node Op.band tp k sym l (less_one r) else node Op.rem tp k sym l r
  reduce np = np

  associates : Op → Bool
  associates Op.add = true
  associates Op.mul = true
  associates Op.band = true
  associates Op.bxor = true
  associates Op.bor = true
  associates op = false

  is_sym : Op → Bool
  is_sym Op.sym = true
  is_sym op = false

  -- The node of the left child is used again for the right operand and the constant `c`.
  regroup : Op → Ctype → Bool → Option (Symbol F) → Tree F → Tree F → Ub (Tree F)
  regroup op tp k sym (node op' tp' k' sym' x (node op'' tp'' k'' (some s) a b)) r =
      if same_op op op' && is_sym op'' && s.constant
      then (do
        right ← fold fl (node op' tp' k' sym' r (node op'' tp'' k'' (some s) a b))
        ok (node op tp k sym x right))
      else ok (node op tp k sym (node op' tp' k' sym' x (node op'' tp'' k'' (some s) a b)) r)
  regroup op tp k sym (node op' tp' k' sym' x (node op'' tp'' k'' none a b)) r =
      if same_op op op' && is_sym op''
      then undefined
      else ok (node op tp k sym (node op' tp' k' sym' x (node op'' tp'' k'' none a b)) r)
  regroup op tp k sym (node op' tp' k' sym' x nil) r =
      if same_op op op' then undefined else ok (node op tp k sym (node op' tp' k' sym' x nil) r)
  regroup op tp k sym nil r = undefined

  -- `(x op c) op r` becomes `x op (r op c)`, and the constant part is folded.
  unfoldable pub associative : Tree F → Ub (Tree F)
  unfolding regroup associates is_sym same_op
  associative (node op tp k sym l r) =
      if associates op then regroup op tp k sym l r else ok (node op tp k sym l r)
  associative nil = undefined
