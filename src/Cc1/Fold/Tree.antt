-- ===== src/Cc1/Fold/Tree.antt =====
-- Expression trees, `struct node` and `struct symbol` of cc1.h, with the functions of code.c and
-- expr.c that the folder uses. A tree holds its symbols by value: a constant that two trees share is
-- held by each. Flags of a node other than NCONST are not read by the folder.
use simple_scc.Common.{
  ℕ, zero, suc, ◌+◌, ◌-◌, ◌/◌, ◌%◌, ◌^◌, bit_and, Bool, true, false, Option, none, some, ltb, ◌==◌,
  if◌then◌else◌,
}
use simple_scc.Common.Int.{pos}
use simple_scc.Cc1.Types.{Ctype, TypeOp, ones}
use simple_scc.Cc1.Fold.Op.{Op}
use simple_scc.Cc1.Fold.Floating.{FloatOps, Value, as_word, as_real}

-- `constant` is the flag SCONSTANT.
pub record Symbol (F : Type 0) : Type 0 where
  pub type : Ctype
  pub constant : Bool
  pub value : Value F

-- `nil` is the null pointer; a node has its operation, its type, the flag NCONST, its symbol and
-- its children.
pub data Tree (F : Type 0) : Type 0 where
  nil : Tree F
  node : Op → Ctype → Bool → Option (Symbol F) → Tree F → Tree F → Tree F

module _ {F : Type 0} where
  -- `constnode` of a new constant symbol.
  unfoldable pub constnode : Ctype → Value F → Tree F
  constnode tp v =
      node Op.sym tp true (some (record { type = tp; constant = true; value = v })) nil nil

  -- The symbol of a node whose flag NCONST is set.
  unfoldable pub constant_of : Tree F → Option (Symbol F)
  constant_of (node op tp true sym l r) = sym
  constant_of _ = none

  unfoldable pub is_constant : Tree F → Bool
  is_constant (node op tp k sym l r) = k
  is_constant nil = false

-- How many of the lowest `n` bits are set.
unfoldable pub ones_in : ℕ → ℕ → ℕ
ones_in zero u = 0
ones_in (suc n) u = u % 2 + ones_in n (u / 2)

module _ (fl : FloatOps) where
  open fl use {F, feq, of_int}

  unfoldable pub matches : TypeOp → ℕ → Value F → ℕ → Bool
  matches TypeOp.ptr size v val =
      let mask = if ltb 1 val then ones size else 2 ^ 64 - 1 in
      bit_and (as_word fl v) mask == bit_and val mask
  matches TypeOp.int size v val =
      let mask = if ltb 1 val then ones size else 2 ^ 64 - 1 in
      bit_and (as_word fl v) mask == bit_and val mask
  matches TypeOp.float size v val = feq (as_real fl v) (of_int (pos val))
  matches _ size v val = false

  -- Whether a node is the constant `val`.
  unfoldable pub cmpnode : Tree F → ℕ → Bool
  unfolding matches as_word as_real ones
  cmpnode (node op tp true (some s) l r) val = matches s.type.op tp.size s.value val
  cmpnode _ val = false

  unfoldable pub int_power2 : TypeOp → ℕ → Bool
  int_power2 TypeOp.int u = ones_in 64 u == 1
  int_power2 _ u = false

  -- Whether a node is a constant with one bit set.
  unfoldable pub power2node : Tree F → Bool
  unfolding int_power2 ones_in as_word
  power2node (node op tp true (some s) l r) = int_power2 s.type.op (as_word fl s.value)
  power2node _ = false
