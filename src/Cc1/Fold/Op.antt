-- ===== src/Cc1/Fold/Op.antt =====
-- The operations of expression trees, `enum op` of cc1.h: those that an expression can hold.
use simple_scc.Common.{ℕ, Bool, ◌==◌}

pub data Op : Type 0 where
  add mul sub inc dec div rem shl shr band bxor bor sneg neg cpl and or : Op
  eq ne lt ge le gt : Op
  assign a_mul a_div a_mod a_add a_sub a_shl a_shr a_and a_xor a_or : Op
  addr comma cast ptr sym ask colon field par call : Op

-- The position of an operation among those above: `op != np->op` compares two of them.
unfoldable pub op_code : Op → ℕ
op_code Op.add = 0
op_code Op.mul = 1
op_code Op.sub = 2
op_code Op.inc = 3
op_code Op.dec = 4
op_code Op.div = 5
op_code Op.rem = 6
op_code Op.shl = 7
op_code Op.shr = 8
op_code Op.band = 9
op_code Op.bxor = 10
op_code Op.bor = 11
op_code Op.sneg = 12
op_code Op.neg = 13
op_code Op.cpl = 14
op_code Op.and = 15
op_code Op.or = 16
op_code Op.eq = 17
op_code Op.ne = 18
op_code Op.lt = 19
op_code Op.ge = 20
op_code Op.le = 21
op_code Op.gt = 22
op_code Op.assign = 23
op_code Op.a_mul = 24
op_code Op.a_div = 25
op_code Op.a_mod = 26
op_code Op.a_add = 27
op_code Op.a_sub = 28
op_code Op.a_shl = 29
op_code Op.a_shr = 30
op_code Op.a_and = 31
op_code Op.a_xor = 32
op_code Op.a_or = 33
op_code Op.addr = 34
op_code Op.comma = 35
op_code Op.cast = 36
op_code Op.ptr = 37
op_code Op.sym = 38
op_code Op.ask = 39
op_code Op.colon = 40
op_code Op.field = 41
op_code Op.par = 42
op_code Op.call = 43

unfoldable pub same_op : Op → Op → Bool
unfolding op_code
same_op p q = op_code p == op_code q
