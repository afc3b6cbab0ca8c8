-- ===== src/Cc1/Types.antt =====
-- Types of the front end as fold.c reads them (cc1.h, types.c), the limits of integer types, and
-- the mask of an integer's width.
use simple_scc.Common.{ℕ, ◌-◌, ◌*◌, ◌^◌, ◌%◌, Bool, true, false, ◌==◌, if◌then◌else◌}
use simple_scc.Common.Ub.{Ub, ok, undefined}

-- `op` of `struct type`: the type constructors and the tokens that stand for basic types.
pub data TypeOp : Type 0 where
  ftn ptr ary krftn void int enum float struct union va_list ellipsis : TypeOp

-- `signed` is the flag TSIGNED of `prop`. Types are compared by address: `id` is the address.
pub record Ctype : Type 0 where
  pub op : TypeOp
  pub signed : Bool
  pub size : ℕ
  pub id : ℕ

-- The members are of type TUINT, 64-bit words.
pub record Limits : Type 0 where
  pub max : ℕ
  pub min : ℕ

-- The index `ntype` is not set for another size.
unfoldable pub unsigned_limits : ℕ → Ub Limits
unsigned_limits size =
    if size == 1
    then ok (record { max = 0xff; min = 0 })
    else if size == 2
    then ok (record { max = 0xffff; min = 0 })
    else if size == 4
    then ok (record { max = 0xffff_ffff; min = 0 })
    else if size == 8
    then ok (record { max = 0xffff_ffff_ffff_ffff; min = 0 })
    else undefined

-- `-0x7f-1` and its like, converted to TUINT.
unfoldable pub signed_limits : ℕ → Ub Limits
signed_limits size =
    if size == 1
    then ok (record { max = 0x7f; min = 2 ^ 64 - 0x80 })
    else if size == 2
    then ok (record { max = 0x7fff; min = 2 ^ 64 - 0x8000 })
    else if size == 4
    then ok (record { max = 0x7fff_ffff; min = 2 ^ 64 - 0x8000_0000 })
    else if size == 8
    then ok (record { max = 0x7fff_ffff_ffff_ffff; min = 2 ^ 64 - 0x8000_0000_0000_0000 })
    else undefined

unfoldable pub limits_of : TypeOp → Bool → ℕ → Ub Limits
limits_of TypeOp.int true size = signed_limits size
limits_of TypeOp.int false size = unsigned_limits size
limits_of TypeOp.enum true size = signed_limits size
limits_of TypeOp.enum false size = unsigned_limits size
limits_of _ signed size = undefined

-- For the other types the code aborts, or gives the limits of a floating type, which the integer
-- folder does not read.
unfoldable pub getlimits : Ctype → Ub Limits
unfolding limits_of signed_limits unsigned_limits
getlimits tp = limits_of tp.op tp.signed tp.size

-- `(nbytes == 8) ? -1 : ~(-1ull << nbytes * 8)`, for up to eight bytes.
unfoldable pub ones : ℕ → ℕ
ones nbytes =
    if nbytes == 8 then 2 ^ 64 - 1 else 2 ^ 64 - 1 - (2 ^ 64 - 1) * 2 ^ (nbytes * 8) % 2 ^ 64

-- The sizes of the integer types, in bytes.
pub data IsSize : ℕ → Type 0 where
  one : IsSize 1
  two : IsSize 2
  four : IsSize 4
  eight : IsSize 8
