-- ===== src/Cc1/Layout.antt =====
-- `typesize` of src/cmd/cc/cc1/types.c: the sizes and alignments of derived types, and the offsets of
-- the members of structs and unions. A size is an unsigned long of 64 bits.
pub mod Round
pub mod Struct
mod Tests
use simple_scc.Common.{
  ℕ, ◌+◌, ◌-◌, ◌*◌, ◌%◌, ◌^◌, bit_and, Bool, true, false, List, [], ◌∷◌, ltb, ◌==◌, if◌then◌else◌,
}
use simple_scc.Common.Ub.{Ub, ok, undefined}
use simple_scc.Cc1.Types.{TypeOp}

-- `size` and `align` of a type.
pub record Extent : Type 0 where
  pub size : ℕ
  pub align : ℕ

-- A type before its size is known: `elem` is n.elem, `base` the type of the elements, and `fields` the
-- types of the members. `own` is what the type has before the call.
pub record Shape : Type 0 where
  pub op : TypeOp
  pub elem : ℕ
  pub base : Extent
  pub fields : List Extent
  pub own : Extent

-- The variables of the loop over the members.
pub record Loop : Type 0 where
  pub offset : ℕ
  pub align : ℕ
  pub size : ℕ

-- (x + a) & ~a, where `a` is an int that is converted to an unsigned long.
unfoldable pub round_up : ℕ → ℕ → ℕ
round_up x a = bit_and ((x + a) % 2 ^ 64) (2 ^ 64 - 1 - a)

-- A round for a member of a struct, and the offset that the member gets: `a` is the alignment less one.
unfoldable pub place : Extent → Loop → ℕ × Loop
unfolding round_up
place f l =
    let a = (f.align + 2 ^ 64 - 1) % 2 ^ 64 in
    let offset = if a == 0 then l.offset else round_up l.offset a in
    let size = (offset + f.size) % 2 ^ 64 in
    (
      offset,
      record {
        offset = size;
        align = if ltb l.align f.align then f.align else l.align;
        size = size;
      },
    )

-- And for a member of a union.
unfoldable pub overlay : Extent → Loop → ℕ × Loop
overlay f l = (
  0,
  record {
    offset = l.offset;
    align = if ltb l.align f.align then f.align else l.align;
    size = if ltb l.size f.size then f.size else l.size;
  },
)

-- The loop: the offsets of the members, and the variables at its end.
unfoldable pub members : (Extent → Loop → ℕ × Loop) → List Extent → Loop → List ℕ × Loop
members round [] l = ([], l)
members round (f ∷ fs) l =
    let (offset, l1) = round f l in
    let (offsets, l2) = members round fs l1 in (offset ∷ offsets, l2)

abbrev pub start : Loop
start = record { offset = 0; align = 0; size = 0 }

-- The padding at the end of a struct.
unfoldable pub padded : Loop → ℕ
unfolding round_up
padded l = if ltb 1 l.align then round_up l.size (l.align - 1) else l.size

-- The size and the alignment, and the offsets of the members.
abbrev pub Sized : Type 0
Sized = Extent × List ℕ

unfoldable pub struct_size : List Extent → Sized
unfolding members place padded
struct_size fs =
    let (offsets, l) = members place fs start in
    (record { size = padded l; align = l.align }, offsets)

unfoldable pub union_size : List Extent → Sized
unfolding members overlay
union_size fs =
    let (offsets, l) = members overlay fs start in
    (record { size = l.size; align = l.align }, offsets)

-- By the case of the switch. `pointer` and `int` are the extents of pvoidtype and inttype.
unfoldable pub size_by : TypeOp → Extent → Extent → Shape → Ub Sized
unfolding struct_size union_size
size_by TypeOp.ary pointer int tp =
    ok (record { size = tp.elem * tp.base.size % 2 ^ 64; align = tp.base.align }, [])
size_by TypeOp.ptr pointer int tp = ok (pointer, [])
size_by TypeOp.struct pointer int tp = ok (struct_size tp.fields)
size_by TypeOp.union pointer int tp = ok (union_size tp.fields)
size_by TypeOp.enum pointer int tp = ok (int, [])
size_by TypeOp.ftn pointer int tp = ok (tp.own, [])
size_by _ pointer int tp = undefined

unfoldable pub typesize : Extent → Extent → Shape → Ub Sized
unfolding size_by
typesize pointer int tp = size_by tp.op pointer int tp
