-- ===== src/Cc1/Fold/Unary.antt =====
-- `foldcast` and `foldunary` of fold.c.
use simple_scc.Common.{
  ℕ, ◌-◌, ◌/◌, ◌^◌, bit_and, bit_or, Bool, true, false, Option, none, some, ◌==◌, if◌then◌else◌,
}
use simple_scc.Common.Int.{pos, to_signed}
use simple_scc.Common.Ub.{Ub, ok, undefined, ◌>>=◌}
use simple_scc.Cc1.Types.{Ctype, TypeOp, ones}
use simple_scc.Cc1.Fold.Op.{Op}
use simple_scc.Cc1.Fold.Floating.{FloatOps, Value, word, real, as_word, as_real}
use simple_scc.Cc1.Fold.Tree.{Symbol, Tree, nil, node, constnode, is_constant}

pub data CastType : Type 0 where
  integral floating other : CastType

abbrev cast_type : TypeOp → CastType
cast_type TypeOp.ptr = integral
cast_type TypeOp.int = integral
cast_type TypeOp.enum = integral
cast_type TypeOp.float = floating
cast_type _ = other

-- The value of an integer constant in a type of `size` bytes, as the 64-bit word that is stored:
-- the sign is extended where the type is signed.
unfoldable pub truncate : Bool → ℕ → ℕ → ℕ
unfolding ones
truncate true size u =
    let mask = ones size in
    let negmask = 2 ^ 64 - 1 - mask in
    if bit_and (bit_and u (negmask / 2)) mask == 0 then u else bit_or u negmask
truncate false size u = bit_and u (ones size)

module _ (fl : FloatOps) where
  open fl use {F, of_int, to_tuint}

  -- The value of the cast, if it is folded.
  cast_value : Ctype → Ctype → CastType → CastType → Value F → Option (Value F)
  cast_value new old integral integral v = some (word (truncate new.signed new.size (as_word fl v)))
  cast_value new old integral floating v =
      some (word (truncate new.signed new.size (to_tuint (as_real fl v))))
  cast_value new old floating t v =
      some (real (of_int (if old.signed then to_signed (as_word fl v) else pos (as_word fl v))))
  cast_value _ _ _ _ v = none

  cast_node : Tree F → Ctype → Option (Value F) → Tree F
  cast_node np tp none = np
  cast_node np tp (some v) = constnode tp v

  -- `np` is the cast, to the type `new`, and `l` what is cast.
  unfoldable pub foldcast : Tree F → Ctype → Tree F → Tree F
  unfolding cast_value cast_node truncate constnode
  foldcast np new (node op old true (some s) a b) =
      cast_node np new (cast_value new old (cast_type new.op) (cast_type old.op) s.value)
  foldcast np new l = np

  -- A constant of the offset of a field, which its symbol holds.
  unfoldable pub offsetnode : Option (Symbol F) → Ctype → Ub (Tree F)
  unfolding constnode
  offsetnode none tp = undefined
  offsetnode (some s) tp = ok (constnode tp (word (as_word fl s.value)))

  set_constant : Bool → Tree F → Tree F
  set_constant true (node op tp k sym l r) = node op tp true sym l r
  set_constant _ np = np

  same_type : Ctype → Tree F → Bool
  same_type tp (node op tp' k sym l r) = tp.id == tp'.id
  same_type tp nil = false

  -- The address of the field with symbol node `f` of the structure `s`.
  addr_field : Tree F → Ctype → Bool → Tree F → Tree F → Ub (Tree F)
  unfolding offsetnode set_constant
  addr_field np tp k (node Op.ptr tp' k' sym p q) (node op'' tp'' k'' fsym a b) = do
    off ← offsetnode fsym tp
    ok (set_constant (is_constant p) (node Op.add tp false none p off))
  addr_field np tp k nil f = undefined
  addr_field np tp k s (node op'' tp'' k'' fsym a b) = do
    off ← offsetnode fsym tp
    ok (set_constant k (node Op.add tp false none (node Op.addr tp false none s nil) off))
  addr_field np tp k s nil = undefined

  -- By the operations of the node and of its child; a missing child would be read.
  unfoldable pub foldunary : Tree F → Ub (Tree F)
  unfolding foldcast addr_field same_type
  foldunary (node Op.neg tp k sym (node Op.neg tp' k' sym' a b) r) = ok a
  foldunary (node Op.add tp k sym (node op' tp' k' sym' a b) r) = ok (node op' tp' k' sym' a b)
  foldunary (node Op.cast tp k sym (node op' tp' k' sym' a b) r) =
      ok (
        foldcast (node Op.cast tp k sym (node op' tp' k' sym' a b) r) tp (node op' tp' k' sym' a b))
  foldunary (node Op.sneg tp k sym (node Op.sneg tp' k' sym' a b) r) = ok a
  foldunary (node Op.cpl tp k sym (node Op.cpl tp' k' sym' a b) r) = ok a
  foldunary (node Op.ptr tp k sym (node Op.addr tp' k' sym' a b) r) =
      ok (if same_type tp a then a else node Op.ptr tp k sym (node Op.addr tp' k' sym' a b) r)
  foldunary (node Op.addr tp k sym (node Op.field tp' k' sym' a b) r) =
      addr_field (node Op.addr tp k sym (node Op.field tp' k' sym' a b) r) tp k a b
  foldunary (node Op.addr tp k sym (node Op.ptr tp' k' sym' a b) r) = ok a
  foldunary (node op tp k sym nil r) = undefined
  foldunary np = ok np
