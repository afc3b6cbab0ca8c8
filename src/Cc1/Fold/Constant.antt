-- ===== src/Cc1/Fold/Constant.antt =====
-- `foldconst` and `fold` of fold.c: a node whose children are constants becomes a constant.
use simple_scc.Common.{ℕ, Bool, true, false, ◌&&◌, Option, none, some, if◌then◌else◌}
use simple_scc.Common.Int.{ℤ, pos, to_signed, to_word}
use simple_scc.Common.Ub.{Ub, ok, undefined, ◌>>=◌}
use simple_scc.Cc1.Types.{Ctype, TypeOp}
use simple_scc.Cc1.Fold.Op.{Op}
use simple_scc.Cc1.Fold.Signed.{foldint}
use simple_scc.Cc1.Fold.Unsigned.{folduint}
use simple_scc.Cc1.Fold.Floating.{FloatOps, Value, word, real, as_word, as_real, foldfloat}
use simple_scc.Cc1.Fold.Tree.{Symbol, Tree, nil, node, constnode, constant_of, cmpnode}

-- The switch of `fold` over the type of the left child: the kind of arithmetic, and what the default of
-- `foldconst` gets, a signed enumeration, which stays ENUM.
pub data Kind : Type 0 where
  signed unsigned floating enumeration other : Kind

kind : TypeOp → Bool → Kind
kind TypeOp.enum true = enumeration
kind TypeOp.enum false = unsigned
kind TypeOp.int true = signed
kind TypeOp.int false = unsigned
kind TypeOp.ptr b = unsigned
kind TypeOp.float b = floating
kind _ b = other

unfoldable pub kind_of : Ctype → Kind
unfolding kind
kind_of tp = kind tp.op tp.signed

unfoldable pub divides : Op → Bool
divides Op.div = true
divides Op.rem = true
divides _ = false

module _ (fl : FloatOps) where
  open fl use {F, of_int}

  -- The constant node for what was computed, if anything was.
  abbrev made : Ctype → Option (Value F) → Option (Tree F)
  made tp none = none
  made tp (some v) = some (constnode tp v)

  word_of : Option ℕ → Option (Value F)
  word_of none = none
  word_of (some w) = some (word w)

  word_of_int : Option ℤ → Option (Value F)
  word_of_int none = none
  word_of_int (some v) = some (word (to_word v))

  -- The right operand of a unary operation is 0.
  operand : Option (Symbol F) → Value F → Value F
  operand none v = v
  operand (some s) v = s.value

  unfoldable pub foldconst : Kind → Op → Ctype → Symbol F → Option (Symbol F) → Ub (Option (Tree F))
  unfolding word_of word_of_int operand
  foldconst signed op tp ls rs = do
    v ←
        foldint op tp (to_signed (as_word fl ls.value))
          (to_signed (as_word fl (operand rs (word 0))))
    ok (made tp (word_of_int v))
  foldconst unsigned op tp ls rs = do
    v ← folduint op tp.size (as_word fl ls.value) (as_word fl (operand rs (word 0)))
    ok (made tp (word_of v))
  foldconst floating op tp ls rs = do
    v ← foldfloat fl op tp (as_real fl ls.value) (as_real fl (operand rs (real (of_int (pos 0)))))
    ok (made tp v)
  foldconst enumeration op tp ls rs = undefined
  foldconst other op tp ls rs = undefined

  is_nil : Tree F → Bool
  is_nil nil = true
  is_nil _ = false

  -- The new constant, or the node with NCONST taken away.
  unfoldable pub instead : Tree F → Option (Tree F) → Tree F
  instead np (some p) = p
  instead nil none = nil
  instead (node op tp k sym l r) none = node op tp false sym l r

  with_kind : Kind → Tree F → Op → Ctype → Symbol F → Option (Symbol F) → Ub (Tree F)
  unfolding instead
  with_kind other np op tp ls rs = ok np
  with_kind k np op tp ls rs = do p ← foldconst k op tp ls rs; ok (instead np p)

  type_of : Tree F → Ctype → Ctype
  type_of (node op tp k sym l r) d = tp
  type_of nil d = d

  -- The left child has to be a constant with a symbol.
  with_left : Tree F → Op → Ctype → Tree F → Option (Symbol F) → Ub (Tree F)
  unfolding with_kind type_of constant_of
  with_left np op tp l rs = elim (constant_of l) [
    | none ↦ ok np
    | some ls ↦ with_kind (kind_of (type_of l tp)) np op tp ls rs
  ]

  -- A null left child beside a right one would be a null pointer that is read.
  fold_children : Tree F → Op → Ctype → Tree F → Tree F → Ub (Tree F)
  unfolding with_left constant_of
  fold_children np op tp nil nil = ok np
  fold_children np op tp nil r = undefined
  fold_children np op tp l nil = with_left np op tp l none
  fold_children np op tp l r = elim (constant_of r) [
    | none ↦ ok np
    | some rs ↦ with_left np op tp l (some rs)
  ]

  unfoldable pub fold : Tree F → Ub (Tree F)
  unfolding fold_children divides
  fold nil = undefined
  fold (node op tp k sym l r) =
      if divides op && cmpnode fl r 0
      then ok (node op tp k sym l r)
      else fold_children (node op tp k sym l r) op tp l r
