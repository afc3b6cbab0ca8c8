-- ===== src/Cc1/Fold/Meaning.antt =====
-- What an integer expression tree means when it runs: the order of its effects and its value. The
-- rewriting functions of fold.c are judged by it.
pub mod Neutral
pub mod Identity
pub mod Commutative
pub mod Reduce
pub mod Folded
pub mod Constant
use simple_scc.Common.{
  ℕ, zero, suc, ◌+◌, ◌-◌, ◌*◌, ◌/◌, ◌%◌, ◌^◌, bit_and, bit_or, bit_xor, Bool, true, false, not,
  Option, none, some, ltb, if◌then◌else◌,
}
use simple_scc.Common.Int.{
  ℤ, pos, negsuc, pos_part, neg_part, neg, negate, ◌+ℤ◌, ◌-ℤ◌, ◌*ℤ◌, quot, rem, ltb_ℤ, leb_ℤ, eqb_ℤ,
  to_signed, to_word,
}
use simple_scc.Cc1.Types.{Ctype}
use simple_scc.Cc1.Fold.Op.{Op}
use simple_scc.Cc1.Fold.Floating.{FloatOps, as_word}
use simple_scc.Cc1.Fold.Tree.{Symbol, Tree, nil, node}

-- A value brought into `2 ^ bits` values, as a machine word of that width keeps it.
unfoldable pub modulo : ℤ → ℕ → ℕ
modulo (pos n) m = n % m
modulo (negsuc n) m = m - 1 - n % m

unfoldable pub wrap : Bool → ℕ → ℤ → ℤ
unfolding modulo
wrap false m v = pos (modulo v m)
wrap true m v = let u = modulo v m in if ltb (2 * u) m then pos u else neg (m - u)

abbrev pub modulus : Ctype → ℕ
modulus tp = 2 ^ (tp.size * 8)

abbrev pub truth_value : Bool → ℤ
truth_value b = if b then pos 1 else pos 0

abbrev pub is_true : ℤ → Bool
is_true v = not (eqb_ℤ v (pos 0))

unfoldable pub scale : ℤ → ℤ → ℤ
scale x y = x *ℤ pos (2 ^ pos_part y)

unfoldable pub floor_shift : ℤ → ℤ → ℤ
floor_shift (pos x) y = pos (x / 2 ^ pos_part y)
floor_shift (negsuc x) y = negsuc (x / 2 ^ pos_part y)

unfoldable pub meet : ℤ → ℤ → ℤ
meet x y = pos (bit_and (to_word x) (to_word y))

unfoldable pub join : ℤ → ℤ → ℤ
join x y = pos (bit_or (to_word x) (to_word y))

unfoldable pub differ : ℤ → ℤ → ℤ
differ x y = pos (bit_xor (to_word x) (to_word y))

-- The binary operations on values, before the result is brought into its type.
unfoldable pub arithmetic : Op → ℤ → ℤ → Option ℤ
arithmetic Op.add x y = some (x +ℤ y)
arithmetic Op.sub x y = some (x -ℤ y)
arithmetic Op.mul x y = some (x *ℤ y)
arithmetic Op.div x y = some (quot x y)
arithmetic Op.rem x y = some (rem x y)
arithmetic Op.shl x y = some (scale x y)
arithmetic Op.shr x y = some (floor_shift x y)
arithmetic Op.band x y = some (meet x y)
arithmetic Op.bor x y = some (join x y)
arithmetic Op.bxor x y = some (differ x y)
arithmetic Op.lt x y = some (truth_value (ltb_ℤ x y))
arithmetic Op.gt x y = some (truth_value (ltb_ℤ y x))
arithmetic Op.le x y = some (truth_value (leb_ℤ x y))
arithmetic Op.ge x y = some (truth_value (leb_ℤ y x))
arithmetic Op.eq x y = some (truth_value (eqb_ℤ x y))
arithmetic Op.ne x y = some (truth_value (not (eqb_ℤ x y)))
arithmetic op x y = none

-- The meaning of the nodes that the folder does not compute with (variables, calls, assignments,
-- casts): any deterministic change of a state, with a value.
pub record Machine (F : Type 0) : Type 1 where
  pub State : Type 0
  pub other : Tree F → State → State × ℤ

module _ (fl : FloatOps) (m : Machine fl.F) where
  open fl use {F}
  open m use {State, other}

  const_value : Symbol F → ℤ
  const_value s = if s.type.signed then to_signed (as_word fl s.value) else pos (as_word fl s.value)

  -- By the operation, from the meanings of the children.
  combine : Op → Ctype → Tree F → (State → State × ℤ) → (State → State × ℤ) → State → State × ℤ
  combine Op.or tp t l r s =
      let (s', x) = l s in
      if is_true x then (s', pos 1) else (let (s'', y) = r s' in (s'', truth_value (is_true y)))
  combine Op.and tp t l r s =
      let (s', x) = l s in
      if is_true x then (let (s'', y) = r s' in (s'', truth_value (is_true y))) else (s', pos 0)
  combine Op.comma tp t l r s = let (s', x) = l s in r s'
  combine op tp t l r s =
      let (s', x) = l s in
      let (s'', y) = r s' in
      elim (arithmetic op x y) [ none ↦ other t s | some v ↦ (s'', wrap tp.signed (modulus tp) v) ]

  unfoldable pub eval : Tree F → State → State × ℤ
  unfolding combine const_value as_word
  eval nil s = (s, pos 0)
  eval (node op tp true (some c) l r) s = (s, const_value c)
  eval (node op tp true none l r) s = combine op tp (node op tp true none l r) (eval l) (eval r) s
  eval (node op tp false sym l r) s = combine op tp (node op tp false sym l r) (eval l) (eval r) s
