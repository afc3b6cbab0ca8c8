-- ===== src/Cc1/Fold/Meaning/Commutative.antt =====
-- `commutative` of fold.c: where the exchange of the operands keeps the value, and where not.
use simple_scc.Common.{
  ℕ, suc, ◌^◌, ◌*◌, ◌≡◌, ◌≢◌, refl, sym, ap, ◌∙◌, arith, Bool, true, false, Option, none, some, not,
}
use native.Mathlib.Nat.{mul_comm}
use simple_scc.Common.Bits.Symmetric.{bit_and_comm, bit_or_comm, bit_xor_comm}
use simple_scc.Common.Int.{ℤ, pos, negsuc, ◌+ℤ◌, ◌*ℤ◌, to_word, eqb_ℤ, ltb_ℤ, leb_ℤ}
use simple_scc.Cc1.Types.{Ctype}
use simple_scc.Cc1.Fold.Op.{Op}
use simple_scc.Cc1.Fold.Floating.{FloatOps}
use simple_scc.Cc1.Fold.Tree.{Symbol, Tree, nil, node, is_constant, constant_of}
use simple_scc.Cc1.Fold.Binary.{commutative, negop}
use simple_scc.Cc1.Fold.Meaning.{
  Machine, eval, wrap, modulus, arithmetic, join, differ, meet, truth_value, modulo,
}
use simple_scc.Cc1.Types.{IsSize, one, two, four, eight}

-- The operations whose operands `commutative` exchanges without another change.
pub data Symmetric : Op → (ℤ → ℤ → ℤ) → Type 0 where
  add : Symmetric Op.add ◌+ℤ◌
  mul : Symmetric Op.mul ◌*ℤ◌
  band : Symmetric Op.band meet
  bor : Symmetric Op.bor join
  bxor : Symmetric Op.bxor differ
  eq : Symmetric Op.eq (λ x y. truth_value (eqb_ℤ x y))
  ne : Symmetric Op.ne (λ x y. truth_value (not (eqb_ℤ x y)))

Symmetric-comm : {op : Op} {f : ℤ → ℤ → ℤ} → Symmetric op f → (x y : ℤ) → f x y ≡ f y x
unfolding ◌+ℤ◌ ◌*ℤ◌ meet join differ
Symmetric-comm add x y = ground arith
Symmetric-comm mul (pos a) (pos b) = rw (mul_comm a b)
Symmetric-comm mul (pos a) (negsuc b) = rw (mul_comm a (suc b))
Symmetric-comm mul (negsuc a) (pos b) = rw (mul_comm (suc a) b)
Symmetric-comm mul (negsuc a) (negsuc b) = rw (mul_comm (suc a) (suc b))
Symmetric-comm band x y = ap pos (bit_and_comm (to_word x) (to_word y))
Symmetric-comm bor x y = ap pos (bit_or_comm (to_word x) (to_word y))
Symmetric-comm bxor x y = ap pos (bit_xor_comm (to_word x) (to_word y))
Symmetric-comm eq x y = ground arith
Symmetric-comm ne x y = ground arith

-- The four orders.
pub data Order : Op → Type 0 where
  lt : Order Op.lt
  gt : Order Op.gt
  le : Order Op.le
  ge : Order Op.ge

-- The values of an order and of its negation on equal operands.
on_equal : Op → Bool
on_equal Op.le = true
on_equal Op.ge = true
on_equal _ = false

wrap-truth_value :
    {size : ℕ} (b : Bool) (v : Bool)
    → IsSize size
    → wrap b (2 ^ (size * 8)) (truth_value v) ≡ truth_value v
unfolding wrap modulo
wrap-truth_value true true one = refl
wrap-truth_value true true two = refl
wrap-truth_value true true four = refl
wrap-truth_value true true eight = refl
wrap-truth_value true false one = refl
wrap-truth_value true false two = refl
wrap-truth_value true false four = refl
wrap-truth_value true false eight = refl
wrap-truth_value false true one = refl
wrap-truth_value false true two = refl
wrap-truth_value false true four = refl
wrap-truth_value false true eight = refl
wrap-truth_value false false one = refl
wrap-truth_value false false two = refl
wrap-truth_value false false four = refl
wrap-truth_value false false eight = refl

equal_lt : (x : ℤ) → ltb_ℤ x x ≡ false
equal_lt x = ground arith

equal_le : (x : ℤ) → leb_ℤ x x ≡ true
equal_le x = ground arith

module _ (fl : FloatOps) (m : Machine fl.F) where
  open fl use {F}
  open m use {State}

  eval-Symmetric :
      {op : Op} {f : ℤ → ℤ → ℤ} (tp : Ctype) (k : Bool) (l r : Tree F) (s : State)
      → Symmetric op f
      → eval fl m (node op tp k none l r) s ≡ (
        (eval fl m r (eval fl m l s).0).0,
        wrap tp.signed (modulus tp) (f (eval fl m l s).1 (eval fl m r (eval fl m l s).0).1),
      )
  unfolding eval arithmetic
  eval-Symmetric tp true l r s add = refl
  eval-Symmetric tp true l r s mul = refl
  eval-Symmetric tp true l r s band = refl
  eval-Symmetric tp true l r s bor = refl
  eval-Symmetric tp true l r s bxor = refl
  eval-Symmetric tp true l r s eq = refl
  eval-Symmetric tp true l r s ne = refl
  eval-Symmetric tp false l r s add = refl
  eval-Symmetric tp false l r s mul = refl
  eval-Symmetric tp false l r s band = refl
  eval-Symmetric tp false l r s bor = refl
  eval-Symmetric tp false l r s bxor = refl
  eval-Symmetric tp false l r s eq = refl
  eval-Symmetric tp false l r s ne = refl

  -- A constant with its symbol has no effect, and one value in every state.
  eval-constant :
      (t : Tree F) (c : Symbol F)
      → constant_of t ≡ some c
      → (v : ℤ) × ((s : State) → eval fl m t s ≡ (s, v))
  unfolding eval constant_of
  eval-constant nil c e = cc
  eval-constant (node op tp false sym l r) c e = cc
  eval-constant (node op tp true none l r) c e = cc
  eval-constant (node op tp true (some d) l r) c e = (_, λ s. refl)

  -- A constant evaluates alike before and after the other operand.
  swapped :
      {op : Op} {f : ℤ → ℤ → ℤ} (tp : Ctype) (k : Bool) (l r : Tree F) (c : Symbol F) (s : State)
      → Symmetric op f
      → constant_of l ≡ some c
      → eval fl m (node op tp k none r l) s ≡ eval fl m (node op tp k none l r) s
  swapped tp k l r c s st e =
      let (v, h) = eval-constant l c e in
      rw (
        eval-Symmetric tp k r l s st,
        eval-Symmetric tp k l r s st,
        h s,
        h (eval fl m r s).0,
        Symmetric-comm st (eval fl m r s).1 v,
      )

  constant-flag : (t : Tree F) (c : Symbol F) → constant_of t ≡ some c → is_constant t ≡ true
  unfolding constant_of is_constant
  constant-flag nil c e = cc
  constant-flag (node op tp false sym l r) c e = cc
  constant-flag (node op tp true sym l r) c e = refl

  -- With a constant symbol on the left, `commutative` keeps the effects and the value of the symmetric
  -- operations: a sum, a product, a bit operation and a test of equality.
  pub eval-commutative :
      {op : Op} {f : ℤ → ℤ → ℤ} (tp : Ctype) (k : Bool) (l r : Tree F) (c : Symbol F) (s : State)
      → Symmetric op f
      → constant_of l ≡ some c
      → eval fl m (commutative fl (node op tp k none l r)) s ≡ eval fl m (node op tp k none l r) s
  unfolding commutative is_constant
  eval-commutative tp k l nil c s st e = refl
  eval-commutative tp k l (node o t true d p q) c s st e = refl
  eval-commutative tp k l (node o t false d p q) c s add e =
      rw (constant-flag l c e) (swapped tp k l (node o t false d p q) c s add e)
  eval-commutative tp k l (node o t false d p q) c s mul e =
      rw (constant-flag l c e) (swapped tp k l (node o t false d p q) c s mul e)
  eval-commutative tp k l (node o t false d p q) c s band e =
      rw (constant-flag l c e) (swapped tp k l (node o t false d p q) c s band e)
  eval-commutative tp k l (node o t false d p q) c s bor e =
      rw (constant-flag l c e) (swapped tp k l (node o t false d p q) c s bor e)
  eval-commutative tp k l (node o t false d p q) c s bxor e =
      rw (constant-flag l c e) (swapped tp k l (node o t false d p q) c s bxor e)
  eval-commutative tp k l (node o t false d p q) c s eq e =
      rw (constant-flag l c e) (swapped tp k l (node o t false d p q) c s eq e)
  eval-commutative tp k l (node o t false d p q) c s ne e =
      rw (constant-flag l c e) (swapped tp k l (node o t false d p q) c s ne e)

  eval-Order :
      {op : Op} (tp : Ctype) (k : Bool) (l r : Tree F) (s : State)
      → Order op
      → IsSize tp.size
      → (eval fl m r (eval fl m l s).0).1 ≡ (eval fl m l s).1
      → (eval fl m (node op tp k none l r) s).1 ≡ truth_value (on_equal op)
  unfolding eval arithmetic on_equal
  eval-Order tp true l r s lt z e =
      rw (e, equal_lt (eval fl m l s).1) (wrap-truth_value tp.signed false z)
  eval-Order tp true l r s gt z e =
      rw (e, equal_lt (eval fl m l s).1) (wrap-truth_value tp.signed false z)
  eval-Order tp true l r s le z e =
      rw (e, equal_le (eval fl m l s).1) (wrap-truth_value tp.signed true z)
  eval-Order tp true l r s ge z e =
      rw (e, equal_le (eval fl m l s).1) (wrap-truth_value tp.signed true z)
  eval-Order tp false l r s lt z e =
      rw (e, equal_lt (eval fl m l s).1) (wrap-truth_value tp.signed false z)
  eval-Order tp false l r s gt z e =
      rw (e, equal_lt (eval fl m l s).1) (wrap-truth_value tp.signed false z)
  eval-Order tp false l r s le z e =
      rw (e, equal_le (eval fl m l s).1) (wrap-truth_value tp.signed true z)
  eval-Order tp false l r s ge z e =
      rw (e, equal_le (eval fl m l s).1) (wrap-truth_value tp.signed true z)

  negated : {op : Op} → Order op → Order (negop op) × (on_equal (negop op) ≡ not (on_equal op))
  unfolding negop on_equal
  negated lt = (ge, refl)
  negated gt = (le, refl)
  negated le = (gt, refl)
  negated ge = (lt, refl)

  exchange_negated :
      {op : Op} (tp t : Ctype) (k : Bool) (l : Tree F) (o : Op) (d : Option (Symbol F))
      (p q : Tree F) (c : Symbol F)
      → Order op
      → constant_of l ≡ some c
      → commutative fl (node op tp k none l (node o t false d p q))
        ≡ node (negop op) tp k none (node o t false d p q) l
  unfolding commutative negop is_constant
  exchange_negated tp t k l o d p q c lt e = rw (constant-flag l c e)
  exchange_negated tp t k l o d p q c gt e = rw (constant-flag l c e)
  exchange_negated tp t k l o d p q c le e = rw (constant-flag l c e)
  exchange_negated tp t k l o d p q c ge e = rw (constant-flag l c e)

  differ_not : (b : Bool) → truth_value (not b) ≢ truth_value b
  differ_not true = λ e. cc
  differ_not false = λ e. cc

  -- With a constant on the left of an order and no constant on the right, `commutative` exchanges the
  -- operands and negates the order, so that for operands of equal values the value changes: `5 < i`
  -- becomes `i >= 5`.
  pub commutative-Order :
      {op : Op} (tp t : Ctype) (k : Bool) (l : Tree F) (o : Op) (d : Option (Symbol F))
      (p q : Tree F) (c : Symbol F) (s : State)
      → Order op
      → IsSize tp.size
      → constant_of l ≡ some c
      → (eval fl m (node o t false d p q) s).1 ≡ (eval fl m l s).1
      → (commutative fl (node op tp k none l (node o t false d p q))
          ≡ node (negop op) tp k none (node o t false d p q) l)
        × ((eval fl m (node (negop op) tp k none (node o t false d p q) l) s).1
            ≢ (eval fl m (node op tp k none l (node o t false d p q)) s).1)
  commutative-Order tp t k l o d p q c s st z e h =
      let r = node o t false d p q in
      let (v, const) = eval-constant l c e in
      let same : (eval fl m r (eval fl m l s).0).1 ≡ (eval fl m l s).1 =
        rw (const s) (rw (const s) at h) in
      let back : (eval fl m l (eval fl m r s).0).1 ≡ (eval fl m r s).1 =
        rw (const (eval fl m r s).0) (sym (rw (const s) at h)) in
      (
        exchange_negated tp t k l o d p q c st e,
        λ eq. differ_not (on_equal _) (
            sym (ap truth_value (negated st).1)
            ∙ sym (eval-Order tp k r l s (negated st).0 z back)
            ∙ eq
            ∙ eval-Order tp k l r s st z same),
      )
