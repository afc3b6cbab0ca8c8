-- ===== src/Cc1/Fold/Meaning/Identity.antt =====
-- `identity` of fold.c, and the meaning of a node before and after it.
use simple_scc.Common.{
  ℕ, ◌^◌, ◌<◌, ◌≤◌, ◌≡◌, ◌≢◌, inl, inr, refl, sym, ap, ◌∙◌, arith, Bool, true, false, none, some,
  if◌then◌else◌, ◌||◌, Bool-cases,
}
use simple_scc.Common.Bits.{bit_and-mask}
use simple_scc.Common.Int.{ℤ, pos, ◌+ℤ◌, ◌-ℤ◌, ◌*ℤ◌, quot, to_signed}
use simple_scc.Cc1.Types.{Ctype, TypeOp}
use simple_scc.Cc1.Fold.Op.{Op}
use simple_scc.Cc1.Fold.Floating.{FloatOps, Value, as_word}
use simple_scc.Cc1.Fold.Tree.{Symbol, Tree, nil, node, constant_of, cmpnode, matches}
use simple_scc.Cc1.Fold.Binary.{identity, act, identity_action, keep, free_right}
use simple_scc.Cc1.Types.{IsSize}
use simple_scc.Cc1.Fold.Meaning.{
  Machine, eval, wrap, modulus, arithmetic, scale, floor_shift, join, differ,
}
use simple_scc.Cc1.Fold.Meaning.Neutral.{
  +ℤ-zero, -ℤ-zero, *ℤ-zero, *ℤ-one, quot-one, scale-zero, floor_shift-zero, zero-scale,
  zero-floor_shift, wrap-zero, wrap-join, wrap-differ,
}

-- The operations that `identity` rewrites and that evaluate both operands.
pub data Strict : Op → (ℤ → ℤ → ℤ) → Type 0 where
  add : Strict Op.add ◌+ℤ◌
  sub : Strict Op.sub ◌-ℤ◌
  mul : Strict Op.mul ◌*ℤ◌
  div : Strict Op.div quot
  shl : Strict Op.shl scale
  shr : Strict Op.shr floor_shift
  bor : Strict Op.bor join
  bxor : Strict Op.bxor differ

module _ (fl : FloatOps) where
  open fl use {F}

  pub matches-word :
      (o : TypeOp) (size n : ℕ) (v : Value F)
      → o ≢ TypeOp.float
      → n ≤ 1
      → as_word fl v < 2 ^ 64
      → matches fl o size v n ≡ true
      → as_word fl v ≡ n
  unfolding matches
  matches-word TypeOp.ptr size n v h hn hw e =
      ground (arith, bit_and-mask 64 (as_word fl v), bit_and-mask 64 n)
  matches-word TypeOp.int size n v h hn hw e =
      ground (arith, bit_and-mask 64 (as_word fl v), bit_and-mask 64 n)
  matches-word TypeOp.float size n v h hn hw e = absurd (h refl)
  matches-word _ size n v h hn hw e = cc

  -- A constant, if it is one, is no floating constant, and its value is a word.
  unfoldable pub IntConstant : Tree F → Type 0
  IntConstant t =
      (c : Symbol F)
      → constant_of t ≡ some c
      → (c.type.op ≢ TypeOp.float) × (as_word fl c.value < 2 ^ 64)

  module _ (m : Machine F) where
    open m use {State}

    -- A node that compares equal to the constant 0 or 1 has that value and no effect.
    eval-cmpnode :
        (t : Tree F) (n : ℕ) (s : State)
        → n ≤ 1
        → IntConstant t
        → cmpnode fl t n ≡ true
        → eval fl m t s ≡ (s, pos n)
    unfolding cmpnode eval constant_of IntConstant to_signed
    eval-cmpnode nil n s hn hc e = cc
    eval-cmpnode (node op tp false sym l r) n s hn hc e = cc
    eval-cmpnode (node op tp true none l r) n s hn hc e = cc
    eval-cmpnode (node op tp true (some c) l r) n s hn hc e =
        ground (arith, matches-word c.type.op tp.size n c.value (hc c refl).0 hn (hc c refl).1 e)

    module _ (tp : Ctype) (l r : Tree F) (s : State) where
      after_left : State
      after_left = (eval fl m l s).0

      left_value : ℤ
      left_value = (eval fl m l s).1

      eval-strict :
          {op : Op} {f : ℤ → ℤ → ℤ} (k : Bool)
          → Strict op f
          → eval fl m (node op tp k none l r) s ≡ (
            (eval fl m r after_left).0,
            wrap tp.signed (modulus tp) (f left_value (eval fl m r after_left).1),
          )
      unfolding eval arithmetic after_left left_value
      eval-strict true add = refl
      eval-strict true sub = refl
      eval-strict true mul = refl
      eval-strict true div = refl
      eval-strict true shl = refl
      eval-strict true shr = refl
      eval-strict true bor = refl
      eval-strict true bxor = refl
      eval-strict false add = refl
      eval-strict false sub = refl
      eval-strict false mul = refl
      eval-strict false div = refl
      eval-strict false shl = refl
      eval-strict false shr = refl
      eval-strict false bor = refl
      eval-strict false bxor = refl

      -- A right operand with no effect, whose value leaves the left one as it is.
      drop_right :
          {op : Op} {f : ℤ → ℤ → ℤ} {y : ℤ} (k : Bool)
          → Strict op f
          → eval fl m r after_left ≡ (after_left, y)
          → wrap tp.signed (modulus tp) (f left_value y) ≡ left_value
          → eval fl m l s ≡ eval fl m (node op tp k none l r) s
      unfolding after_left left_value
      drop_right k st e h = rw (eval-strict k st, e, h)

      kept_or_freed :
          {op : Op} {f : ℤ → ℤ → ℤ} (k : Bool) (n : ℕ)
          → Strict op f
          → n ≤ 1
          → IntConstant r
          → wrap tp.signed (modulus tp) (f left_value (pos n)) ≡ left_value
          → eval fl m
              (act fl (if cmpnode fl r n then free_right else keep) (node op tp k none l r))
              s
            ≡ eval fl m (node op tp k none l r) s
      unfolding act
      kept_or_freed k n st hn hr h = elim (Bool-cases (cmpnode fl r n)) [
        | inl e ↦ rw e (drop_right k st (eval-cmpnode r n after_left hn hr e) h)
        | inr e ↦ rw e
      ]

      -- A left operand zero, with a right one that has no effect.
      shifted_zero :
          {op : Op} {f : ℤ → ℤ → ℤ} (k : Bool)
          → Strict op f
          → IntConstant l
          → cmpnode fl l 0 ≡ true
          → IsSize tp.size
          → (eval fl m r after_left).0 ≡ after_left
          → ((y : ℤ) → f (pos 0) y ≡ pos 0)
          → eval fl m l s ≡ eval fl m (node op tp k none l r) s
      shifted_zero k st hl e hs quiet absorbs =
          left
          ∙ sym (
              rw (
                eval-strict k st,
                quiet,
                value_zero,
                absorbs (eval fl m r after_left).1,
                wrap-zero tp.signed hs,
                unmoved,
              ))
        where
          left : eval fl m l s ≡ (s, pos 0)
          left = eval-cmpnode l 0 s (omega arith) hl e

          value_zero : left_value ≡ pos 0
          value_zero = unfold left_value in ap (λ p. p.1) left

          unmoved : after_left ≡ s
          unmoved = unfold after_left in ap (λ p. p.0) left

      shifted :
          {op : Op} {f : ℤ → ℤ → ℤ} (k : Bool)
          → Strict op f
          → IsSize tp.size
          → wrap tp.signed (modulus tp) left_value ≡ left_value
          → IntConstant l
          → IntConstant r
          → (cmpnode fl l 0 ≡ true → (eval fl m r after_left).0 ≡ after_left)
          → ((x : ℤ) → f x (pos 0) ≡ x)
          → ((y : ℤ) → f (pos 0) y ≡ pos 0)
          → eval fl m
              (act fl
                (if cmpnode fl r 0 || cmpnode fl l 0 then free_right else keep)
                (node op tp k none l r))
              s
            ≡ eval fl m (node op tp k none l r) s
      unfolding act
      shifted k st hs hv hl hr quiet unit absorbs = elim (Bool-cases (cmpnode fl r 0)) [
        | inl e ↦ rw e (
            drop_right k st (eval-cmpnode r 0 after_left (omega arith) hr e)
              (rw (unit left_value) hv))
        | inr e ↦ elim (Bool-cases (cmpnode fl l 0)) [
          | inl e' ↦ rw (e, e') (shifted_zero k st hl e' hs (quiet e') absorbs)
          | inr e' ↦ rw (e, e')
        ]
      ]

      -- A product with zero becomes the comma.
      eval-comma : (k : Bool) → eval fl m (node Op.comma tp k none l r) s ≡ eval fl m r after_left
      unfolding eval after_left
      eval-comma true = refl
      eval-comma false = refl

      comma_zero :
          (k : Bool)
          → IntConstant r
          → cmpnode fl r 0 ≡ true
          → IsSize tp.size
          → eval fl m (node Op.comma tp k none l r) s ≡ eval fl m (node Op.mul tp k none l r) s
      comma_zero k hr e hs =
          let right = eval-cmpnode r 0 after_left (omega arith) hr e in
          rw (eval-comma k, eval-strict k mul, right, *ℤ-zero left_value, wrap-zero tp.signed hs)

    -- On + - * / << >> | and ^ `identity` keeps the effects and the value of a node. The left
    -- value is one of the node's type, the constants are integers, and what is shifted by is not
    -- changed by zero being shifted: `0 << i` and `0 >> i` lose the effects of `i`.
    pub eval-identity :
        {op : Op} {f : ℤ → ℤ → ℤ} (tp : Ctype) (k : Bool) (l r : Tree F) (s : State)
        → Strict op f
        → IsSize tp.size
        → wrap tp.signed (modulus tp) (eval fl m l s).1 ≡ (eval fl m l s).1
        → IntConstant l
        → IntConstant r
        → (cmpnode fl l 0 ≡ true → (eval fl m r (eval fl m l s).0).0 ≡ (eval fl m l s).0)
        → eval fl m (identity fl (node op tp k none l r)) s ≡ eval fl m (node op tp k none l r) s
    unfolding identity identity_action left_value after_left
    eval-identity tp k l nil s st hs hv hl hr quiet = refl
    eval-identity tp k l (node o t b c p q) s add hs hv hl hr quiet =
        kept_or_freed tp l (node o t b c p q) s k 0 add (omega arith) hr (rw +ℤ-zero hv)
    eval-identity tp k l (node o t b c p q) s sub hs hv hl hr quiet =
        kept_or_freed tp l (node o t b c p q) s k 0 sub (omega arith) hr (rw -ℤ-zero hv)
    eval-identity tp k l (node o t b c p q) s bor hs hv hl hr quiet =
        kept_or_freed tp l (node o t b c p q) s k 0 bor (omega arith) hr
          (wrap-join tp.signed _ hs ∙ hv)
    eval-identity tp k l (node o t b c p q) s bxor hs hv hl hr quiet =
        kept_or_freed tp l (node o t b c p q) s k 0 bxor (omega arith) hr
          (wrap-differ tp.signed _ hs ∙ hv)
    eval-identity tp k l (node o t b c p q) s div hs hv hl hr quiet =
        kept_or_freed tp l (node o t b c p q) s k 1 div (omega arith) hr (rw quot-one hv)
    eval-identity tp k l (node o t b c p q) s mul hs hv hl hr quiet =
        elim (Bool-cases (cmpnode fl (node o t b c p q) 0)) [
          | inl e ↦ rw e (comma_zero tp l (node o t b c p q) s k hr e hs)
          | inr e ↦
              rw e (kept_or_freed tp l (node o t b c p q) s k 1 mul (omega arith) hr (rw *ℤ-one hv))
        ]
    eval-identity tp k l (node o t b c p q) s shl hs hv hl hr quiet =
        shifted tp l (node o t b c p q) s k shl hs hv hl hr quiet scale-zero zero-scale
    eval-identity tp k l (node o t b c p q) s shr hs hv hl hr quiet =
        shifted tp l (node o t b c p q) s k shr hs hv hl hr quiet floor_shift-zero zero-floor_shift
