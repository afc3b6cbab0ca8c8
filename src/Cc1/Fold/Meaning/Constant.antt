-- ===== src/Cc1/Fold/Meaning/Constant.antt =====
-- `fold` of fold.c on two signed constants, and the meaning of the node before and after it.
use simple_scc.Common.{
  ℕ, ◌-◌, ◌*◌, ◌<◌, ◌^◌, ◌≡◌, inl, inr, refl, ap, sym, ◌∙◌, arith, Bool, true, false, none,
  Bool-cases,
}
use simple_scc.Common.Int.{ℤ, pos, negsuc, to_signed, to_word}
use simple_scc.Common.Ub.{ok}
use simple_scc.Cc1.Types.{Ctype, TypeOp, IsSize, one, two, four, eight}
use simple_scc.Cc1.Fold.Op.{Op}
use simple_scc.Cc1.Fold.Signed.Exact.{InRange, in_range}
use simple_scc.Cc1.Fold.Signed.Limits.{getlimits-IsSigned}
use simple_scc.Cc1.Fold.Floating.{FloatOps, Value, word, as_word}
use simple_scc.Cc1.Fold.Tree.{Tree, node, constnode, is_constant}
use simple_scc.Cc1.Fold.Constant.{fold}
use simple_scc.Cc1.Fold.Meaning.{Machine, eval, wrap, modulus, arithmetic, modulo}
use simple_scc.Cc1.Fold.Meaning.Folded.{
  Folds, add, sub, mul, div, rem, shl, in_range-InRange, signed_value, fold-Folds,
}

-- A value of the type is its own wrap-around, and its word stands for it.
pub wrap-InRange :
    {size : ℕ} (v : ℤ)
    → IsSize size
    → InRange (2 ^ (size * 8 - 1) - 1) v
    → wrap true (2 ^ (size * 8)) v ≡ v
unfolding wrap modulo
wrap-InRange (pos n) one h = ground arith
wrap-InRange (pos n) two h = ground arith
wrap-InRange (pos n) four h = ground arith
wrap-InRange (pos n) eight h = ground arith
wrap-InRange (negsuc n) one h = ground arith
wrap-InRange (negsuc n) two h = ground arith
wrap-InRange (negsuc n) four h = ground arith
wrap-InRange (negsuc n) eight h = ground arith

to_signed-to_word : {top : ℕ} (v : ℤ) → top < 2 ^ 63 → InRange top v → to_signed (to_word v) ≡ v
unfolding to_signed to_word
to_signed-to_word (pos n) h i = ground arith
to_signed-to_word (negsuc n) h i = ground arith

module _ (fl : FloatOps) where
  open fl use {F}

  module _ (m : Machine F) where
    open m use {State}

    eval-constnode :
        (tp : Ctype) (u : Value F) (s : State)
        → tp.signed ≡ true
        → eval fl m (constnode tp u) s ≡ (s, signed_value fl u)
    unfolding eval constnode signed_value
    eval-constnode tp u s h = rw h

    eval-operator :
        {op : Op} {f : ℤ → ℤ → ℤ} {top width : ℕ} {x y : ℤ} (tp : Ctype) (k : Bool) (l r : Tree F)
        (s : State)
        → Folds top width op f x y
        → eval fl m (node op tp k none l r) s ≡ (
          (eval fl m r (eval fl m l s).0).0,
          wrap tp.signed (modulus tp) (f (eval fl m l s).1 (eval fl m r (eval fl m l s).0).1),
        )
    unfolding eval arithmetic
    eval-operator tp true l r s add = refl
    eval-operator tp true l r s (sub _ _) = refl
    eval-operator tp true l r s (mul _ _) = refl
    eval-operator tp true l r s (div _ _) = refl
    eval-operator tp true l r s (rem _ _) = refl
    eval-operator tp true l r s (shl _ _ _) = refl
    eval-operator tp false l r s add = refl
    eval-operator tp false l r s (sub _ _) = refl
    eval-operator tp false l r s (mul _ _) = refl
    eval-operator tp false l r s (div _ _) = refl
    eval-operator tp false l r s (rem _ _) = refl
    eval-operator tp false l r s (shl _ _ _) = refl

    eval-Folds :
        {op : Op} {f : ℤ → ℤ → ℤ} {top width : ℕ} (tp : Ctype) (k : Bool) (u v : Value F)
        (s : State)
        → tp.signed ≡ true
        → Folds top width op f (signed_value fl u) (signed_value fl v)
        → eval fl m (node op tp k none (constnode tp u) (constnode tp v)) s
          ≡ (s, wrap true (modulus tp) (f (signed_value fl u) (signed_value fl v)))
    eval-Folds tp k u v s h c =
        rw
          (
            eval-operator tp k (constnode tp u) (constnode tp v) s c,
            eval-constnode tp u s h,
            eval-constnode tp v s h,
            h,
          )
          refl

    constant_value :
        (tp : Ctype) (x : ℤ) (s : State)
        → tp.signed ≡ true
        → 2 ^ (tp.size * 8 - 1) - 1 < 2 ^ 63
        → IsSize tp.size
        → InRange (2 ^ (tp.size * 8 - 1) - 1) x
        → eval fl m (constnode tp (word (to_word x))) s ≡ (s, wrap true (modulus tp) x)
    unfolding signed_value as_word
    constant_value tp x s h fits hz i =
        eval-constnode tp (word (to_word x)) s h
        ∙ ap (λ y. (s, y)) (to_signed-to_word x fits i ∙ sym (wrap-InRange x hz i))

    -- On + - * / % and << over two constants of a signed integer type, whose values are values of the
    -- type, `fold` returns a tree with the same effects and the same value, and that tree is a constant
    -- exactly if the value is one of the type. The divisor is not zero; what is shifted is not negative,
    -- and the count is below 31 and the width, with a power of two that is a value of the type; and the
    -- minimum in the places where the code fails to check it is left out.
    pub eval-fold :
        {op : Op} {f : ℤ → ℤ → ℤ} (tp : Ctype) (k : Bool) (u v : Value F) (s : State)
        → tp.op ≡ TypeOp.int
        → tp.signed ≡ true
        → IsSize tp.size
        → as_word fl v < 2 ^ 64
        → InRange (2 ^ (tp.size * 8 - 1) - 1) (signed_value fl u)
        → InRange (2 ^ (tp.size * 8 - 1) - 1) (signed_value fl v)
        → Folds
            (2 ^ (tp.size * 8 - 1) - 1)
            (tp.size * 8)
            op
            f
            (signed_value fl u)
            (signed_value fl v)
        → (t : Tree F) × (fold fl (node op tp k none (constnode tp u) (constnode tp v)) ≡ ok t)
          × (eval fl m t s ≡ eval fl m (node op tp k none (constnode tp u) (constnode tp v)) s)
          × (is_constant t
              ≡ in_range (2 ^ (tp.size * 8 - 1) - 1) (f (signed_value fl u) (signed_value fl v)))
    unfolding constnode is_constant
    eval-fold {op = op} {f = f} tp k u v s h hs hz hv hl hr c =
        let value = f (signed_value fl u) (signed_value fl v) in
        let i = getlimits-IsSigned tp (inl h) hs hz in
        let folded = fold-Folds fl tp k u v h hs i hv hl hr c in
        elim (Bool-cases (in_range (2 ^ (tp.size * 8 - 1) - 1) value)) [
          | inl e ↦ (
            constnode tp (word (to_word value)),
            rw (folded, e),
            constant_value tp value s hs i.fits hz (in_range-InRange e)
                ∙ sym (eval-Folds tp k u v s hs c),
            sym e,
          )
          | inr e ↦ (
            node op tp false none (constnode tp u) (constnode tp v),
            rw (folded, e),
            eval-Folds tp false u v s hs c ∙ sym (eval-Folds tp k u v s hs c),
            sym e,
          )
        ]
