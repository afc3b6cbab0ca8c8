-- ===== src/Cc1/Fold/Meaning/Folded.antt =====
-- `fold` of fold.c on two signed constants: the node that it makes.
use simple_scc.Common.{
  ℕ, ◌*◌, ◌<◌, ◌≤◌, ◌^◌, ◌≡◌, ◌≢◌, inl, inr, refl, sym, ◌∙◌, arith, Bool, true, false, some, none,
  ◌&&◌, if◌then◌else◌, Bool-cases,
}
use simple_scc.Common.Int.{
  ℤ, pos, negsuc, neg_part, ◌+ℤ◌, ◌-ℤ◌, ◌*ℤ◌, quot, rem as remainder, to_signed, to_word,
}
use simple_scc.Common.Ub.{ok}
use simple_scc.Cc1.Types.{Ctype, TypeOp}
use simple_scc.Cc1.Fold.Op.{Op}
use simple_scc.Cc1.Fold.Signed.{foldint}
use simple_scc.Cc1.Fold.Signed.Exact.{InRange, in_range}
use simple_scc.Cc1.Fold.Signed.Limits.{IsSigned}
use simple_scc.Cc1.Fold.Signed.Sound.{
  checked, foldint-add, foldint-sub, foldint-mul, foldint-div, foldint-rem, foldint-shl_pos,
}
use simple_scc.Cc1.Fold.Floating.{FloatOps, Value, word, as_word}
use simple_scc.Cc1.Fold.Tree.{node, constnode, cmpnode}
use simple_scc.Cc1.Fold.Constant.{fold, foldconst, kind_of, signed, divides, instead}
use simple_scc.Cc1.Fold.Meaning.Identity.{matches-word}
use simple_scc.Cc1.Fold.Meaning.{scale}

-- The operations of arithmetic with their values, at operands where the code folds them when the
-- value is in range and does nothing undefined.
pub data Folds (top width : ℕ) : Op → (ℤ → ℤ → ℤ) → ℤ → ℤ → Type 0 where
  add : {x y : ℤ} → Folds top width Op.add ◌+ℤ◌ x y
  sub :
      {x y : ℤ}
      → neg_part y < 2 ^ 63
      → (x ≡ pos 0 → neg_part y ≤ top)
      → Folds top width Op.sub ◌-ℤ◌ x y
  mul : {x y : ℤ} → neg_part x < 2 ^ 63 → neg_part y < 2 ^ 63 → Folds top width Op.mul ◌*ℤ◌ x y
  div : {x y : ℤ} → y ≢ pos 0 → (y ≡ negsuc 0 → neg_part x ≤ top) → Folds top width Op.div quot x y
  rem :
      {x y : ℤ}
      → y ≢ pos 0
      → (y ≡ negsuc 0 → neg_part x ≤ top)
      → Folds top width Op.rem remainder x y
  shl : {a r : ℕ} → r < 31 → r < width → 2 ^ r ≤ top → Folds top width Op.shl scale (pos a) (pos r)

checked-InRange : {top : ℕ} {v : ℤ} → InRange top v → checked top v ≡ some v
checked-InRange h = ground arith

pub in_range-InRange : {top : ℕ} {v : ℤ} → in_range top v ≡ true → InRange top v
in_range-InRange h = record { above = ground arith; below = ground arith }

foldint-Folds :
    {tp : Ctype} {top : ℕ} {op : Op} {f : ℤ → ℤ → ℤ} {x y : ℤ}
    → IsSigned tp top
    → InRange top x
    → InRange top y
    → Folds top (tp.size * 8) op f x y
    → foldint op tp x y ≡ ok (checked top (f x y))
unfolding scale
foldint-Folds {x = x} {y = y} s hx hy add = foldint-add s x y hx hy
foldint-Folds {x = x} {y = y} s hx hy (sub h h') = foldint-sub s x y hx hy h h'
foldint-Folds {x = x} {y = y} s hx hy (mul h h') = foldint-mul s x y hx hy h h'
foldint-Folds {x = x} {y = y} s hx hy (div h h') =
    let (e, i) = foldint-div s x y hx hy h h' in rw (e, checked-InRange i)
foldint-Folds {x = x} {y = y} s hx hy (rem h h') =
    let (e, i) = foldint-rem s x y hx hy h h' in rw (e, checked-InRange i)
foldint-Folds s hx hy (shl {a = a} {r = r} h h' h'') = foldint-shl_pos s a r hx h h' h''

signed_kind : (tp : Ctype) → tp.op ≡ TypeOp.int → tp.signed ≡ true → kind_of tp ≡ signed
unfolding kind_of
signed_kind tp h e = rw (h, e)

module _ (fl : FloatOps) where
  open fl use {F}

  -- The value of a signed constant.
  unfoldable pub signed_value : Value F → ℤ
  signed_value u = to_signed (as_word fl u)

  -- A comparison with zero that holds is one of a constant zero.
  no_float : (o : TypeOp) → o ≡ TypeOp.int → o ≢ TypeOp.float
  no_float o h e = cc

  cmpnode-zero :
      (tp : Ctype) (u : Value F)
      → tp.op ≡ TypeOp.int
      → as_word fl u < 2 ^ 64
      → cmpnode fl (constnode tp u) 0 ≡ true
      → signed_value u ≡ pos 0
  unfolding cmpnode constnode to_signed signed_value
  cmpnode-zero tp u h hw e =
      rw (matches-word fl tp.op tp.size 0 u (no_float tp.op h) (omega arith) hw e)

  not_zero :
      {op : Op} {f : ℤ → ℤ → ℤ} {top width : ℕ} {x y : ℤ} (tp : Ctype) (v : Value F)
      → tp.op ≡ TypeOp.int
      → as_word fl v < 2 ^ 64
      → signed_value v ≡ y
      → Folds top width op f x y
      → (divides op && cmpnode fl (constnode tp v) 0) ≡ false
  unfolding divides
  not_zero tp v h hw e add = refl
  not_zero tp v h hw e (sub _ _) = refl
  not_zero tp v h hw e (mul _ _) = refl
  not_zero tp v h hw e (div n _) = elim (Bool-cases (cmpnode fl (constnode tp v) 0)) [
    | inl z ↦ absurd (n (sym e ∙ cmpnode-zero tp v h hw z))
    | inr z ↦ z
  ]
  not_zero tp v h hw e (rem n _) = elim (Bool-cases (cmpnode fl (constnode tp v) 0)) [
    | inl z ↦ absurd (n (sym e ∙ cmpnode-zero tp v h hw z))
    | inr z ↦ z
  ]
  not_zero tp v h hw e (shl _ _ _) = refl

  -- Arithmetic on two constants of a signed type becomes a constant exactly when its value is one of
  -- the type.
  pub fold-Folds :
      {op : Op} {f : ℤ → ℤ → ℤ} {top : ℕ} (tp : Ctype) (k : Bool) (u v : Value F)
      → tp.op ≡ TypeOp.int
      → tp.signed ≡ true
      → IsSigned tp top
      → as_word fl v < 2 ^ 64
      → InRange top (signed_value u)
      → InRange top (signed_value v)
      → Folds top (tp.size * 8) op f (signed_value u) (signed_value v)
      → fold fl (node op tp k none (constnode tp u) (constnode tp v))
        ≡ ok (
            if in_range top (f (signed_value u) (signed_value v))
            then constnode tp (word (to_word (f (signed_value u) (signed_value v))))
            else node op tp false none (constnode tp u) (constnode tp v))
  unfolding fold constnode foldconst instead signed_value as_word
  fold-Folds {f = f} {top = top} tp k u v h hs s hv hl hr c =
      rw (not_zero tp v h hv refl c, signed_kind tp h hs, foldint-Folds s hl hr c)
        (elim (Bool-cases (in_range top (f (signed_value u) (signed_value v)))) [
          | inl e ↦ rw e
          | inr e ↦ rw e
        ])
