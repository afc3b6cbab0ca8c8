-- ===== src/Cc1/Fold/Tests.antt =====
-- Runs of the folder, and its theorems at concrete inputs: the type int of four bytes, a machine
-- whose state counts the nodes that it runs, and integers in place of floats.
use simple_scc.Common.{
  ℕ, suc, ◌<◌, ◌-◌, ◌^◌, ◌≡◌, ◌≢◌, refl, inl, arith, true, false, none, some, ◌&&◌, ◌||◌,
}
use simple_scc.Common.Int.{
  ℤ, pos, negsuc, negate, ◌+ℤ◌, ◌-ℤ◌, ◌*ℤ◌, ◌≤ℤ◌, quot, rem, ltb_ℤ, leb_ℤ, eqb_ℤ, to_signed,
  to_word,
}
use simple_scc.Common.Ub.{ok}
use simple_scc.Cc1.Types.{Ctype, TypeOp, four}
use simple_scc.Cc1.Fold.Op.{Op}
use simple_scc.Cc1.Fold.Signed.{foldint}
use simple_scc.Cc1.Fold.Signed.Exact.{InRange, in_range}
use simple_scc.Cc1.Fold.Signed.Limits.{IsSigned, getlimits-IsSigned}
use simple_scc.Cc1.Fold.Signed.Sound.{
  foldint-add, foldint-sub, foldint-mul, foldint-divi, foldint-shl, foldint-shr,
}
use simple_scc.Cc1.Fold.Unsigned.{folduint}
use simple_scc.Cc1.Fold.Unsigned.Modular
use simple_scc.Cc1.Fold.Unsigned.Modular.{folduint-Modular}
use mathlib.Core.Path.{subst}
use mathlib.Core.Option.{some-injective}
use simple_scc.Cc1.Fold.Floating.{FloatOps, word, as_word}
use simple_scc.Cc1.Fold.Tree.{
  Symbol, Tree, nil, node, cmpnode, constnode, is_constant, constant_of, power2node,
}
use simple_scc.Cc1.Fold.Binary.{identity, commutative, negop, reduce}
use simple_scc.Cc1.Fold.Meaning.{Machine, eval, wrap, arithmetic}
use simple_scc.Cc1.Fold.Meaning.Identity
use simple_scc.Cc1.Fold.Meaning.Identity.{eval-identity, IntConstant}
use simple_scc.Cc1.Fold.Constant.{fold}
use simple_scc.Cc1.Fold.Meaning.Folded
use simple_scc.Cc1.Fold.Meaning.Folded.{Folds, signed_value}
use simple_scc.Cc1.Fold.Meaning.Constant.{eval-fold}
use simple_scc.Cc1.Fold.Meaning.Reduce.{eval-reduce, reduce-negative, WordConstant}
use simple_scc.Cc1.Fold.Meaning.Commutative
use simple_scc.Cc1.Fold.Meaning.Commutative.{eval-commutative, commutative-Order}

abbrev int32 : Ctype
int32 = record { op = TypeOp.int; signed = true; size = 4; id = 1 }

abbrev top32 : ℕ
top32 = 2 ^ 31 - 1

int32-IsSigned : IsSigned int32 top32
int32-IsSigned = getlimits-IsSigned int32 (inl refl) refl four

foldint-add_example : foldint Op.add int32 (pos top32) (pos 1) ≡ ok none
unfolding ◌+ℤ◌
foldint-add_example = foldint-add int32-IsSigned (pos top32) (pos 1) (omega arith) (omega arith)

foldint-sub_example : foldint Op.sub int32 (pos 3) (pos 10) ≡ ok (some (negsuc 6))
unfolding ◌-ℤ◌
foldint-sub_example =
    foldint-sub int32-IsSigned (pos 3) (pos 10) (omega arith) (omega arith) (omega arith)
      (λ e. omega arith)

foldint-mul_example : foldint Op.mul int32 (negsuc 6) (pos 6) ≡ ok (some (negsuc 41))
unfolding ◌*ℤ◌
foldint-mul_example =
    foldint-mul int32-IsSigned (negsuc 6) (pos 6) (omega arith) (omega arith) (omega arith)
      (omega arith)

-- The minimum of int divided by -1 is folded to a value out of its range.
foldint-divi_example :
    (foldint Op.div int32 (negsuc top32) (negsuc 0) ≡ ok (some (pos (2 ^ 31))))
    × (foldint Op.rem int32 (negsuc top32) (negsuc 0) ≡ ok (some (pos 0)))
    × InRange top32 (rem (negsuc top32) (negsuc 0))
    × ((in_range top32 (quot (negsuc top32) (negsuc 0))
          || (eqb_ℤ (negsuc 0) (pos 0)
              || eqb_ℤ (negsuc top32) (negsuc top32) && eqb_ℤ (negsuc 0) (negsuc 0)))
        ≡ true)
unfolding quot rem
foldint-divi_example =
    foldint-divi int32-IsSigned (negsuc top32) (negsuc 0) (omega arith) (omega arith)

foldint-shl_example : foldint Op.shl int32 (pos 3) (pos 4) ≡ ok (some (pos 48))
unfolding ◌*ℤ◌
foldint-shl_example =
    foldint-shl int32-IsSigned (pos 3) 4 (omega arith) (omega arith) (omega arith) (omega arith)
      (omega arith)

foldint-shr_example :
    (v : ℤ) × (foldint Op.shr int32 (negsuc 6) (pos 1) ≡ ok (some v))
    × InRange top32 v
    × (v *ℤ pos (2 ^ 1) ≤ℤ negsuc 6)
    × (negsuc 6 +ℤ pos 1 ≤ℤ v *ℤ pos (2 ^ 1) +ℤ pos (2 ^ 1))
foldint-shr_example =
    foldint-shr int32-IsSigned (negsuc 6) 1 (omega arith) (omega arith) (omega arith)

folduint-Modular_example : folduint Op.sub 4 3 5 ≡ ok (some (2 ^ 32 - 2))
folduint-Modular_example = folduint-Modular four (omega arith) (omega arith) Modular.sub

-- Integers as floats.
abbrev ints : FloatOps
ints = record {
  F = ℤ;
  fadd = ◌+ℤ◌;
  fsub = ◌-ℤ◌;
  fmul = ◌*ℤ◌;
  fdiv = quot;
  fneg = negate;
  flt = ltb_ℤ;
  fle = leb_ℤ;
  feq = eqb_ℤ;
  of_int = λ v. v;
  to_tuint = to_word;
  bits = to_word;
  of_bits = to_signed;
}

-- The value of a node that the machine runs is the count.
abbrev counter : Machine ℤ
counter = record { State = ℕ; other = λ t n. (suc n, pos n) }

abbrev variable : Tree ℤ
variable = node Op.sym int32 false none nil nil

abbrev constant : ℕ → Tree ℤ
constant n =
    node Op.sym int32 true (some (record { type = int32; constant = true; value = word n })) nil nil

abbrev literal : ℕ → Symbol ℤ
literal n = record { type = int32; constant = true; value = word n }

constant-IntConstant : (n : ℕ) → n < 2 ^ 64 → IntConstant ints (constant n)
unfolding IntConstant constant_of as_word
constant-IntConstant n h c e =
    subst (λ (d : Symbol ℤ). (d.type.op ≢ TypeOp.float) × (as_word ints d.value < 2 ^ 64))
      (some-injective _ _ e) ((λ p. cc), h)

constant-WordConstant : (n : ℕ) → n < 2 ^ 63 → WordConstant ints (constant n)
unfolding WordConstant constant_of as_word
constant-WordConstant n h c e =
    subst (λ (d : Symbol ℤ). as_word ints d.value < 2 ^ 63) (some-injective _ _ e) h

variable-IntConstant : IntConstant ints variable
unfolding IntConstant constant_of
variable-IntConstant c e = cc

-- `x * 0` runs the variable still, and has the value 0.
eval-identity_example :
    eval ints counter (identity ints (node Op.mul int32 false none variable (constant 0))) 5
    ≡ eval ints counter (node Op.mul int32 false none variable (constant 0)) 5
unfolding eval arithmetic cmpnode
eval-identity_example =
    eval-identity ints counter int32 false variable (constant 0) 5 Identity.mul four
      (unfold wrap in refl) variable-IntConstant (constant-IntConstant 0 (omega arith)) (λ e. cc)

-- `7 + x` becomes `x + 7`.
eval-commutative_example :
    eval ints counter (commutative ints (node Op.add int32 false none (constant 7) variable)) 5
    ≡ eval ints counter (node Op.add int32 false none (constant 7) variable) 5
eval-commutative_example =
    eval-commutative ints counter int32 false (constant 7) variable (literal 7) 5 Commutative.add
      (unfold constant_of in refl)

-- `5 < x` becomes `x >= 5`, where x is 5.
commutative-Order_example :
    (commutative ints (node Op.lt int32 false none (constant 5) variable)
      ≡ node (negop Op.lt) int32 false none variable (constant 5))
    × ((eval ints counter (node (negop Op.lt) int32 false none variable (constant 5)) 5).1
        ≢ (eval ints counter (node Op.lt int32 false none (constant 5) variable) 5).1)
unfolding arithmetic
commutative-Order_example =
    commutative-Order ints counter int32 int32 false (constant 5) Op.sym none nil nil (literal 5) 5
      Commutative.lt four (unfold constant_of in refl) (unfold eval to_signed in refl)

-- `-7 - 6` becomes a constant.
eval-fold_example :
    (t : Tree ℤ) × (fold ints (
        node Op.sub int32 true none
          (constnode int32 (word (2 ^ 64 - 7)))
          (constnode int32 (word 6)))
      ≡ ok t)
    × (eval ints counter t 5
        ≡ eval ints counter
            (node Op.sub int32 true none
              (constnode int32 (word (2 ^ 64 - 7)))
              (constnode int32 (word 6)))
            5)
    × (is_constant t ≡ in_range top32 (negsuc 6 -ℤ pos 6))
unfolding signed_value to_signed as_word
eval-fold_example =
    eval-fold ints counter int32 true (word (2 ^ 64 - 7)) (word 6) 5 refl refl four (omega arith)
      (rw minus_seven (omega arith)) (rw six (omega arith)) operands
  where
    minus_seven : signed_value ints (word (2 ^ 64 - 7)) ≡ negsuc 6
    minus_seven = refl

    six : signed_value ints (word 6) ≡ pos 6
    six = refl

    operands :
        Folds top32 32 Op.sub ◌-ℤ◌
          (signed_value ints (word (2 ^ 64 - 7)))
          (signed_value ints (word 6))
    operands = rw (minus_seven, six) (Folded.sub (omega arith) (λ e. cc))

-- `x % 4`, where x is 7.
eval-reduce_example :
    eval ints counter (reduce ints (node Op.rem int32 false none variable (constant 4))) 7
    ≡ eval ints counter (node Op.rem int32 false none variable (constant 4)) 7
unfolding eval arithmetic
eval-reduce_example =
    eval-reduce ints counter int32 false variable (constant 4) 7 7
      (constant-WordConstant 4 (omega arith)) (omega arith) refl

-- `-7 % 4`.
reduce-negative_example :
    (eval ints counter
      (reduce ints (node Op.rem int32 false none (constant (2 ^ 64 - 7)) (constant 4)))
      5).1
    ≢ (eval ints counter (node Op.rem int32 false none (constant (2 ^ 64 - 7)) (constant 4)) 5).1
unfolding eval power2node as_word to_signed
reduce-negative_example =
    reduce-negative ints counter int32 false (constant (2 ^ 64 - 7)) Op.sym int32 (literal 4) nil
      nil 5 6 four refl refl (omega arith) (omega arith) refl (omega arith)
