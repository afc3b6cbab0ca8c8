-- ===== src/Cc1/Fold/Meaning/Reduce.antt =====
-- `reduce` of fold.c makes a mask of a remainder by a power of two: where that keeps the value of the
-- node, and where not.
use simple_scc.Common.{
  ℕ, zero, suc, ◌-◌, ◌*◌, ◌/◌, ◌%◌, ◌<◌, ◌^◌, ◌≡◌, ◌≢◌, refl, sym, ◌∙◌, ap, arith, Bool, true,
  false, some, none, Bool-cases, lt→ltb, inl, inr, ◌==◌,
}
use native.Mathlib.Nat.{pow-le-pow_right, mod-eq_of_lt, mod-lt, one-le-pow}
use simple_scc.Common.Bits.{bit_and-mask}
use simple_scc.Common.Int.{ℤ, pos, negsuc, neg, rem, to_signed, to_word}
use simple_scc.Cc1.Types.{Ctype, TypeOp, IsSize}
use simple_scc.Cc1.Fold.Op.{Op}
use simple_scc.Cc1.Fold.Floating.{FloatOps, word, as_word}
use simple_scc.Cc1.Fold.Tree.{Symbol, Tree, nil, node, constant_of, power2node, int_power2, ones_in}
use simple_scc.Cc1.Fold.Binary.{reduce}
use simple_scc.Cc1.Fold.Meaning.Constant.{wrap-InRange}
use simple_scc.Cc1.Fold.Meaning.{Machine, eval, wrap, modulus, arithmetic, meet}

-- A number with no bit set is zero, and one with one bit set is a power of two.
ones_in-zero : (n u : ℕ) → u < 2 ^ n → ones_in n u ≡ 0 → u ≡ 0
unfolding ones_in
ones_in-zero zero u h e = omega arith
ones_in-zero (suc n) u h e =
    let half = ones_in-zero n (u / 2) (omega arith) (omega arith) in omega arith

ones_in-one : (n u : ℕ) → u < 2 ^ n → ones_in n u ≡ 1 → (k : ℕ) × (k < n) × (u ≡ 2 ^ k)
unfolding ones_in
ones_in-one zero u h e = ground arith
ones_in-one (suc n) u h e = elim (Bool-cases (u % 2 == 0)) [
  | inl z ↦
      let (k, below, half) = ones_in-one n (u / 2) (omega arith) (ground arith) in
      (suc k, omega arith, ground arith)
  | inr z ↦
      let half = ones_in-zero n (u / 2) (omega arith) (ground arith) in
      (0, omega arith, ground arith)
]

below_word : (k : ℕ) → k < 64 → 2 ^ k - 1 < 2 ^ 64
below_word k h =
    let wide = pow-le-pow_right {n = 2} (omega arith) {i = k} {j = 64} (omega arith) in omega arith

meet-mask : (a k : ℕ) → a < 2 ^ 64 → k < 64 → meet (pos a) (pos (2 ^ k - 1)) ≡ pos (a % 2 ^ k)
unfolding meet to_word
meet-mask a k ha hk =
    let small : a % 2 ^ 64 ≡ a = omega arith in
    let mask : (2 ^ k - 1) % 2 ^ 64 ≡ 2 ^ k - 1 = mod-eq_of_lt (below_word k hk) in
    rw (small, mask, bit_and-mask k a) refl

meet-low : (v : ℤ) (k : ℕ) → k < 64 → (x : ℕ) × (x < 2 ^ k) × (meet v (pos (2 ^ k - 1)) ≡ pos x)
unfolding meet to_word
meet-low v k hk =
    let mask : (2 ^ k - 1) % 2 ^ 64 ≡ 2 ^ k - 1 = mod-eq_of_lt (below_word k hk) in
    (
      to_word v % 2 ^ k,
      mod-lt (to_word v) (one-le-pow k 2 (omega arith)),
      rw (mask, bit_and-mask k) refl,
    )

-- Two values of a signed type, one negative and one not, stay different in it.
wrap-apart :
    {size : ℕ} (x y : ℕ)
    → IsSize size
    → x < 2 ^ (size * 8 - 1)
    → y < 2 ^ (size * 8 - 1)
    → wrap true (2 ^ (size * 8)) (pos x) ≢ wrap true (2 ^ (size * 8)) (negsuc y)
wrap-apart x y z hx hy e =
    let same : pos x ≡ negsuc y =
      sym (wrap-InRange (pos x) z (omega arith)) ∙ e ∙ wrap-InRange (negsuc y) z (omega arith) in
    cc

neg_nonzero : (y : ℕ) → y ≢ 0 → neg y ≡ negsuc (y - 1)
neg_nonzero zero h = absurd (h refl)
neg_nonzero (suc y) h = ground arith

mask_apart :
    {size : ℕ} (w n a : ℕ)
    → IsSize size
    → w ≡ 2 ^ n
    → n < 64
    → w < 2 ^ (size * 8 - 1)
    → suc a % w ≢ 0
    → wrap true (2 ^ (size * 8)) (meet (negsuc a) (pos (w - 1)))
      ≢ wrap true (2 ^ (size * 8)) (neg (suc a % w))
mask_apart w n a z power hn hw hr =
    let (x, low, value) = meet-low (negsuc a) n hn in
    let below : suc a % w < w = mod-lt (suc a) (omega (arith, one-le-pow n 2)) in
    let negative : neg (suc a % w) ≡ negsuc (suc a % w - 1) = neg_nonzero (suc a % w) hr in
    rw (negative, ap (λ v. meet (negsuc a) (pos (v - 1))) power ∙ value)
      (wrap-apart x (suc a % w - 1) z (omega arith) (omega arith))

module _ (fl : FloatOps) where
  open fl use {F}

  -- A constant, if it is one, is not negative as a signed word.
  unfoldable pub WordConstant : Tree F → Type 0
  WordConstant t = (c : Symbol F) → constant_of t ≡ some c → as_word fl c.value < 2 ^ 63

  power2node-word :
      (o : TypeOp) (u : ℕ)
      → u < 2 ^ 63
      → int_power2 fl o u ≡ true
      → (k : ℕ) × (k < 64) × (u ≡ 2 ^ k)
  unfolding int_power2
  power2node-word TypeOp.int u h e = ones_in-one 64 u (omega arith) (ground arith)
  power2node-word _ u h e = cc

  module _ (m : Machine F) where
    open m use {State}

    -- A constant has no effect, and its word is its value.
    eval-word :
        (o : Op) (t : Ctype) (c : Symbol F) (p q : Tree F) (s : State)
        → as_word fl c.value < 2 ^ 63
        → eval fl m (node o t true (some c) p q) s ≡ (s, pos (as_word fl c.value))
    unfolding eval to_signed
    eval-word o t c p q s h = elim (Bool-cases c.type.signed) [
      | inl e ↦ rw (e, lt→ltb (as_word fl c.value) (2 ^ 63) h)
      | inr e ↦ rw e
    ]

    module _ (tp : Ctype) (l r : Tree F) (s : State) where
      eval-rem :
          (k : Bool)
          → eval fl m (node Op.rem tp k none l r) s ≡ (
            (eval fl m r (eval fl m l s).0).0,
            wrap tp.signed (modulus tp) (rem (eval fl m l s).1 (eval fl m r (eval fl m l s).0).1),
          )
      unfolding eval arithmetic
      eval-rem true = refl
      eval-rem false = refl

      eval-band :
          (k : Bool)
          → eval fl m (node Op.band tp k none l r) s ≡ (
            (eval fl m r (eval fl m l s).0).0,
            wrap tp.signed (modulus tp) (meet (eval fl m l s).1 (eval fl m r (eval fl m l s).0).1),
          )
      unfolding eval arithmetic
      eval-band true = refl
      eval-band false = refl

    -- A remainder by the constant `w` and a mask of the constant `w - 1`.
    masked :
        (tp : Ctype) (k : Bool) (l : Tree F) (o : Op) (t : Ctype) (c : Symbol F) (p q : Tree F)
        (s : State) (a : ℕ)
        → as_word fl c.value < 2 ^ 63
        → a < 2 ^ 64
        → (eval fl m l s).1 ≡ pos a
        → int_power2 fl c.type.op (as_word fl c.value) ≡ true
        → eval fl m
            (node Op.band tp k none l
              (node o t true (some (record c { value = word (as_word fl c.value - 1) })) p q))
            s
          ≡ eval fl m (node Op.rem tp k none l (node o t true (some c) p q)) s
    unfolding rem as_word
    masked tp k l o t c p q s a hw ha hl e =
        let (n, below, power) = power2node-word c.type.op (as_word fl c.value) hw e in
        let less = record c { value = word (as_word fl c.value - 1) } in
        rw
          (
            eval-band tp l (node o t true (some less) p q) s k,
            eval-rem tp l (node o t true (some c) p q) s k,
            eval-word o t c p q (eval fl m l s).0 hw,
            eval-word o t less p q (eval fl m l s).0 (omega arith),
            hl,
            power,
            meet-mask a n ha below,
          )
          refl

    -- `reduce` keeps the effects and the value of a remainder whose left value is not negative and
    -- fits 64 bits; a constant on the right is below 2 ^ 63.
    pub eval-reduce :
        (tp : Ctype) (k : Bool) (l r : Tree F) (s : State) (a : ℕ)
        → WordConstant r
        → a < 2 ^ 64
        → (eval fl m l s).1 ≡ pos a
        → eval fl m (reduce fl (node Op.rem tp k none l r)) s
          ≡ eval fl m (node Op.rem tp k none l r) s
    unfolding reduce WordConstant constant_of power2node
    eval-reduce tp k l nil s a hr ha hl = refl
    eval-reduce tp k l (node o t false c p q) s a hr ha hl = refl
    eval-reduce tp k l (node o t true none p q) s a hr ha hl = refl
    eval-reduce tp k l (node o t true (some c) p q) s a hr ha hl =
        elim (Bool-cases (int_power2 fl c.type.op (as_word fl c.value))) [
          | inl e ↦ rw e (masked tp k l o t c p q s a (hr c refl) ha hl e)
          | inr e ↦ rw e
        ]

    -- `reduce` changes the value of a remainder of a signed type whose left value is negative and not
    -- divided by the power of two on the right, a constant that is a value of the type.
    pub reduce-negative :
        (tp : Ctype) (k : Bool) (l : Tree F) (o : Op) (t : Ctype) (c : Symbol F) (p q : Tree F)
        (s : State) (a : ℕ)
        → IsSize tp.size
        → tp.signed ≡ true
        → power2node fl (node o t true (some c) p q) ≡ true
        → as_word fl c.value < 2 ^ (tp.size * 8 - 1)
        → as_word fl c.value < 2 ^ 63
        → (eval fl m l s).1 ≡ negsuc a
        → suc a % as_word fl c.value ≢ 0
        → (eval fl m (reduce fl (node Op.rem tp k none l (node o t true (some c) p q))) s).1
          ≢ (eval fl m (node Op.rem tp k none l (node o t true (some c) p q)) s).1
    unfolding reduce power2node as_word rem
    reduce-negative tp k l o t c p q s a hz hs e hw h63 hl hr =
        let (n, below, power) = power2node-word c.type.op (as_word fl c.value) h63 e in
        let less = record c { value = word (as_word fl c.value - 1) } in
        rw
          (
            e,
            eval-band tp l (node o t true (some less) p q) s k,
            eval-rem tp l (node o t true (some c) p q) s k,
            eval-word o t c p q (eval fl m l s).0 h63,
            eval-word o t less p q (eval fl m l s).0 (omega arith),
            hl,
            hs,
          )
          (mask_apart (as_word fl c.value) n a hz power below hw hr)
