-- ===== src/Cc1/Fold/Signed/Sound.antt =====
-- What `foldint` of fold.c answers for each arithmetic operation, against exact integers.
use simple_scc.Common.{
  ℕ, zero, suc, ◌+◌, ◌-◌, ◌*◌, ◌<◌, ◌≤◌, ◌^◌, ◌≡◌, ◌≢◌, ◌⊎◌, inl, inr, refl, arith, Bool, true,
  false, not, ◌&&◌, ◌||◌, Bool-cases, ◌∙◌, sym, Option, some, none, ltb, leb, lt→ltb, if◌then◌else◌,
}
use simple_scc.Common.Int.{
  ℤ, pos, negsuc, neg_part, negate, ◌+ℤ◌, ◌-ℤ◌, ◌*ℤ◌, quot, rem, to_word, ltb_ℤ, leb_ℤ, eqb_ℤ, ◌≤ℤ◌,
}
use simple_scc.Common.Ub.{Ub, ok, undefined, ◌>>=◌}
use simple_scc.Cc1.Types.{Ctype}
use simple_scc.Cc1.Fold.Op.{Op}
use simple_scc.Cc1.Fold.Signed.{
  foldint, compute, validate, addi, subi, muli, divi, lshi, rshi, tint, sum_fits, shift_left,
}
use simple_scc.Cc1.Fold.Signed.Exact.{
  InRange, in_range, sum_fits-exact, sum_fits-negate, product_fits-exact,
}
use simple_scc.Cc1.Fold.Signed.Range.{
  quot-InRange, rem-InRange, shift_right_lem, shift_right-InRange,
}
use simple_scc.Cc1.Fold.Signed.Limits.{IsSigned, to_signed-top, to_signed-min}

tint-in_range : (top : ℕ) (v : ℤ) → top < 2 ^ 63 → in_range top v ≡ true → tint v ≡ ok v
unfolding tint
tint-in_range top v h e = ground arith

tint-negate :
    {top : ℕ} (r : ℤ)
    → InRange top r
    → neg_part r < 2 ^ 63
    → top < 2 ^ 63
    → tint (negate r) ≡ ok (negate r)
unfolding tint
tint-negate (pos zero) h h' f = refl
tint-negate (pos (suc n)) h h' f = ground arith
tint-negate (negsuc n) h h' f = ground arith

-- The value if it is one of the type.
abbrev pub checked : ℕ → ℤ → Option ℤ
checked top v = if in_range top v then some v else none

nonzero_test : (r : ℤ) → r ≢ pos 0 → eqb_ℤ r (pos 0) ≡ false
nonzero_test (pos zero) h = absurd (h refl)
nonzero_test (pos (suc n)) h = ground arith
nonzero_test (negsuc n) h = ground arith

tint_of_range : {top : ℕ} {v : ℤ} → InRange top v → top < 2 ^ 63 → tint v ≡ ok v
unfolding tint
tint_of_range h f = ground arith

-- A validated operation whose value is checked by the validator.
checked_fold :
    (top : ℕ) (v : ℤ)
    → top < 2 ^ 63
    → (if in_range top v then (tint v >>= λ w. ok (some w)) else ok none) ≡ ok (checked top v)
unfolding tint
checked_fold top v h = ground arith

-- What `divi` refuses: a zero divisor, and the 64-bit minimum with the divisor -1.
abbrev pub refused : ℤ → ℤ → Bool
refused l r = eqb_ℤ r (pos 0) || eqb_ℤ l (negsuc (2 ^ 63 - 1)) && eqb_ℤ r (negsuc 0)

either_ok :
    (b : Bool) (v : ℤ)
    → ◌≡◌ {A = Ub (Option ℤ)} (if b then ok (some v) else ok none) (ok (if b then some v else none))
either_ok true v = refl
either_ok false v = refl

InRange-in_range : {top : ℕ} {v : ℤ} → InRange top v → in_range top v ≡ true
InRange-in_range h = ground arith

or-left : (a b : Bool) → (a || b) ≡ false → a ≡ false
or-left true b e = e
or-left false b e = refl

or-true : (b : Bool) → (b || true) ≡ true
or-true true = refl
or-true false = refl

within_or : {top : ℕ} {v : ℤ} → InRange top v → (b : Bool) → (in_range top v || b) ≡ true
within_or h b = rw (InRange-in_range h) refl

-- A left shift behind its validator.
shifted :
    (top : ℕ) (l : ℤ) (r : ℕ)
    → top < 2 ^ 63
    → r < 31
    → (if in_range top (l *ℤ pos (2 ^ r))
        then (shift_left l (pos r) >>= λ w. ok (some w))
        else ok none)
      ≡ (if in_range top (l *ℤ pos (2 ^ r))
          then (if ltb_ℤ l (pos 0) then undefined else ok (some (l *ℤ pos (2 ^ r))))
          else ok none)
unfolding shift_left
shifted top (pos a) r f h =
    let small : ltb r 64 ≡ true = lt→ltb r 64 (omega arith) in
    let positive : ltb_ℤ (pos a) (pos 0) ≡ false = ground arith in
    rw (small, positive)
      (checked_fold top (pos a *ℤ pos (2 ^ r)) f
        ∙ sym (either_ok (in_range top (pos a *ℤ pos (2 ^ r))) (pos a *ℤ pos (2 ^ r))))
shifted top (negsuc a) r f h =
    let negative : ltb_ℤ (negsuc a) (pos 0) ≡ true = ground arith in rw negative refl

-- A signed type whose values are those from `- top - 1` to `top`.
module _ {tp : Ctype} {top : ℕ} (s : IsSigned tp top) where
  addi_lem : (l r : ℤ) → InRange top l → InRange top r → addi l r tp ≡ ok (in_range top (l +ℤ r))
  unfolding addi
  addi_lem l r hl hr = rw (
    s.limits_eq,
    to_signed-top top s.fits,
    to_signed-min top s.fits,
    sum_fits-exact top l r hl hr,
  )

  muli_lem :
      (l r : ℤ)
      → InRange top l
      → InRange top r
      → neg_part l < 2 ^ 63
      → neg_part r < 2 ^ 63
      → muli l r tp ≡ ok (in_range top (l *ℤ r))
  unfolding muli
  muli_lem l r hl hr hl' hr' = rw (
    s.limits_eq,
    to_signed-top top s.fits,
    to_signed-min top s.fits,
    product_fits-exact top l r hl hr hl' hr',
  )

  divi_lem :
      (l r : ℤ)
      → InRange top l
      → InRange top r
      → r ≢ pos 0
      → (r ≡ negsuc 0 → neg_part l ≤ top)
      → divi l r tp ≡ ok true
  unfolding divi to_word
  divi_lem l (pos zero) hl hr h0 h1 = absurd (h0 refl)
  divi_lem l (pos (suc b)) hl hr h0 h1 = ground (arith, s.limits_eq)
  divi_lem (pos a) (negsuc zero) hl hr h0 h1 =
      ground (arith, s.limits_eq, s.fits, to_signed-min top, h1 refl)
  divi_lem (negsuc a) (negsuc zero) hl hr h0 h1 =
      ground (arith, s.limits_eq, s.fits, to_signed-min top, h1 refl)
  divi_lem l (negsuc (suc b)) hl hr h0 h1 = ground (arith, s.limits_eq)

  -- An addition of two values of the type is folded exactly when the sum is one, and to the sum.
  pub foldint-add :
      (l r : ℤ) → InRange top l → InRange top r → foldint Op.add tp l r ≡ ok (checked top (l +ℤ r))
  unfolding foldint validate compute
  foldint-add l r hl hr = rw (addi_lem l r hl hr) (checked_fold top (l +ℤ r) s.fits)

  -- A multiplication of two values of the type is folded exactly when the product is one, and to
  -- the product; the 64-bit minimum as an operand is left out.
  pub foldint-mul :
      (l r : ℤ)
      → InRange top l
      → InRange top r
      → neg_part l < 2 ^ 63
      → neg_part r < 2 ^ 63
      → foldint Op.mul tp l r ≡ ok (checked top (l *ℤ r))
  unfolding foldint validate compute
  foldint-mul l r hl hr hl' hr' = rw (muli_lem l r hl hr hl' hr') (checked_fold top (l *ℤ r) s.fits)

  -- A subtraction of two values of the type is folded exactly when the difference is one, and to the
  -- difference; zero minus the minimum is left out, and so is a 64-bit minimum to be subtracted.
  pub foldint-sub :
      (l r : ℤ)
      → InRange top l
      → InRange top r
      → neg_part r < 2 ^ 63
      → (l ≡ pos 0 → neg_part r ≤ top)
      → foldint Op.sub tp l r ≡ ok (checked top (l -ℤ r))
  unfolding foldint validate compute subi addi
  foldint-sub l r hl hr hr' h =
      rw
        (
          tint-negate r hr hr' s.fits,
          s.limits_eq,
          to_signed-top top s.fits,
          to_signed-min top s.fits,
          sum_fits-negate top l r hl hr h,
        )
        (checked_fold top (l -ℤ r) s.fits)

  -- Zero minus the minimum of a type narrower than 64 bits is folded to a value out of its range.
  pub foldint-sub_min :
      top < 2 ^ 63 - 1 → foldint Op.sub tp (pos 0) (negsuc top) ≡ ok (some (pos (suc top)))
  unfolding foldint validate compute subi addi sum_fits tint ◌-ℤ◌
  foldint-sub_min h = ground (arith, s.limits_eq)

  -- A division of values of the type by a divisor that is not zero is folded to the quotient, rounded
  -- to zero, and that is a value of the type; the minimum divided by -1 is left out.
  pub foldint-div :
      (l r : ℤ)
      → InRange top l
      → InRange top r
      → r ≢ pos 0
      → (r ≡ negsuc 0 → neg_part l ≤ top)
      → (foldint Op.div tp l r ≡ ok (some (quot l r))) × InRange top (quot l r)
  unfolding foldint validate compute
  foldint-div l r hl hr h0 h1 =
      let q = quot-InRange top l r hl hr h1 in
      (rw (divi_lem l r hl hr h0 h1, nonzero_test r h0, tint_of_range q s.fits) refl, q)

  -- The remainder of values of the type by a divisor that is not zero is folded, with the sign of the
  -- dividend, and is a value of the type; the minimum and the divisor -1 are left out.
  pub foldint-rem :
      (l r : ℤ)
      → InRange top l
      → InRange top r
      → r ≢ pos 0
      → (r ≡ negsuc 0 → neg_part l ≤ top)
      → (foldint Op.rem tp l r ≡ ok (some (rem l r))) × InRange top (rem l r)
  unfolding foldint validate compute
  foldint-rem l r hl hr h0 h1 =
      let q = quot-InRange top l r hl hr h1 in
      (
        rw (divi_lem l r hl hr h0 h1, nonzero_test r h0, tint_of_range q s.fits) refl,
        rem-InRange top l r hl hr,
      )

  divi-refused : (l r : ℤ) → InRange top l → InRange top r → divi l r tp ≡ ok (not (refused l r))
  unfolding divi to_word
  divi-refused (pos a) r hl hr = ground (arith, s.limits_eq, s.fits, to_signed-min top)
  divi-refused (negsuc a) r hl hr = ground (arith, s.limits_eq, s.fits, to_signed-min top)

  quot_fits :
      (l r : ℤ)
      → InRange top l
      → InRange top r
      → refused l r ≡ false
      → tint (quot l r) ≡ ok (quot l r)
  unfolding tint quot
  quot_fits l (pos b) hl hr h = tint_of_range (quot-InRange top l (pos b) hl hr (λ e. cc)) s.fits
  quot_fits l (negsuc (suc b)) hl hr h =
      tint_of_range (quot-InRange top l (negsuc (suc b)) hl hr (λ e. cc)) s.fits
  quot_fits (pos a) (negsuc zero) hl hr h =
      tint_of_range (quot-InRange top (pos a) (negsuc zero) hl hr (λ e. omega arith)) s.fits
  quot_fits (negsuc a) (negsuc zero) hl hr h = ground (arith, s.fits)

  -- The quotient is a value of the type but for a zero divisor, and for the minimum divided by -1.
  quot-in_range :
      (l r : ℤ)
      → InRange top l
      → InRange top r
      → (in_range top (quot l r) || (eqb_ℤ r (pos 0) || eqb_ℤ l (negsuc top) && eqb_ℤ r (negsuc 0)))
        ≡ true
  quot-in_range l (pos b) hl hr = within_or (quot-InRange top l (pos b) hl hr (λ e. cc)) _
  quot-in_range l (negsuc (suc b)) hl hr =
      within_or (quot-InRange top l (negsuc (suc b)) hl hr (λ e. cc)) _
  quot-in_range (pos a) (negsuc zero) hl hr =
      within_or (quot-InRange top (pos a) (negsuc zero) hl hr (λ e. omega arith)) _
  quot-in_range (negsuc a) (negsuc zero) hl hr = elim (Bool-cases (ltb a top)) [
    | inl e ↦
        let small : suc a ≤ top = ground arith in
        within_or (quot-InRange top (negsuc a) (negsuc zero) hl hr (λ _. small)) _
    | inr e ↦
        let least : eqb_ℤ (negsuc a) (negsuc top) ≡ true = ground arith in rw least (or-true _)
  ]

  -- Of values of the type a quotient is folded, rounded to zero, and a remainder with the sign of the
  -- dividend, unless the divisor is zero or it is -1 and the dividend the 64-bit minimum; then nothing is
  -- folded. The remainder is a value of the type, and so is the quotient, but for a zero divisor and for
  -- the minimum of the type divided by -1.
  pub foldint-divi :
      (l r : ℤ)
      → InRange top l
      → InRange top r
      → (foldint Op.div tp l r ≡ ok (if refused l r then none else some (quot l r)))
        × (foldint Op.rem tp l r ≡ ok (if refused l r then none else some (rem l r)))
        × InRange top (rem l r)
        × ((in_range top (quot l r)
              || (eqb_ℤ r (pos 0) || eqb_ℤ l (negsuc top) && eqb_ℤ r (negsuc 0)))
            ≡ true)
  unfolding foldint validate compute
  foldint-divi l r hl hr =
      let within = rem-InRange top l r hl hr in
      let range = quot-in_range l r hl hr in
      elim (Bool-cases (refused l r)) [
        | inl e ↦ (
          rw (divi-refused l r hl hr, e) refl,
          rw (divi-refused l r hl hr, e) refl,
          within,
          range,
        )
        | inr e ↦
            let nonzero : eqb_ℤ r (pos 0) ≡ false = or-left _ _ e in
            let q = quot_fits l r hl hr e in
            (
              rw (divi-refused l r hl hr, e, nonzero, q) refl,
              rw (divi-refused l r hl hr, e, nonzero, q) refl,
              within,
              range,
            )
      ]

  -- A count that is negative or not below the width stops the folding of either shift.
  pub foldint-shift_count :
      (l r : ℤ)
      → (ltb_ℤ r (pos 0) ≡ true) ⊎ (leb_ℤ (pos (tp.size * 8)) r ≡ true)
      → (foldint Op.shl tp l r ≡ ok none) × (foldint Op.shr tp l r ≡ ok none)
  unfolding foldint validate lshi rshi
  foldint-shift_count l r (inl h) = ground arith
  foldint-shift_count l r (inr h) = ground arith

  -- A left shift by a count below 31 and below the width, whose power of two is a value of the type:
  -- where the product by that power is no value of the type, it is not folded; where it is, it is folded
  -- to the product if the left operand is not negative, and the code does what C leaves undefined if it
  -- is negative. The 64-bit minimum as the left operand is left out.
  pub foldint-shl :
      (l : ℤ) (r : ℕ)
      → InRange top l
      → neg_part l < 2 ^ 63
      → r < 31
      → r < tp.size * 8
      → 2 ^ r ≤ top
      → foldint Op.shl tp l (pos r) ≡ (
          if in_range top (l *ℤ pos (2 ^ r))
          then (if ltb_ℤ l (pos 0) then undefined else ok (some (l *ℤ pos (2 ^ r))))
          else ok none)
  unfolding foldint validate compute lshi shift_left
  foldint-shl l r hl hl' h31 hw hp =
      let not_negative : ltb (r + 0) 0 ≡ false = ground arith in
      let in_width : leb (tp.size * 8 + 0) (r + 0) ≡ false = ground arith in
      let valid = muli_lem l (pos (2 ^ r)) hl (omega arith) hl' (omega arith) in
      rw (not_negative, in_width, lt→ltb r 31 h31, valid) (shifted top l r s.fits h31)

  pub foldint-shl_pos :
      (a r : ℕ)
      → InRange top (pos a)
      → r < 31
      → r < tp.size * 8
      → 2 ^ r ≤ top
      → foldint Op.shl tp (pos a) (pos r) ≡ ok (checked top (pos a *ℤ pos (2 ^ r)))
  foldint-shl_pos a r h h31 hw hp =
      let positive : ltb_ℤ (pos a) (pos 0) ≡ false = ground arith in
      foldint-shl (pos a) r h (omega arith) h31 hw hp
      ∙ rw positive (either_ok (in_range top (pos a *ℤ pos (2 ^ r))) _)

  -- A right shift by a count below the width, of a type of at most 8 bytes, is folded to a value of
  -- the type, which is the quotient by the power of two rounded down.
  pub foldint-shr :
      (l : ℤ) (r : ℕ)
      → InRange top l
      → r < tp.size * 8
      → tp.size ≤ 8
      → (v : ℤ) × (foldint Op.shr tp l (pos r) ≡ ok (some v))
        × InRange top v
        × (v *ℤ pos (2 ^ r) ≤ℤ l)
        × (l +ℤ pos 1 ≤ℤ v *ℤ pos (2 ^ r) +ℤ pos (2 ^ r))
  unfolding foldint validate compute rshi
  foldint-shr l r hl hw h8 =
      let (v, e, low, high) = shift_right_lem l r (omega arith) in
      (v, ground (arith, e), shift_right-InRange l r hl e, low, high)
