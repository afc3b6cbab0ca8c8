-- ===== src/Cc1/Lex/Integer/Fits.antt =====
-- The value and the type that `readint` finds for a text.
use mathlib.Core.Path.{subst}
use native.Mathlib.Nat.{le-div_iff_mul-le, le-mul_of_pos_right}
use simple_scc.Common.{
  ℕ, zero, suc, ◌+◌, ◌-◌, ◌*◌, ◌/◌, ◌%◌, ◌^◌, ◌≤◌, ◌<◌, ◌≡◌, ◌≢◌, refl, sym, ap, ◌∙◌, arith, Bool,
  true, false, ◌&&◌, List, [], ◌∷◌, Option, none, some, leb, ◌==◌, if◌then◌else◌, Bool-cases,
  Option-cases, inl, inr,
}
use simple_scc.Common.Ub.{Ub, ok, ◌>>=◌}
use simple_scc.Cc1.Types.{Ctype, Limits, getlimits}
use simple_scc.Cc1.Lex.Integer.{
  IntType, inttype, uinttype, longtype, ulongtype, llongtype, ullongtype, Constant, constant,
  overflow, xdigit, signed_next, unsigned_next, next_type, at_next, fits, settle, read_digits,
  readint, skip_zero, skip_x,
}

-- The number that the hexadecimal digits at the front of a text write in a base, behind `u`.
abbrev pub value : ℕ → ℕ → List ℕ → ℕ
value base u [] = u
value base u (c ∷ s) = elim (xdigit c) [ none ↦ u | some val ↦ value base (u * base + val) s ]

rank : IntType → ℕ
rank inttype = 0
rank uinttype = 1
rank longtype = 2
rank ulongtype = 3
rank llongtype = 4
rank ullongtype = 5

rank-le : (tp : IntType) → rank tp ≤ 5
unfolding rank
rank-le inttype = omega arith
rank-le uinttype = omega arith
rank-le longtype = omega arith
rank-le ulongtype = omega arith
rank-le llongtype = omega arith
rank-le ullongtype = omega arith

next-rank :
    (arch : IntType → Ctype) (decimal unsig : Bool) (tp t : IntType)
    → next_type arch decimal unsig tp ≡ some t
    → rank tp < rank t
unfolding next_type signed_next unsigned_next rank
next-rank arch decimal unsig inttype t e = ground arith
next-rank arch decimal unsig uinttype t e = ground arith
next-rank arch decimal unsig longtype t e = ground arith
next-rank arch decimal unsig ulongtype t e = ground arith
next-rank arch decimal unsig llongtype t e = ground arith
next-rank arch decimal unsig ullongtype t e = ground arith

false-true : false ≢ true
false-true e = cc

true-false : true ≢ false
true-false e = cc

abbrev pub is_signed : IntType → Bool
is_signed inttype = true
is_signed uinttype = false
is_signed longtype = true
is_signed ulongtype = false
is_signed llongtype = true
is_signed ullongtype = false

-- The signs and the largest values of the integer types.
pub record HasMax (arch : IntType → Ctype) (mx : IntType → ℕ) : Type 0 where
  pub signs : (tp : IntType) → (arch tp).signed ≡ is_signed tp
  pub limits : (tp : IntType) → (lim : Limits) × (getlimits (arch tp) ≡ ok lim) × (lim.max ≡ mx tp)
  pub lower : (tp : IntType) → 16 ≤ mx tp
  pub upper : (tp : IntType) → mx tp < 2 ^ 64

module _ (arch : IntType → Ctype) (mx : IntType → ℕ) (base : ℕ) (unsig : Bool) where
  -- The first type from `tp` on that holds the value, or the last one; and whether it holds the value.
  abbrev pub first_fit : ℕ → IntType → ℕ → IntType × Bool
  first_fit zero tp v = (tp, false)
  first_fit (suc n) tp v =
      let more =
        at_next (next_type arch (base == 10) unsig tp) (λ t. first_fit n t v) (tp, false) in
      if leb v (mx tp) then (tp, true) else more

  -- What relates the results for each next type relates the results for the next type.
  at_next-rel {ℓ κ} :
      {X : Type ℓ} {Y : Type ℓ} (P : X → Y → Type κ) (tp : IntType) (o : Option IntType)
      (f : IntType → X) (g : IntType → Y) (x : X) (y : Y)
      → next_type arch (base == 10) unsig tp ≡ o
      → ((t : IntType) → rank tp < rank t → P (f t) (g t))
      → P x y
      → P (at_next o f x) (at_next o g y)
  at_next-rel P tp none f g x y e k h = h
  at_next-rel P tp (some t) f g x y e k h = k t (next-rank arch (base == 10) unsig tp t e)

  first_fit_enough :
      (n m : ℕ) (tp : IntType) (v : ℕ)
      → 6 ≤ rank tp + n
      → 6 ≤ rank tp + m
      → first_fit n tp v ≡ first_fit m tp v
  first_fit_enough zero m tp v h k = absurd (omega (arith, rank-le tp))
  first_fit_enough (suc n) zero tp v h k = absurd (omega (arith, rank-le tp))
  first_fit_enough (suc n) (suc m) tp v h k =
      ap (λ (x : IntType × Bool). if leb v (mx tp) then (tp, true) else x)
        (at_next-rel ◌≡◌ tp (next_type arch (base == 10) unsig tp) (λ t. first_fit n t v)
          (λ t. first_fit m t v) (tp, false) (tp, false) refl
          (λ t l. first_fit_enough n m t v (omega arith) (omega arith)) refl)

  -- A larger value fits in no type before the one that the smaller value fits in.
  first_fit_larger :
      (n m : ℕ) (tp t : IntType) (v w : ℕ)
      → v ≤ w
      → first_fit n tp v ≡ (t, true)
      → 6 ≤ rank tp + n
      → 6 ≤ rank t + m
      → first_fit n tp w ≡ first_fit m t w
  first_fit_larger zero m tp t v w l e h k = cc
  first_fit_larger (suc n) m tp t v w l e h k = elim (Bool-cases (leb v (mx tp))) [
    | inl y ↦
        let same : tp ≡ t = ap (λ p. p.0) (rw y at e) in
        rw (← same) (first_fit_enough (suc n) m tp w h (subst (λ x. 6 ≤ rank x + m) (sym same) k))
    | inr y ↦
        let y' : leb w (mx tp) ≡ false = ground arith in
        rw y' (
          at_next-rel (λ a b. a ≡ (t, true) → b ≡ first_fit m t w) tp
            (next_type arch (base == 10) unsig tp) (λ t'. first_fit n t' v) (λ t'. first_fit n t' w)
            (tp, false) (tp, false) refl
            (λ t' r e'. first_fit_larger n m t' t v w l e' (omega arith) k)
            (λ e'. absurd (false-true (ap (λ p. p.1) e'))) (rw y at e))
  ]

  -- What fits in no type does not fit when it is larger.
  first_fit_none :
      (n : ℕ) (tp t : IntType) (v w : ℕ)
      → v ≤ w
      → first_fit n tp v ≡ (t, false)
      → first_fit n tp w ≡ (t, false)
  first_fit_none zero tp t v w l e = e
  first_fit_none (suc n) tp t v w l e = elim (Bool-cases (leb v (mx tp))) [
    | inl y ↦ absurd (true-false (ap (λ p. p.1) (rw y at e)))
    | inr y ↦
        let y' : leb w (mx tp) ≡ false = ground arith in
        rw y' (
          at_next-rel (λ a b. a ≡ (t, false) → b ≡ (t, false)) tp
            (next_type arch (base == 10) unsig tp) (λ t'. first_fit n t' v) (λ t'. first_fit n t' w)
            (tp, false) (tp, false) refl (λ t' r e'. first_fit_none n t' t v w l e') (λ e'. e')
            (rw y at e))
  ]

xdigit-le : (c v : ℕ) → xdigit c ≡ some v → v ≤ 15
unfolding xdigit
xdigit-le c v e = ground arith

if-ok {ℓ} :
    {A : Type ℓ} (c : Bool) (x : A) {z : A} {y : Ub A}
    → y ≡ ok z
    → (if c then ok x else y) ≡ ok (if c then x else z)
if-ok true x e = refl
if-ok false x e = e

fits_test :
    (u b val m : ℕ)
    → 0 < b
    → val ≤ m
    → m < 2 ^ 64
    → (leb u (m / b) && leb (u * b) ((m + 2 ^ 64 - val) % 2 ^ 64)) ≡ leb (u * b + val) m
fits_test u b val m h l k =
    let rest : (m + 2 ^ 64 - val) % 2 ^ 64 ≡ m - val = omega arith in
    let (to, from) = le-div_iff_mul-le {x = u} {y = m} h in rw rest (ground (arith, to, from))

-- The answer of `readint` for a fit.
abbrev pub answer : ℕ → IntType × Bool → Constant
answer v p = if p.1 then constant p.0 v else overflow p.0

module _ (arch : IntType → Ctype) (mx : IntType → ℕ) (k : HasMax arch mx) (base : ℕ) (unsig : Bool)
    (b : 0 < base) where
  fits-leb :
      (tp : IntType) (u val : ℕ)
      → val ≤ 15
      → fits arch base unsig tp u val ≡ ok (leb (u * base + val) (mx tp))
  unfolding fits
  fits-leb tp u val l =
      let (lim, e, m) = k.limits tp in
      rw (e, m) (ap ok (fits_test u base val (mx tp) b (omega (arith, k.lower tp)) (k.upper tp)))

  settle-first_fit :
      (n : ℕ) (tp : IntType) (u val : ℕ)
      → val ≤ 15
      → 6 ≤ rank tp + n
      → settle arch base unsig n tp u val ≡ ok (first_fit arch mx base unsig n tp (u * base + val))
  unfolding settle
  settle-first_fit zero tp u val l h = absurd (omega (arith, rank-le tp))
  settle-first_fit (suc n) tp u val l h = rw (fits-leb tp u val l) (
      if-ok _ (tp, true)
        (at_next-rel arch mx base unsig (λ a c. a ≡ ok c) tp (next_type arch (base == 10) unsig tp)
          (λ t. settle arch base unsig n t u val)
          (λ t. first_fit arch mx base unsig n t (u * base + val)) (ok (tp, false)) (tp, false) refl
          (λ t r. settle-first_fit n t u val l (omega arith)) refl))

  first_fit-le :
      (n : ℕ) (tp t : IntType) (v : ℕ) → first_fit arch mx base unsig n tp v ≡ (t, true) → v ≤ mx t
  first_fit-le zero tp t v e = absurd (false-true (ap (λ p. p.1) e))
  first_fit-le (suc n) tp t v e = elim (Bool-cases (leb v (mx tp))) [
    | inl y ↦
        let same : tp ≡ t = ap (λ p. p.0) (rw y at e) in
        let fit : v ≤ mx tp = ground arith in subst (λ x. v ≤ mx x) same fit
    | inr y ↦
        at_next-rel arch mx base unsig (λ a c. a ≡ (t, true) → v ≤ mx t) tp
          (next_type arch (base == 10) unsig tp) (λ t'. first_fit arch mx base unsig n t' v)
          (λ t'. v) (tp, false) v refl (λ t' r. first_fit-le n t' t v)
          (λ e'. absurd (false-true (ap (λ p. p.1) e'))) (rw y at e)
  ]

  le-times : (u v : ℕ) → u ≤ u * base + v
  le-times u v = omega (arith, le-mul_of_pos_right u b)

  value-stop : (c u : ℕ) (s : List ℕ) → xdigit c ≡ none → value base u (c ∷ s) ≡ u
  value-stop c u s e = rw (e, value) refl

  value-digit :
      (c v u : ℕ) (s : List ℕ)
      → xdigit c ≡ some v
      → value base u (c ∷ s) ≡ value base (u * base + v) s
  value-digit c v u s e = rw (e, value) refl

  read-stop :
      (tp : IntType) (c u : ℕ) (s : List ℕ)
      → xdigit c ≡ none
      → read_digits arch base unsig tp u (c ∷ s) ≡ ok (constant tp u)
  unfolding read_digits
  read-stop tp c u s e = rw (e, read_digits) refl

  read-digit :
      (tp : IntType) (c v u : ℕ) (s : List ℕ)
      → xdigit c ≡ some v
      → read_digits arch base unsig tp u (c ∷ s) ≡ (
          settle arch base unsig 7 tp u v >>= λ p.
          if p.1
          then read_digits arch base unsig p.0 ((u * base + v) % 2 ^ 64) s
          else ok (overflow p.0))
  unfolding read_digits
  read-digit tp c v u s e = rw (e, read_digits) refl

  value-ge : (s : List ℕ) (u : ℕ) → u ≤ value base u s
  value-ge [] u = omega arith
  value-ge (c ∷ s) u = elim (Option-cases (xdigit c)) [
    | inl e ↦ omega (arith, value-stop c u s e)
    | inr (v, e) ↦ omega (arith, value-digit c v u s e, le-times u v, value-ge s (u * base + v))
  ]

  first_fit_self :
      (tp : IntType) (u : ℕ) → u ≤ mx tp → first_fit arch mx base unsig 7 tp u ≡ (tp, true)
  first_fit_self tp u h = let y : leb u (mx tp) ≡ true = ground arith in rw y

  -- The loop after a digit, by the type that the number so far fits in.
  after_digit :
      (tp : IntType) (u' : ℕ) (s : List ℕ) (p : IntType × Bool)
      → first_fit arch mx base unsig 7 tp u' ≡ p
      → ((t : IntType)
          → u' ≤ mx t
          → read_digits arch base unsig t u' s
            ≡ ok (answer (value base u' s) (first_fit arch mx base unsig 7 t (value base u' s))))
      → (if p.1 then read_digits arch base unsig p.0 (u' % 2 ^ 64) s else ok (overflow p.0))
        ≡ ok (answer (value base u' s) (first_fit arch mx base unsig 7 tp (value base u' s)))
  after_digit tp u' s (t, true) e ih =
      let l = first_fit-le 7 tp t u' e in
      let whole : u' % 2 ^ 64 ≡ u' = omega (arith, k.upper t, l) in
      let later =
        first_fit_larger arch mx base unsig 7 7 tp t u' (value base u' s) (value-ge s u') e
          (omega arith) (omega arith) in
      rw whole (ih t l) ∙ ap (λ p. ok (answer (value base u' s) p)) (sym later)
  after_digit tp u' s (t, false) e ih =
      ap (λ p. ok (answer (value base u' s) p))
        (sym (first_fit_none arch mx base unsig 7 tp t u' (value base u' s) (value-ge s u') e))

  read_digits-first_fit :
      (s : List ℕ) (tp : IntType) (u : ℕ)
      → u ≤ mx tp
      → read_digits arch base unsig tp u s
        ≡ ok (answer (value base u s) (first_fit arch mx base unsig 7 tp (value base u s)))
  unfolding read_digits
  read_digits-first_fit [] tp u h = ap (λ p. ok (answer u p)) (sym (first_fit_self tp u h))
  read_digits-first_fit (c ∷ s) tp u h = elim (Option-cases (xdigit c)) [
    | inl e ↦
        read-stop tp c u s e
        ∙ ap (λ p. ok (answer u p)) (sym (first_fit_self tp u h))
        ∙ ap (λ v. ok (answer v (first_fit arch mx base unsig 7 tp v))) (sym (value-stop c u s e))
    | inr (v, e) ↦
        let u' = u * base + v in
        read-digit tp c v u s e
        ∙ ap
            (λ m. m >>= λ p.
              if p.1 then read_digits arch base unsig p.0 (u' % 2 ^ 64) s else ok (overflow p.0))
            (settle-first_fit 7 tp u v (xdigit-le c v e) (omega arith))
        ∙ after_digit tp u' s _ refl (λ t l. read_digits-first_fit s t u' l)
        ∙ ap (λ w. ok (answer w (first_fit arch mx base unsig 7 tp w)))
            (sym (value-digit c v u s e))
  ]

  pub readint-first_fit :
      (tp : IntType) (s : List ℕ)
      → let v = value base 0 (skip_x (skip_zero s)) in
        readint arch base unsig tp s ≡ ok (answer v (first_fit arch mx base unsig 7 tp v))
  unfolding readint
  readint-first_fit tp s = read_digits-first_fit (skip_x (skip_zero s)) tp 0 (omega arith)
