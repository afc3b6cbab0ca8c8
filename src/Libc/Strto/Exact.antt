-- ===== src/Libc/Strto/Exact.antt =====
-- The loops over the digits in strtol.c and strtoul.c beside the number that the digits write.
use simple_scc.Common.{
  ℕ, suc, ◌+◌, ◌-◌, ◌*◌, ◌/◌, ◌^◌, ◌<◌, ◌≤◌, ◌≡◌, arith, Bool, true, false, List, [], ◌∷◌, ◌++◌,
  length, ap, ◌∙◌, ltb, All,
}
use native.Mathlib.Nat.{div-lt_iff_lt-mul}
use native.Mathlib.Decide.{dec_lt}
use simple_scc.Common.Ub.{ok}
use simple_scc.Libc.Strto.{dtoi, done, overflow, unsigned_loop, signed_loop}

-- The number that digits write in a base, from an accumulator.
unfoldable pub number : ℕ → ℕ → List ℕ → ℕ
number base n [] = n
number base n (c ∷ ds) = number base (n * base + dtoi c) ds

le-mul : (n base : ℕ) → 0 < base → n ≤ n * base
le-mul n base h = grind arith

-- The test `n > MAX / base` by a product.
div_test : (m n base : ℕ) → 0 < base → ltb (m / base) n ≡ ltb m (n * base)
div_test m n base h =
    let (there, back) = div-lt_iff_lt-mul {k = base} {x = m} {y = n} h in
    ground (arith, there, back)

number-le : (base n : ℕ) (ds : List ℕ) → 0 < base → n ≤ number base n ds
unfolding number
number-le base n [] h = omega arith
number-le base n (c ∷ ds) h =
    omega (arith, le-mul n base h, number-le base (n * base + dtoi c) ds h)

-- The text ends the number: its first character is no digit of the base.
abbrev pub EndsNumber : ℕ → List ℕ → Type 0
EndsNumber base [] = ⊥
EndsNumber base (c ∷ s) = base ≤ dtoi c

abbrev pub DigitsOf : ℕ → List ℕ → Type 0
DigitsOf base ds = All (λ c. dtoi c < base) ds

-- One round of the loop of `strtoul`: the number ends, goes on, or does not fit.
unsigned_end :
    (base n i : ℕ) (rest : List ℕ)
    → EndsNumber base rest
    → unsigned_loop base n i rest ≡ ok (done n (i + 0))
unfolding unsigned_loop
unsigned_end base n i [] h = absurd h
unsigned_end base n i (c ∷ rest) h = ground arith

module _ (base n i c : ℕ) (t : List ℕ) (positive : 0 < base) (digit : dtoi c < base) where
  unsigned_next :
      n * base + dtoi c < 2 ^ 64
      → unsigned_loop base n i (c ∷ t) ≡ unsigned_loop base (n * base + dtoi c) (suc i) t
  unfolding unsigned_loop
  unsigned_next h = rw (div_test (2 ^ 64 - 1) n base positive) (ground arith)

  unsigned_stop : 2 ^ 64 ≤ n * base + dtoi c → unsigned_loop base n i (c ∷ t) ≡ ok (overflow i)
  unfolding unsigned_loop
  unsigned_stop h = rw (div_test (2 ^ 64 - 1) n base positive) (ground arith)

-- The numbers that `strtol` can return, by the sign: the negation may be one larger.
abbrev pub limit : Bool → ℕ
limit true = 2 ^ 63 + 1
limit false = 2 ^ 63

signed_end :
    (negative : Bool) (base n i : ℕ) (rest : List ℕ)
    → EndsNumber base rest
    → signed_loop negative base n i rest ≡ ok (done n (i + 0))
unfolding signed_loop
signed_end negative base n i [] h = absurd h
signed_end negative base n i (c ∷ rest) h = ground arith

module _ (negative : Bool) (base n i c : ℕ) (t : List ℕ) (positive : 0 < base)
    (digit : dtoi c < base) where
  signed_next :
      n * base + dtoi c < limit negative
      → signed_loop negative base n i (c ∷ t)
        ≡ signed_loop negative base (n * base + dtoi c) (suc i) t
  unfolding signed_loop
  signed_next h = rw (div_test (2 ^ 63) n base positive) (ground arith)

  signed_stop :
      limit negative ≤ n * base + dtoi c → signed_loop negative base n i (c ∷ t) ≡ ok (overflow i)
  unfolding signed_loop
  signed_stop h = rw (div_test (2 ^ 63) n base positive) (ground arith)

module _ (base : ℕ) (rest : List ℕ) (positive : 0 < base) (ends : EndsNumber base rest) where
  -- The loop of `strtoul` on digits behind which the number ends: with a number below 2 ^ 64 it
  -- returns that number and the count of the digits, with any other it stops with an overflow.
  pub unsigned_loop-number :
      (n i : ℕ) (ds : List ℕ)
      → DigitsOf base ds
      → number base n ds < 2 ^ 64
      → unsigned_loop base n i (ds ++ rest) ≡ ok (done (number base n ds) (i + length ds))
  unfolding number
  unsigned_loop-number n i [] hd fits = unsigned_end base n i rest ends
  unsigned_loop-number n i (c ∷ ds) hd fits =
      unsigned_next base n i c (ds ++ rest) positive hd.0
        (omega (arith, number-le base (n * base + dtoi c) ds positive))
      ∙ unsigned_loop-number (n * base + dtoi c) (suc i) ds hd.1 fits
      ∙ ap (λ k. ok (done (number base (n * base + dtoi c) ds) k)) (omega arith)

  pub unsigned_loop-overflow :
      (n i : ℕ) (ds : List ℕ)
      → n < 2 ^ 64
      → DigitsOf base ds
      → 2 ^ 64 ≤ number base n ds
      → (j : ℕ) × (unsigned_loop base n i (ds ++ rest) ≡ ok (overflow j))
  unfolding number
  unsigned_loop-overflow n i [] hn hd big = absurd (omega arith)
  unsigned_loop-overflow n i (c ∷ ds) hn hd big = elim (dec_lt (n * base + dtoi c) (2 ^ 64)) [
    | yes p ↦
        let (j, e) = unsigned_loop-overflow (n * base + dtoi c) (suc i) ds p hd.1 big in
        (j, unsigned_next base n i c (ds ++ rest) positive hd.0 p ∙ e)
    | no p ↦ (i, unsigned_stop base n i c (ds ++ rest) positive hd.0 (omega arith))
  ]

  -- The same of `strtol`: the number fits below `limit negative`.
  pub signed_loop-number :
      (negative : Bool) (n i : ℕ) (ds : List ℕ)
      → DigitsOf base ds
      → number base n ds < limit negative
      → signed_loop negative base n i (ds ++ rest) ≡ ok (done (number base n ds) (i + length ds))
  unfolding number
  signed_loop-number negative n i [] hd fits = signed_end negative base n i rest ends
  signed_loop-number negative n i (c ∷ ds) hd fits =
      signed_next negative base n i c (ds ++ rest) positive hd.0
        (omega (arith, number-le base (n * base + dtoi c) ds positive))
      ∙ signed_loop-number negative (n * base + dtoi c) (suc i) ds hd.1 fits
      ∙ ap (λ k. ok (done (number base (n * base + dtoi c) ds) k)) (omega arith)

  pub signed_loop-overflow :
      (negative : Bool) (n i : ℕ) (ds : List ℕ)
      → n < limit negative
      → DigitsOf base ds
      → limit negative ≤ number base n ds
      → (j : ℕ) × (signed_loop negative base n i (ds ++ rest) ≡ ok (overflow j))
  unfolding number
  signed_loop-overflow negative n i [] hn hd big = absurd (omega arith)
  signed_loop-overflow negative n i (c ∷ ds) hn hd big =
      elim (dec_lt (n * base + dtoi c) (limit negative)) [
        | yes p ↦
            let (j, e) = signed_loop-overflow negative (n * base + dtoi c) (suc i) ds p hd.1 big in
            (j, signed_next negative base n i c (ds ++ rest) positive hd.0 p ∙ e)
        | no p ↦ (i, signed_stop negative base n i c (ds ++ rest) positive hd.0 (omega arith))
      ]
