-- ===== src/Cc1/Lex/Integer/Tried.antt =====
-- The types that `readint` tries, by the base and the suffix of a constant.
use mathlib.Core.Path.{subst}
use simple_scc.Common.{
  ℕ, zero, suc, ◌<◌, ◌≡◌, refl, sym, ap, ◌∙◌, arith, Bool, true, false, List, [], ◌∷◌, none, some,
  length, leb, ◌==◌, if◌then◌else◌, Bool-cases, inl, inr,
}
use simple_scc.Common.Ub.{ok}
use simple_scc.Cc1.Types.{Ctype}
use simple_scc.Cc1.Lex.Integer.{
  IntType, inttype, uinttype, longtype, ulongtype, llongtype, ullongtype, Constant, constant,
  overflow, signed_next, unsigned_next, next_type, Width, plain, long, llong, int_ctype, readint,
  skip_zero, skip_x,
}
use simple_scc.Cc1.Lex.Integer.Fits.{HasMax, is_signed, value, first_fit, answer, readint-first_fit}

-- The types for a constant, the first one first, by whether it is decimal, whether it has a U, and its
-- Ls. It is the table of the C standard, less unsigned long long for a constant without a U.
abbrev pub tried : Bool → Bool → Width → List IntType
tried decimal true plain = uinttype ∷ ulongtype ∷ ullongtype ∷ []
tried decimal true long = ulongtype ∷ ullongtype ∷ []
tried decimal true llong = ullongtype ∷ []
tried true false plain = inttype ∷ longtype ∷ llongtype ∷ []
tried true false long = longtype ∷ llongtype ∷ []
tried false false plain = inttype ∷ uinttype ∷ longtype ∷ ulongtype ∷ llongtype ∷ []
tried false false long = longtype ∷ ulongtype ∷ llongtype ∷ []
tried decimal false llong = llongtype ∷ []

-- The constant in the first of the types that holds it; an overflow at the last one where none does,
-- at `last` if there are no types.
abbrev pub choose : (IntType → ℕ) → IntType → List IntType → ℕ → Constant
choose mx last [] v = overflow last
choose mx last (tp ∷ tps) v = if leb v (mx tp) then constant tp v else choose mx tp tps v

module _ (arch : IntType → Ctype) (mx : IntType → ℕ) (base : ℕ) (unsig : Bool) where
  -- The code goes from `tp` through the types of a list, and no further.
  abbrev IsChain : Bool → IntType → List IntType → Type 0
  IsChain d tp [] = next_type arch d unsig tp ≡ none
  IsChain d tp (t ∷ ts) = (next_type arch d unsig tp ≡ some t) × IsChain d t ts

  first_fit-choose :
      (n : ℕ) (l tp : IntType) (ts : List IntType) (v : ℕ)
      → length ts < n
      → IsChain (base == 10) tp ts
      → answer v (first_fit arch mx base unsig n tp v) ≡ choose mx l (tp ∷ ts) v
  first_fit-choose zero l tp ts v h c = absurd (omega arith)
  first_fit-choose (suc n) l tp [] v h c = elim (Bool-cases (leb v (mx tp))) [
    | inl e ↦ rw (c, e) refl
    | inr e ↦ rw (c, e) refl
  ]
  first_fit-choose (suc n) l tp (t ∷ ts) v h (c, cs) = elim (Bool-cases (leb v (mx tp))) [
    | inl e ↦ rw (c, e) refl
    | inr e ↦ rw (c, e) (first_fit-choose n tp t ts v (omega arith) cs)
  ]

module _ (arch : IntType → Ctype) (mx : IntType → ℕ) (k : HasMax arch mx) (base : ℕ) where
  next_type-sign :
      (d unsig : Bool) (tp : IntType)
      → next_type arch d unsig tp
        ≡ (if is_signed tp then signed_next d tp else unsigned_next unsig tp)
  unfolding next_type
  next_type-sign d unsig tp = rw (k.signs tp) refl

  first_fit-run :
      (unsig d : Bool) (tp : IntType) (ts : List IntType) (v : ℕ)
      → (base == 10) ≡ d
      → length ts < 7
      → IsChain arch mx base unsig d tp ts
      → answer v (first_fit arch mx base unsig 7 tp v) ≡ choose mx tp (tp ∷ ts) v
  first_fit-run unsig d tp ts v e h c =
      first_fit-choose arch mx base unsig 7 tp tp ts v h
        (subst (λ x. IsChain arch mx base unsig x tp ts) (sym e) c)

  first_fit-tried :
      (unsig d : Bool) (w : Width) (v : ℕ)
      → (base == 10) ≡ d
      → answer v (first_fit arch mx base unsig 7 (int_ctype unsig w) v)
        ≡ choose mx (int_ctype unsig w) (tried d unsig w) v
  unfolding int_ctype signed_next unsigned_next
  first_fit-tried true d plain v e =
      first_fit-run true d uinttype (ulongtype ∷ ullongtype ∷ []) v e (omega arith) (
        next_type-sign d true uinttype,
        (next_type-sign d true ulongtype, next_type-sign d true ullongtype),
      )
  first_fit-tried true d long v e =
      first_fit-run true d ulongtype (ullongtype ∷ []) v e (omega arith)
        (next_type-sign d true ulongtype, next_type-sign d true ullongtype)
  first_fit-tried true d llong v e =
      first_fit-run true d ullongtype [] v e (omega arith) (next_type-sign d true ullongtype)
  first_fit-tried false true plain v e =
      first_fit-run false true inttype (longtype ∷ llongtype ∷ []) v e (omega arith) (
        next_type-sign true false inttype,
        (next_type-sign true false longtype, next_type-sign true false llongtype),
      )
  first_fit-tried false true long v e =
      first_fit-run false true longtype (llongtype ∷ []) v e (omega arith)
        (next_type-sign true false longtype, next_type-sign true false llongtype)
  first_fit-tried false false plain v e =
      first_fit-run false false inttype (uinttype ∷ longtype ∷ ulongtype ∷ llongtype ∷ []) v e
        (omega arith)
        (
          next_type-sign false false inttype,
          (
            next_type-sign false false uinttype,
            (
              next_type-sign false false longtype,
              (next_type-sign false false ulongtype, next_type-sign false false llongtype),
            ),
          ),
        )
  first_fit-tried false false long v e =
      first_fit-run false false longtype (ulongtype ∷ llongtype ∷ []) v e (omega arith) (
        next_type-sign false false longtype,
        (next_type-sign false false ulongtype, next_type-sign false false llongtype),
      )
  first_fit-tried false d llong v e =
      first_fit-run false d llongtype [] v e (omega arith) (next_type-sign d false llongtype)

  -- `readint` gives the number that the digits write, behind the prefix, the first type that holds it of
  -- the types for its base and suffix. For a constant with a U they are unsigned int, unsigned long and
  -- unsigned long long, for another decimal one int, long and long long, and for any other one int,
  -- unsigned int, long, unsigned long and long long, in this order and from the type of the suffix on.
  -- Where none of them holds the number, it reports an overflow, at the last of them. The base is not 0,
  -- and the types have their signs and limits between 16 and 2 ^ 64 - 1.
  pub readint_lem :
      0 < base
      → (unsig : Bool) (w : Width) (s : List ℕ)
      → let v = value base 0 (skip_x (skip_zero s)) in
        readint arch base unsig (int_ctype unsig w) s
        ≡ ok (choose mx (int_ctype unsig w) (tried (base == 10) unsig w) v)
  readint_lem b unsig w s =
      readint-first_fit arch mx k base unsig b (int_ctype unsig w) s
      ∙ ap ok (first_fit-tried unsig (base == 10) w (value base 0 (skip_x (skip_zero s))) refl)
