-- ===== src/Mach/Pack/Format.antt =====
-- The counts in a format: `isdigit` and `atoi` as pack.c and unpack.c use them, as documented by
-- the C standard.
use simple_scc.Common.{
  ℕ, ◌+◌, ◌-◌, ◌*◌, ◌^◌, ◌<◌, ◌≤◌, ◌≡◌, arith, Bool, true, false, ◌&&◌, ◌||◌, List, [], ◌∷◌, ◌++◌,
  leb, ltb, ◌==◌, if◌then◌else◌, All,
}
use simple_scc.Common.Int.{ℤ, pos, neg}
use simple_scc.Common.Ub.{Ub, ok, undefined}

unfoldable pub is_digit : ℕ → Bool
is_digit c = leb b'0' c && leb c b'9'

abbrev pub IsDigit : ℕ → Type 0
IsDigit c = (b'0' ≤ c) × (c ≤ b'9')

is_space : ℕ → Bool
is_space c = c == 0x20 || leb 9 c && leb c 13

-- The value of the digits in front, from an accumulator.
unfoldable pub digits_value : ℕ → List ℕ → ℕ
digits_value acc [] = acc
digits_value acc (c ∷ s) =
    let more = digits_value (acc * 10 + (c - b'0')) s in
    if leb b'0' c && leb c b'9' then more else acc

-- A value that is no int is undefined.
int_value : Bool → ℕ → Ub ℤ
int_value negative n = if ltb n (2 ^ 31) then ok (if negative then neg n else pos n) else undefined

signed_value : List ℕ → Ub ℤ
unfolding int_value
signed_value [] = ok (pos 0)
signed_value (c ∷ s) =
    if c == b'-'
    then int_value true (digits_value 0 s)
    else if c == b'+'
    then int_value false (digits_value 0 s)
    else int_value false (digits_value 0 (c ∷ s))

unfoldable pub atoi : List ℕ → Ub ℤ
unfolding signed_value is_space
atoi [] = ok (pos 0)
atoi (c ∷ s) = let rest = atoi s in if is_space c then rest else signed_value (c ∷ s)

-- A text that does not begin with a digit ends a number.
abbrev pub EndsNumber : List ℕ → Type 0
EndsNumber [] = Unit {0}
EndsNumber (c ∷ s) = is_digit c ≡ false

digits_value-append :
    (ds rest : List ℕ) (acc : ℕ)
    → All IsDigit ds
    → EndsNumber rest
    → digits_value acc (ds ++ rest) ≡ digits_value acc ds
unfolding digits_value is_digit
digits_value-append [] [] acc h e = ground arith
digits_value-append [] (c ∷ rest) acc h e = ground arith
digits_value-append (d ∷ ds) rest acc h e =
    ground (arith, digits_value-append ds rest (acc * 10 + (d - b'0')) h.1 e)

-- `atoi` on a number in digits.
pub atoi-digits :
    (d : ℕ) (ds rest : List ℕ)
    → All IsDigit (d ∷ ds)
    → EndsNumber rest
    → digits_value 0 (d ∷ ds) < 2 ^ 31
    → atoi (d ∷ ds ++ rest) ≡ ok (pos (digits_value 0 (d ∷ ds)))
unfolding atoi
atoi-digits d ds rest h e fits = ground (arith, digits_value-append (d ∷ ds) rest 0 h e)
