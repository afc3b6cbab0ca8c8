-- ===== src/Libc/Strto.antt =====
-- strtol, strtoll and strtoimax, strtoul, strtoull and strtoumax, and `_dtoi` of src/libc. The six
-- functions are two texts, each with three types of 64 bits.
pub mod Exact
pub mod Value
mod Tests
use simple_scc.Common.{
  ℕ, zero, suc, ◌+◌, ◌-◌, ◌*◌, ◌/◌, ◌%◌, ◌^◌, Bool, true, false, ◌&&◌, ◌||◌, Option, none, some,
  List, [], ◌∷◌, ltb, leb, ◌==◌, if◌then◌else◌,
}
use simple_scc.Common.Int.{ℤ, pos, neg}
use simple_scc.Common.Ub.{Ub, ok, undefined, ◌>>=◌}

-- `isspace` and `toupper` in the C locale.
unfoldable pub is_space : ℕ → Bool
is_space c = c == 0x20 || leb 9 c && leb c 13

unfoldable pub to_upper : ℕ → ℕ
to_upper c = if leb b'a' c && leb c b'z' then c - 32 else c

-- The place in "0123456789ABCDEFGHIJKLMNOPQRSTUVWXYZ" and its terminator, else INT_MAX.
unfoldable pub dtoi : ℕ → ℕ
unfolding to_upper
dtoi c =
    let u = to_upper c in
    if u == 0
    then 36
    else if leb b'0' u && leb u b'9'
    then u - b'0'
    else if leb b'A' u && leb u b'Z'
    then u - b'A' + 10
    else 2 ^ 31 - 1

-- The end of the loop over the digits: the number and how many characters were read, or an overflow
-- after so many.
pub data Digits : Type 0 where
  done : ℕ → ℕ → Digits
  overflow : ℕ → Digits

-- The loop of `strtoul`: `n` so far, after `i` characters.
unfoldable pub unsigned_loop : ℕ → ℕ → ℕ → List ℕ → Ub Digits
unsigned_loop base n i [] = undefined
unsigned_loop base n i (c ∷ t) =
    let d = dtoi c in
    let more = unsigned_loop base (n * base + d) (suc i) t in
    if leb base d
    then ok (done n i)
    else if ltb ((2 ^ 64 - 1) / base) n
    then ok (overflow i)
    else if ltb (2 ^ 64 - 1 - n * base) d
    then ok (overflow i)
    else more

-- The loop of `strtol`. Its `n` is never positive, and is held here as its negation; `LONG_MIN` is
-- held as 2 ^ 63. `negative` says that a minus sign was read.
unfoldable pub signed_loop : Bool → ℕ → ℕ → ℕ → List ℕ → Ub Digits
signed_loop negative base n i [] = undefined
signed_loop negative base n i (c ∷ t) =
    let d = dtoi c in
    let n' = n * base + d in
    let more = signed_loop negative base n' (suc i) t in
    if leb base d
    then ok (done n i)
    else if ltb (2 ^ 63 / base) n
    then ok (overflow i)
    else if ltb (2 ^ 63 - n * base) d
    then ok (overflow i)
    else if (if negative then false else n' == 2 ^ 63)
    then ok (overflow i)
    else more

-- What stands before the digits: how many characters it has, the sign, the base and the rest.
pub record Prefix : Type 0 where
  pub skipped : ℕ
  pub negative : Bool
  pub base : ℕ
  pub digits : List ℕ

skip_space : ℕ → List ℕ → Ub (ℕ × List ℕ)
skip_space i [] = undefined
skip_space i (c ∷ s) = let more = skip_space (suc i) s in if is_space c then more else ok (i, c ∷ s)

read_sign : ℕ × List ℕ → Ub (ℕ × Bool × List ℕ)
read_sign (i, []) = undefined
read_sign (i, c ∷ s) =
    if c == b'-'
    then ok (suc i, true, s)
    else if c == b'+'
    then ok (suc i, false, s)
    else ok (i, false, c ∷ s)

-- `toupper(s[1]) == 'X'`
second_is_x : List ℕ → Ub Bool
second_is_x (a ∷ b ∷ s) = ok (to_upper b == b'X')
second_is_x _ = undefined

find_base : ℕ → List ℕ → Ub ℕ
find_base base [] = undefined
find_base base (c ∷ s) =
    if base == 0
    then (if c == b'0' then (do x ← second_is_x (c ∷ s); ok (if x then 16 else 8)) else ok 10)
    else ok base

skip_hex : ℕ → ℕ → List ℕ → Ub (ℕ × List ℕ)
skip_hex base i (c ∷ d ∷ s) =
    if base == 16 && c == b'0' && to_upper d == b'X' then ok (suc (suc i), s) else ok (i, c ∷ d ∷ s)
skip_hex base i (c ∷ []) = if base == 16 && c == b'0' then undefined else ok (i, c ∷ [])
skip_hex base i [] = undefined

unfoldable pub read_prefix : ℕ → List ℕ → Ub Prefix
unfolding skip_space read_sign find_base skip_hex second_is_x is_space to_upper
read_prefix base s = do
  p ← skip_space 0 s
  q ← read_sign p
  b ← find_base base q.2
  r ← skip_hex b q.0 q.2
  ok (record { skipped = r.0; negative = q.1; base = b; digits = r.1 })

-- The value returned, how far `*end` is from `ptr`, and whether `errno` was set to ERANGE.
pub record Result (A : Type 0) : Type 0 where
  pub value : A
  pub stop : ℕ
  pub erange : Bool

-- `*end` is left at `ptr` if there was no digit.
unfoldable pub stop_at : ℕ → ℕ → ℕ
stop_at skipped i = if i == 0 then 0 else skipped + i

signed_result : Prefix → Digits → Result ℤ
signed_result p (done n i) = record {
  value = if p.negative then neg n else pos n;
  stop = stop_at p.skipped i;
  erange = false;
}
signed_result p (overflow i) = record {
  value = if p.negative then neg (2 ^ 63) else pos (2 ^ 63 - 1);
  stop = p.skipped + i;
  erange = true;
}

unsigned_result : Prefix → Digits → Result ℕ
unsigned_result p (done n i) = record {
  value = if p.negative then (2 ^ 64 - n) % 2 ^ 64 else n;
  stop = stop_at p.skipped i;
  erange = false;
}
unsigned_result p (overflow i) = record { value = 2 ^ 64 - 1; stop = p.skipped + i; erange = true }

unfoldable pub strtol : ℕ → List ℕ → Ub (Result ℤ)
unfolding signed_result stop_at
strtol base s = do
  p ← read_prefix base s
  d ← signed_loop p.negative p.base 0 0 p.digits
  ok (signed_result p d)

unfoldable pub strtoul : ℕ → List ℕ → Ub (Result ℕ)
unfolding unsigned_result stop_at
strtoul base s = do
  p ← read_prefix base s
  d ← unsigned_loop p.base 0 0 p.digits
  ok (unsigned_result p d)

-- `long long`, `intmax_t` and their unsigned types have 64 bits too.
unfoldable pub strtoll : ℕ → List ℕ → Ub (Result ℤ)
strtoll = strtol

unfoldable pub strtoimax : ℕ → List ℕ → Ub (Result ℤ)
strtoimax = strtol

unfoldable pub strtoull : ℕ → List ℕ → Ub (Result ℕ)
strtoull = strtoul

unfoldable pub strtoumax : ℕ → List ℕ → Ub (Result ℕ)
strtoumax = strtoul
