-- ===== src/Cc1/Lex/Integer.antt =====
-- Integer constants: `readint`, `integer`, `digits` and `number` of src/cmd/cc/cc1/lex.c, and `ctype` of
-- types.c for their suffixes. A text is the list of its characters, without a terminator.
pub mod Fits
pub mod Tried
mod Tests
use simple_scc.Common.{
  ℕ, zero, suc, ◌+◌, ◌-◌, ◌*◌, ◌/◌, ◌%◌, ◌^◌, Bool, true, false, not, ◌&&◌, ◌||◌, List, [], ◌∷◌,
  ◌++◌, Option, none, some, ltb, leb, ◌==◌, if◌then◌else◌,
}
use simple_scc.Common.Ub.{Ub, ok, undefined, ◌>>=◌}
use simple_scc.Cc1.Types.{Ctype, TypeOp, Limits, getlimits}

-- inttype, uinttype, longtype, ulongtype, llongtype and ullongtype.
pub data IntType : Type 0 where
  inttype uinttype longtype ulongtype llongtype ullongtype : IntType

-- The types of an architecture; here those of amd64-sysv.c.
unfoldable pub amd64 : IntType → Ctype
amd64 inttype = record { op = TypeOp.int; signed = true; size = 4; id = 0 }
amd64 uinttype = record { op = TypeOp.int; signed = false; size = 4; id = 1 }
amd64 longtype = record { op = TypeOp.int; signed = true; size = 8; id = 2 }
amd64 ulongtype = record { op = TypeOp.int; signed = false; size = 8; id = 3 }
amd64 llongtype = record { op = TypeOp.int; signed = true; size = 8; id = 4 }
amd64 ullongtype = record { op = TypeOp.int; signed = false; size = 8; id = 5 }

-- The position of a hexadecimal digit in `letters`, `none` for any other character.
unfoldable pub xdigit : ℕ → Option ℕ
xdigit c =
    if leb b'0' c && leb c b'9'
    then some (c - b'0')
    else if leb b'a' c && leb c b'f'
    then some (c - b'a' + 10)
    else if leb b'A' c && leb c b'F'
    then some (c - b'A' + 10)
    else none

-- The next type that `readint` tries; `decimal` is base == 10, `unsig` is sign == UNSIGNED.
unfoldable pub signed_next : Bool → IntType → Option IntType
signed_next decimal inttype = some (if decimal then longtype else uinttype)
signed_next decimal longtype = some (if decimal then llongtype else ulongtype)
signed_next decimal _ = none

unfoldable pub unsigned_next : Bool → IntType → Option IntType
unsigned_next unsig uinttype = some (if unsig then ulongtype else longtype)
unsigned_next unsig ulongtype = some (if unsig then ullongtype else llongtype)
unsigned_next unsig _ = none

unfoldable pub next_type : (IntType → Ctype) → Bool → Bool → IntType → Option IntType
unfolding signed_next unsigned_next
next_type arch decimal unsig tp =
    if (arch tp).signed then signed_next decimal tp else unsigned_next unsig tp

-- What is done with the next type, and what without one.
abbrev pub at_next {ℓ} : {X : Type ℓ} → Option IntType → (IntType → X) → X → X
at_next none go stop = stop
at_next (some tp) go stop = go tp

-- A constant of a type, or the type at which the constant overflows.
pub data Constant : Type 0 where
  constant : IntType → ℕ → Constant
  overflow : IntType → Constant

unfoldable pub skip_zero : List ℕ → List ℕ
skip_zero [] = []
skip_zero (c ∷ s) = if c == b'0' then s else c ∷ s

unfoldable pub skip_x : List ℕ → List ℕ
skip_x [] = []
skip_x (c ∷ s) = if c == b'x' || c == b'X' then s else c ∷ s

module _ (arch : IntType → Ctype) (base : ℕ) (unsig : Bool) where
  unfoldable pub fits : IntType → ℕ → ℕ → Ub Bool
  fits tp u val = do
    lim ← getlimits (arch tp)
    ok (leb u (lim.max / base) && leb (u * base) ((lim.max + 2 ^ 64 - val) % 2 ^ 64))

  -- The jumps to `repeat`, `n` of them at most: the type in which the next number fits, `none` where
  -- there is no further one.
  unfoldable pub settle : ℕ → IntType → ℕ → ℕ → Ub (IntType × Bool)
  unfolding fits next_type
  settle zero tp u val = undefined
  settle (suc n) tp u val = do
    yes_fits ← fits tp u val
    let more =
        at_next (next_type arch (base == 10) unsig tp) (λ tp'. settle n tp' u val) (ok (tp, false))
    if yes_fits then ok (tp, true) else more

  -- The loop over the digits.
  unfoldable pub read_digits : IntType → ℕ → List ℕ → Ub Constant
  unfolding settle xdigit
  read_digits tp u [] = ok (constant tp u)
  read_digits tp u (c ∷ s) = elim (xdigit c) [
    | none ↦ ok (constant tp u)
    | some val ↦ do
      (tp', found) ← settle 7 tp u val
      let more = read_digits tp' ((u * base + val) % 2 ^ 64) s
      if found then more else ok (overflow tp')
  ]

  -- The two tests before the loop step over a 0 and an x.
  unfoldable pub readint : IntType → List ℕ → Ub Constant
  unfolding read_digits skip_zero skip_x
  readint tp s = read_digits tp 0 (skip_x (skip_zero s))

-- The sizes of a suffix: none, LONG and LLONG.
pub data Width : Type 0 where
  plain long llong : Width

-- What the loop of `integer` reads: the suffix, and what it says; `none` for an invalid one.
pub record Suffix : Type 0 where
  pub text : List ℕ
  pub width : Width
  pub unsig : Bool

unfoldable pub behind : ℕ → Option Suffix → Option Suffix
behind c none = none
behind c (some x) = some (record x { text = c ∷ x.text })

-- An L goes on by the width so far, given what follows with LONG and with LLONG.
unfoldable pub lengthen : Width → Option Suffix → Option Suffix → Option Suffix
lengthen plain long_rest llong_rest = long_rest
lengthen long long_rest llong_rest = llong_rest
lengthen llong long_rest llong_rest = none

unfoldable pub suffix : List ℕ → Width → Bool → Option Suffix
unfolding behind lengthen
suffix [] w unsig = some (record { text = []; width = w; unsig = unsig })
suffix (c ∷ s) w unsig =
    let long_rest = suffix s long unsig in
    let llong_rest = suffix s llong unsig in
    let unsig_rest = suffix s w true in
    if c == b'l' || c == b'L'
    then behind c (lengthen w long_rest llong_rest)
    else if c == b'u' || c == b'U'
    then (if unsig then none else behind c unsig_rest)
    else some (record { text = []; width = w; unsig = unsig })

-- `ctype` for INT.
unfoldable pub int_ctype : Bool → Width → IntType
int_ctype unsig plain = if unsig then uinttype else inttype
int_ctype unsig long = if unsig then ulongtype else longtype
int_ctype unsig llong = if unsig then ullongtype else llongtype

unfoldable pub is_digit : ℕ → ℕ → Bool
unfolding xdigit
is_digit base c =
    if base == 8
    then leb b'0' c && leb c b'7'
    else if base == 10
    then leb b'0' c && leb c b'9'
    else elim (xdigit c) [ none ↦ false | some val ↦ true ]

-- `digits`: the digits of a base, and the text behind them.
unfoldable pub digits : ℕ → List ℕ → List ℕ × List ℕ
unfolding is_digit
digits base [] = ([], [])
digits base (c ∷ s) =
    let more = digits base s in if is_digit base c then (c ∷ more.0, more.1) else ([], c ∷ s)

-- What `number` reads before the digits, the base, and the text behind it.
unfoldable pub base_of : List ℕ → List ℕ × ℕ × List ℕ
base_of [] = ([], 10, [])
base_of (c ∷ []) = if c == b'0' then (c ∷ [], 8, []) else ([], 10, c ∷ [])
base_of (c ∷ x ∷ s) =
    if c == b'0'
    then (if x == b'x' || x == b'X' then (c ∷ x ∷ [], 16, s) else (c ∷ [], 8, x ∷ s))
    else ([], 10, c ∷ x ∷ s)

-- `number` and `integer`: the constant at the front of a text; `none` for an invalid suffix. The
-- token is the prefix, the digits and the suffix.
unfoldable pub number : (IntType → Ctype) → List ℕ → Ub (Option Constant)
unfolding base_of digits suffix int_ctype readint
number arch s =
    let (front, base, t) = base_of s in
    let (ds, rest) = digits base t in
    elim (suffix rest plain false) [
      | none ↦ ok none
      | some x ↦
          readint arch base x.unsig (int_ctype x.unsig x.width) (front ++ (ds ++ x.text)) >>= λ c.
          ok (some c)
    ]
