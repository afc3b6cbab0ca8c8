-- ===== src/Cc1/Lex/Integer/Tests.antt =====
-- Constants on amd64.
use simple_scc.Common.{ℕ, ◌-◌, ◌^◌, ◌<◌, ◌≤◌, ◌≡◌, refl, arith, false, List, [], ◌∷◌, some, none}
use simple_scc.Common.Ub.{ok}
use simple_scc.Cc1.Types.{Limits, getlimits}
use simple_scc.Cc1.Lex.Integer.Fits.{HasMax, is_signed, value}
use simple_scc.Cc1.Lex.Integer.Tried.{choose, tried, readint_lem}
use simple_scc.Cc1.Lex.Integer.{
  IntType, inttype, uinttype, longtype, ulongtype, llongtype, ullongtype, amd64, constant, overflow,
  readint, int_ctype, plain, number, skip_x, skip_zero,
}

forty_two : number amd64 (b'4' ∷ b'2' ∷ []) ≡ ok (some (constant inttype 42))
unfolding number getlimits amd64
forty_two = refl

-- 0xFFFFFFFF is unsigned, 4294967295 is a long, and 017UL; is an unsigned long.
hexadecimal :
    number amd64 (b'0' ∷ b'x' ∷ b'F' ∷ b'F' ∷ b'F' ∷ b'F' ∷ b'F' ∷ b'F' ∷ b'F' ∷ b'F' ∷ [])
    ≡ ok (some (constant uinttype 0xFFFFFFFF))
unfolding number getlimits amd64
hexadecimal = refl

decimal :
    number amd64 (b'4' ∷ b'2' ∷ b'9' ∷ b'4' ∷ b'9' ∷ b'6' ∷ b'7' ∷ b'2' ∷ b'9' ∷ b'5' ∷ [])
    ≡ ok (some (constant longtype 4294967295))
unfolding number getlimits amd64
decimal = refl

octal :
    number amd64 (b'0' ∷ b'1' ∷ b'7' ∷ b'U' ∷ b'L' ∷ b';' ∷ []) ≡ ok (some (constant ulongtype 15))
unfolding number getlimits amd64
octal = refl

invalid : number amd64 (b'1' ∷ b'U' ∷ b'U' ∷ []) ≡ ok none
unfolding number
invalid = refl

largest : IntType → ℕ
largest inttype = 2 ^ 31 - 1
largest uinttype = 2 ^ 32 - 1
largest longtype = 2 ^ 63 - 1
largest ulongtype = 2 ^ 64 - 1
largest llongtype = 2 ^ 63 - 1
largest ullongtype = 2 ^ 64 - 1

amd64-limits :
    (tp : IntType) → (lim : Limits) × (getlimits (amd64 tp) ≡ ok lim) × (lim.max ≡ largest tp)
unfolding amd64 getlimits largest
amd64-limits inttype = (record { max = 0x7fff_ffff; min = 2 ^ 64 - 0x8000_0000 }, refl, refl)
amd64-limits uinttype = (record { max = 0xffff_ffff; min = 0 }, refl, refl)
amd64-limits longtype =
    (record { max = 0x7fff_ffff_ffff_ffff; min = 2 ^ 64 - 0x8000_0000_0000_0000 }, refl, refl)
amd64-limits ulongtype = (record { max = 0xffff_ffff_ffff_ffff; min = 0 }, refl, refl)
amd64-limits llongtype =
    (record { max = 0x7fff_ffff_ffff_ffff; min = 2 ^ 64 - 0x8000_0000_0000_0000 }, refl, refl)
amd64-limits ullongtype = (record { max = 0xffff_ffff_ffff_ffff; min = 0 }, refl, refl)

amd64-range : (tp : IntType) → (16 ≤ largest tp) × (largest tp < 2 ^ 64)
unfolding largest
amd64-range inttype = omega arith
amd64-range uinttype = omega arith
amd64-range longtype = omega arith
amd64-range ulongtype = omega arith
amd64-range llongtype = omega arith
amd64-range ullongtype = omega arith

amd64-signs : (tp : IntType) → (amd64 tp).signed ≡ is_signed tp
unfolding amd64
amd64-signs inttype = refl
amd64-signs uinttype = refl
amd64-signs longtype = refl
amd64-signs ulongtype = refl
amd64-signs llongtype = refl
amd64-signs ullongtype = refl

amd64-HasMax : HasMax amd64 largest
amd64-HasMax = record {
  signs = amd64-signs;
  limits = amd64-limits;
  lower = λ tp. (amd64-range tp).0;
  upper = λ tp. (amd64-range tp).1;
}

-- 16 digits F in front of a text.
abbrev sixteen_f : List ℕ → List ℕ
sixteen_f s =
    b'F' ∷ b'F' ∷ b'F' ∷ b'F' ∷ b'F' ∷ b'F' ∷ b'F' ∷ b'F' ∷ b'F' ∷ b'F' ∷ b'F' ∷ b'F' ∷ b'F' ∷ b'F'
    ∷ b'F' ∷ b'F' ∷ s

abbrev text : List ℕ
text = b'0' ∷ b'x' ∷ b'8' ∷ b'0' ∷ b'0' ∷ b'0' ∷ b'0' ∷ b'0' ∷ b'0' ∷ b'0' ∷ []

readint_example :
    let v = value 16 0 (skip_x (skip_zero text)) in
    readint amd64 16 false (int_ctype false plain) text
    ≡ ok (choose largest (int_ctype false plain) (tried false false plain) v)
readint_example = readint_lem amd64 largest amd64-HasMax 16 (omega arith) false plain text

-- Without an LL the constant is an unsigned long.
too_large :
    number amd64 (b'0' ∷ b'x' ∷ sixteen_f (b'L' ∷ b'L' ∷ [])) ≡ ok (some (overflow llongtype))
unfolding number getlimits amd64
too_large = refl

large_unsigned :
    number amd64 (b'0' ∷ b'x' ∷ sixteen_f []) ≡ ok (some (constant ulongtype (2 ^ 64 - 1)))
unfolding number getlimits amd64
large_unsigned = refl
