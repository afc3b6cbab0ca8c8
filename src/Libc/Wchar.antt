-- ===== src/Libc/Wchar.antt =====
-- Multibyte characters, src/libc/wchar: _validutf8.c, wcrtomb.c and mbrtowc.c. A wide character is a
-- number, not negative; the bytes that a pointer leads to are a list.
pub mod Ascii
mod Tests
use simple_scc.Common.{
  ℕ, zero, suc, ◌+◌, ◌-◌, ◌*◌, ◌/◌, ◌%◌, ◌^◌, bit_and, bit_or, Bool, true, false, not, ◌&&◌, ◌||◌,
  List, [], ◌∷◌, ◌++◌, Option, none, some, ltb, leb, ◌==◌, if◌then◌else◌,
}
use simple_scc.Common.Ub.{Ub, ok, undefined, ◌>>=◌}

pub record Range : Type 0 where
  pub begin : ℕ
  pub end : ℕ
  pub valid : Bool
  pub nbytes : ℕ

abbrev range : ℕ → ℕ → Bool → ℕ → Range
range b e v n = record { begin = b; end = e; valid = v; nbytes = n }

unfoldable pub ranges : List Range
ranges =
    range 0 0x80 true 1
    ∷ range 0x80 0x800 true 2
    ∷ range 0x800 0xD800 true 3
    ∷ range 0xD800 0xDD00 false 3
    ∷ range 0xDD00 0x10000 true 3
    ∷ range 0x10000 0x110000 true 4
    ∷ range 0x11000 (2 ^ 64 - 1) false 0
    ∷ []

-- The loop goes on while the character is in the range.
unfoldable pub skip : ℕ → List Range → Ub Range
skip wc [] = undefined
skip wc (r ∷ rs) = let later = skip wc rs in if leb r.begin wc && ltb wc r.end then later else ok r

-- `_validutf8`: whether the character is valid, and `*nbytes`.
unfoldable pub validutf8 : ℕ → Ub (Bool × ℕ)
unfolding skip ranges
validutf8 wc = do r ← skip wc ranges; ok (r.valid, r.nbytes)

-- The loop of `wcrtomb`, `n` rounds of it: the first byte, the bytes behind it, and what is left of
-- the character.
unfoldable pub spread : ℕ → ℕ → ℕ → List ℕ → ℕ × List ℕ × ℕ
spread zero first c tail = (first, tail, c)
spread (suc n) first c tail =
    spread n (bit_or (first / 2) 0x80) (c / 2 ^ 6) (bit_or 0x80 (bit_and c 0x3f) ∷ tail)

-- The bytes that are written, `none` for the answer -1 with EILSEQ.
unfoldable pub wcrtomb : ℕ → Ub (Option (List ℕ))
unfolding validutf8 spread
wcrtomb wc = do
  v ← validutf8 wc
  let (first, tail, c) = spread (v.1 - 1) 0 wc []
  ok (if v.0 then some (bit_or first c % 256 ∷ tail) else none)

-- for (len = 0; n > 0 && c & 0x80; --n, ++len): what is left of `n`, `len`, and `c`.
unfoldable pub count_ones : ℕ → ℕ → ℕ → ℕ × ℕ × ℕ
count_ones zero len c = (0, len, c)
count_ones (suc n) len c =
    let more = count_ones n (suc len) (c * 2 % 2 ^ 32) in
    if bit_and c 0x80 == 0 then (suc n, len, c) else more

-- The loop over `rounds` bytes behind the first; `none` if one of them is no byte of that kind.
unfoldable pub join : ℕ → ℕ → List ℕ → Ub (Option ℕ)
join zero wc s = ok (some wc)
join (suc rounds) wc [] = undefined
join (suc rounds) wc (c ∷ s) =
    let more = join rounds (bit_or (wc * 2 ^ 6 % 2 ^ 64) (bit_and c 0x3f)) s in
    if bit_and c 0xC0 == 0x80 then more else ok none

-- The end of `mbrtowc`: the character, and what is returned, 0 if the first byte is zero.
answer : ℕ → ℕ → ℕ → Option (ℕ × ℕ)
answer first wc used = some (wc, if first == 0 then 0 else used)

-- The call of `_validutf8` cuts a character to a wchar_t; one that does not fit was read from more than
-- two bytes, and is refused with or without the cut.
unfoldable pub checked : ℕ → ℕ → Option ℕ → Ub (Option (ℕ × ℕ))
unfolding answer
checked first len none = ok none
checked first len (some wc) = do
  v ← validutf8 wc
  ok (if not v.0 || not (len == v.1) then none else answer first wc len)

-- `some (wc, r)` where `*pwc` is set and r is returned, `none` for the answer -1.
unfoldable pub mbrtowc : List ℕ → ℕ → Ub (Option (ℕ × ℕ))
unfolding count_ones join checked answer
mbrtowc [] n = undefined
mbrtowc (first ∷ s) n =
    let (left, len, c) = count_ones n 0 first in
    let many = join (len - 1) (bit_and c 0xFF / 2 ^ len) s >>= checked first len in
    if left == 0 || len == 1 || len == 8
    then ok none
    else if len == 0
    then ok (answer first first 1)
    else many
