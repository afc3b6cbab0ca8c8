-- ===== src/Libc/Wchar/Ascii.antt =====
-- What is left of the encoding with `_validutf8` as it is: the characters below 0x80.
use simple_scc.Common.{
  ℕ, zero, suc, ◌+◌, ◌-◌, ◌*◌, ◌/◌, ◌%◌, ◌^◌, ◌<◌, ◌≤◌, ◌≡◌, ◌≢◌, refl, arith, bit_and, bit_or,
  true, List, [], ◌∷◌, Option, none, some, ltb, if◌then◌else◌, ◌∙◌, ap,
}
use simple_scc.Common.Bits.{bit_and-top}
use simple_scc.Common.Ub.{Ub, ok, undefined, ◌>>=◌}
use simple_scc.Libc.Wchar.{
  validutf8, ranges, skip, wcrtomb, mbrtowc, count_ones, join, checked, spread, answer,
}

-- `_validutf8` stops at the first range where it should go on: a character below 0x80 is said to have
-- two bytes, and every other character is said to be valid and to have one.
pub validutf8_lem : (wc : ℕ) → validutf8 wc ≡ ok (true, if ltb wc 0x80 then 2 else 1)
unfolding validutf8 skip ranges
validutf8_lem wc = ground arith

count_ones_le : (n len c : ℕ) → len ≤ (count_ones n len c).1
unfolding count_ones
count_ones_le zero len c = omega arith
count_ones_le (suc n) len c = ground (arith, count_ones_le n (suc len) (c * 2 % 2 ^ 32))

count_ones-zero :
    (n len c : ℕ) → c < 256 → (count_ones n len c).0 ≢ 0 → (count_ones n len c).1 ≡ len → c < 0x80
unfolding count_ones
count_ones-zero zero len c h p e = absurd (p refl)
count_ones-zero (suc n) len c h p e =
    ground (arith, bit_and-top c h, count_ones_le n (suc len) (c * 2 % 2 ^ 32))

checked-ascii :
    (first len : ℕ) (found : Option ℕ) (wc used : ℕ)
    → 2 ≤ len
    → checked first len found ≡ ok (some (wc, used))
    → wc < 0x80
unfolding checked answer
checked-ascii first len none wc used l e = ground arith
checked-ascii first len (some c) wc used l e = ground (arith, validutf8_lem c)

joined-ascii :
    (first len : ℕ) (found : Ub (Option ℕ)) (wc used : ℕ)
    → 2 ≤ len
    → (found >>= checked first len) ≡ ok (some (wc, used))
    → wc < 0x80
joined-ascii first len (ok m) wc used l e = checked-ascii first len m wc used l e
joined-ascii first len undefined wc used l e = cc

-- What `mbrtowc` reads is below 0x80, whatever the bytes.
pub mbrtowc-ascii :
    (first n wc used : ℕ) (s : List ℕ)
    → first < 256
    → mbrtowc (first ∷ s) n ≡ ok (some (wc, used))
    → wc < 0x80
unfolding mbrtowc answer
mbrtowc-ascii first n wc used s h e =
    let (left, len, c) = count_ones n 0 first in
    ground (
      arith,
      count_ones-zero n 0 first h,
      joined-ascii first len (join (len - 1) (bit_and c 0xFF / 2 ^ len) s) wc used,
    )

wcrtomb-ascii :
    (wc : ℕ)
    → wc < 0x80
    → wcrtomb wc ≡ ok (some (bit_or 0x80 (wc / 64) % 256 ∷ bit_or 0x80 (bit_and wc 0x3f) ∷ []))
unfolding wcrtomb spread
wcrtomb-ascii wc h = ground (arith, validutf8_lem wc)

lone_byte : (n c : ℕ) (s : List ℕ) → c < 2 → mbrtowc ((0x80 + c) ∷ s) n ≡ ok none
unfolding mbrtowc count_ones
lone_byte zero zero s h = refl
lone_byte (suc zero) zero s h = refl
lone_byte (suc (suc n)) zero s h = ground arith
lone_byte zero (suc zero) s h = refl
lone_byte (suc zero) (suc zero) s h = refl
lone_byte (suc (suc n)) (suc zero) s h = ground arith
lone_byte n (suc (suc c)) s h = absurd (omega arith)

top_of_byte : (c : ℕ) → c < 2 → bit_or 0x80 c % 256 ≡ 0x80 + c
top_of_byte zero h = refl
top_of_byte (suc zero) h = refl
top_of_byte (suc (suc c)) h = absurd (omega arith)

ascii-wcrtomb :
    (wc : ℕ)
    → wc < 0x80
    → wcrtomb wc ≡ ok (some ((0x80 + wc / 64) ∷ bit_or 0x80 (bit_and wc 0x3f) ∷ []))
ascii-wcrtomb wc h =
    wcrtomb-ascii wc h
    ∙ ap (λ b. ok (some (b ∷ bit_or 0x80 (bit_and wc 0x3f) ∷ [])))
        (top_of_byte (wc / 64) (omega arith))

-- What `wcrtomb` writes for a character below 0x80 is refused by `mbrtowc`, for every `n`.
pub mbrtowc-wcrtomb :
    (wc n : ℕ) → wc < 0x80 → (s : List ℕ) × (wcrtomb wc ≡ ok (some s)) × (mbrtowc s n ≡ ok none)
mbrtowc-wcrtomb wc n h = (_, ascii-wcrtomb wc h, lone_byte n (wc / 64) _ (omega arith))
