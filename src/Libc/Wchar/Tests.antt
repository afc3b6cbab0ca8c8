-- ===== src/Libc/Wchar/Tests.antt =====
-- Runs of `wcrtomb` and `mbrtowc`.
use simple_scc.Common.{ℕ, ◌<◌, ◌≡◌, refl, arith, List, [], ◌∷◌, some, none}
use simple_scc.Common.Ub.{ok}
use simple_scc.Libc.Wchar.{validutf8, wcrtomb, mbrtowc}
use simple_scc.Libc.Wchar.Ascii.{mbrtowc-ascii, mbrtowc-wcrtomb}

-- The letter "é" (U+E9) is cut to one byte, and its two bytes in UTF-8 are refused.
e_acute : wcrtomb 0xE9 ≡ ok (some (0xE9 ∷ []))
unfolding wcrtomb
e_acute = refl

two_bytes : mbrtowc (0xC3 ∷ 0xA9 ∷ []) 3 ≡ ok none
unfolding mbrtowc validutf8
two_bytes = refl

-- An overlong form of "@" is taken for the character.
overlong : mbrtowc (0xC1 ∷ 0x80 ∷ []) 3 ≡ ok (some (0x40, 2))
unfolding mbrtowc validutf8
overlong = refl

mbrtowc-ascii_example : 0x40 < 0x80
mbrtowc-ascii_example = mbrtowc-ascii 0xC1 3 0x40 2 (0x80 ∷ []) (omega arith) overlong

mbrtowc-wcrtomb_example : (s : List ℕ) × (wcrtomb 0x41 ≡ ok (some s)) × (mbrtowc s 6 ≡ ok none)
mbrtowc-wcrtomb_example = mbrtowc-wcrtomb 0x41 6 (omega arith)
