-- ===== src/Mach/Pack/Word.antt =====
-- Words of two, four and eight bytes in both byte orders, as pack.c writes and unpack.c reads them.
use simple_scc.Common.{ℕ, ◌*◌, ◌/◌, ◌%◌, ◌^◌, bit_or, List, [], ◌∷◌}
use simple_scc.Common.Ub.{Ub, ok, undefined}

pub data Order : Type 0 where
  little big : Order

-- Storing a number in an unsigned char.
abbrev pub byte : ℕ → ℕ
byte n = n % 256

abbrev pub shr : ℕ → ℕ → ℕ
shr n k = n / 2 ^ k

abbrev pub shl : ℕ → ℕ → ℕ
shl n k = n * 2 ^ k

unfoldable pub short_bytes : Order → ℕ → List ℕ
short_bytes little s = byte s ∷ byte (shr s 8) ∷ []
short_bytes big s = byte (shr s 8) ∷ byte s ∷ []

unfoldable pub long_bytes : Order → ℕ → List ℕ
long_bytes little l = byte l ∷ byte (shr l 8) ∷ byte (shr l 16) ∷ byte (shr l 24) ∷ []
long_bytes big l = byte (shr l 24) ∷ byte (shr l 16) ∷ byte (shr l 8) ∷ byte l ∷ []

unfoldable pub quad_bytes : Order → ℕ → List ℕ
quad_bytes little q =
    byte q
    ∷ byte (shr q 8)
    ∷ byte (shr q 16)
    ∷ byte (shr q 24)
    ∷ byte (shr q 32)
    ∷ byte (shr q 40)
    ∷ byte (shr q 48)
    ∷ byte (shr q 56)
    ∷ []
quad_bytes big q =
    byte (shr q 56)
    ∷ byte (shr q 48)
    ∷ byte (shr q 40)
    ∷ byte (shr q 32)
    ∷ byte (shr q 24)
    ∷ byte (shr q 16)
    ∷ byte (shr q 8)
    ∷ byte q
    ∷ []

-- A word read, and the bytes behind it.
pub record Read : Type 0 where
  pub value : ℕ
  pub rest : List ℕ

-- Reading past the bytes is undefined.
unfoldable pub get_short : Order → List ℕ → Ub Read
get_short little (a ∷ b ∷ r) = ok (record { value = bit_or a (shl b 8); rest = r })
get_short big (a ∷ b ∷ r) = ok (record { value = bit_or (shl a 8) b; rest = r })
get_short _ _ = undefined

unfoldable pub get_long : Order → List ℕ → Ub Read
get_long little (a ∷ b ∷ c ∷ d ∷ r) =
    ok (record { value = bit_or (bit_or (bit_or a (shl b 8)) (shl c 16)) (shl d 24); rest = r })
get_long big (a ∷ b ∷ c ∷ d ∷ r) =
    ok (record { value = bit_or (bit_or (bit_or (shl a 24) (shl b 16)) (shl c 8)) d; rest = r })
get_long _ _ = undefined

-- The four bytes read first, then the other four.
unfoldable pub low_quad : ℕ → ℕ → ℕ → ℕ → ℕ
low_quad a b c d = bit_or (bit_or (bit_or a (shl b 8)) (shl c 16)) (shl d 24)

unfoldable pub high_quad : ℕ → ℕ → ℕ → ℕ → ℕ
high_quad a b c d = bit_or (bit_or (bit_or (shl a 56) (shl b 48)) (shl c 40)) (shl d 32)

unfoldable pub get_quad : Order → List ℕ → Ub Read
unfolding low_quad high_quad
get_quad little (a ∷ b ∷ c ∷ d ∷ e ∷ f ∷ g ∷ h ∷ r) = ok (record {
  value =
      bit_or (bit_or (bit_or (bit_or (low_quad a b c d) (shl e 32)) (shl f 40)) (shl g 48))
        (shl h 56);
  rest = r;
})
get_quad big (a ∷ b ∷ c ∷ d ∷ e ∷ f ∷ g ∷ h ∷ r) = ok (record {
  value = bit_or (bit_or (bit_or (bit_or (high_quad a b c d) (shl e 24)) (shl f 16)) (shl g 8)) h;
  rest = r;
})
get_quad _ _ = undefined
