-- ===== src/Mach/Pack/WordLaws.antt =====
-- Words written by pack.c and read by unpack.c.
use simple_scc.Common.{ℕ, ◌+◌, ◌*◌, ◌^◌, ◌<◌, ◌≡◌, refl, arith, bit_or, List, ◌++◌, ◌∙◌}
use simple_scc.Common.Ub.{ok}
use simple_scc.Common.Bits.{bit_or-high, bit_or-low}
use simple_scc.Mach.Pack.Word.{
  Order, little, big, byte, shr, shl, short_bytes, long_bytes, quad_bytes, get_short, get_long,
  get_quad, low_quad, high_quad,
}

-- Joining a low part to a multiple.
or_low : (k x y acc : ℕ) → acc ≡ y * 2 ^ k → x < 2 ^ k → bit_or acc x ≡ acc + x
or_low k x y acc e h = rw e (bit_or-low k x y h ∙ omega arith)

-- Lowest byte first: each byte is joined above what is there.
module _ (a b c d : ℕ) (ha : a < 256) (hb : b < 256) (hc : c < 256) (hd : d < 256) where
  low_quad-sum : low_quad a b c d ≡ a + b * 2 ^ 8 + c * 2 ^ 16 + d * 2 ^ 24
  unfolding low_quad
  low_quad-sum = rw (
    bit_or-high 8 a b (omega arith),
    bit_or-high 16 (a + b * 2 ^ 8) c (omega arith),
    bit_or-high 24 (a + b * 2 ^ 8 + c * 2 ^ 16) d (omega arith),
  )

  -- Highest byte first: each byte is joined below what is there.
  high_long-sum :
      bit_or (bit_or (bit_or (shl a 24) (shl b 16)) (shl c 8)) d
      ≡ a * 2 ^ 24 + b * 2 ^ 16 + c * 2 ^ 8 + d
  high_long-sum = rw (
    or_low 24 (b * 2 ^ 16) a (a * 2 ^ 24) refl (omega arith),
    or_low 16 (c * 2 ^ 8) (a * 2 ^ 8 + b) (a * 2 ^ 24 + b * 2 ^ 16) (omega arith) (omega arith),
    or_low 8 d (a * 2 ^ 16 + b * 2 ^ 8 + c) (a * 2 ^ 24 + b * 2 ^ 16 + c * 2 ^ 8) (omega arith)
        (omega arith),
  )

  high_quad-sum : high_quad a b c d ≡ a * 2 ^ 56 + b * 2 ^ 48 + c * 2 ^ 40 + d * 2 ^ 32
  unfolding high_quad
  high_quad-sum = rw (
    or_low 56 (b * 2 ^ 48) a (a * 2 ^ 56) refl (omega arith),
    or_low 48 (c * 2 ^ 40) (a * 2 ^ 8 + b) (a * 2 ^ 56 + b * 2 ^ 48) (omega arith) (omega arith),
    or_low 40 (d * 2 ^ 32) (a * 2 ^ 16 + b * 2 ^ 8 + c) (a * 2 ^ 56 + b * 2 ^ 48 + c * 2 ^ 40)
        (omega arith) (omega arith),
  )

  -- The other four bytes of a quad.
  above_quad :
      (x : ℕ)
      → x < 2 ^ 32
      → bit_or (bit_or (bit_or (bit_or x (shl a 32)) (shl b 40)) (shl c 48)) (shl d 56)
        ≡ x + a * 2 ^ 32 + b * 2 ^ 40 + c * 2 ^ 48 + d * 2 ^ 56
  above_quad x hx = rw (
    bit_or-high 32 x a hx,
    bit_or-high 40 (x + a * 2 ^ 32) b (omega arith),
    bit_or-high 48 (x + a * 2 ^ 32 + b * 2 ^ 40) c (omega arith),
    bit_or-high 56 (x + a * 2 ^ 32 + b * 2 ^ 40 + c * 2 ^ 48) d (omega arith),
  )

  below_quad :
      (y : ℕ)
      → bit_or (bit_or (bit_or (bit_or (y * 2 ^ 32) (shl a 24)) (shl b 16)) (shl c 8)) d
        ≡ y * 2 ^ 32 + a * 2 ^ 24 + b * 2 ^ 16 + c * 2 ^ 8 + d
  below_quad y = rw (
    or_low 32 (a * 2 ^ 24) y (y * 2 ^ 32) refl (omega arith),
    or_low 24 (b * 2 ^ 16) (y * 2 ^ 8 + a) (y * 2 ^ 32 + a * 2 ^ 24) (omega arith) (omega arith),
    or_low 16 (c * 2 ^ 8) (y * 2 ^ 16 + a * 2 ^ 8 + b) (y * 2 ^ 32 + a * 2 ^ 24 + b * 2 ^ 16)
        (omega arith) (omega arith),
    or_low 8 d (y * 2 ^ 24 + a * 2 ^ 16 + b * 2 ^ 8 + c)
        (y * 2 ^ 32 + a * 2 ^ 24 + b * 2 ^ 16 + c * 2 ^ 8) (omega arith) (omega arith),
  )

-- The bytes of a number.
abbrev at : ℕ → ℕ → ℕ
at n k = byte (shr n k)

-- A word in range survives writing and reading, in either order.
pub get_short-short_bytes :
    (o : Order) (s : ℕ) (r : List ℕ)
    → s < 2 ^ 16
    → get_short o (short_bytes o s ++ r) ≡ ok (record { value = s; rest = r })
unfolding get_short short_bytes
get_short-short_bytes little s r h = ground (arith, bit_or-high 8 (byte s) (at s 8))
get_short-short_bytes big s r h = ground (arith, bit_or-low 8 (byte s) (at s 8))

pub get_long-long_bytes :
    (o : Order) (l : ℕ) (r : List ℕ)
    → l < 2 ^ 32
    → get_long o (long_bytes o l ++ r) ≡ ok (record { value = l; rest = r })
unfolding get_long long_bytes low_quad
get_long-long_bytes little l r h =
    ground (arith, low_quad-sum (byte l) (at l 8) (at l 16) (at l 24))
get_long-long_bytes big l r h = ground (arith, high_long-sum (at l 24) (at l 16) (at l 8) (byte l))

pub get_quad-quad_bytes :
    (o : Order) (q : ℕ) (r : List ℕ)
    → q < 2 ^ 64
    → get_quad o (quad_bytes o q ++ r) ≡ ok (record { value = q; rest = r })
unfolding get_quad quad_bytes
get_quad-quad_bytes little q r h = ground (
  arith,
  low_quad-sum (byte q) (at q 8) (at q 16) (at q 24),
  above_quad (at q 32) (at q 40) (at q 48) (at q 56) (omega arith) (omega arith) (omega arith)
      (omega arith) (byte q + at q 8 * 2 ^ 8 + at q 16 * 2 ^ 16 + at q 24 * 2 ^ 24),
)
get_quad-quad_bytes big q r h = ground (
  arith,
  high_quad-sum (at q 56) (at q 48) (at q 40) (at q 32),
  below_quad (at q 24) (at q 16) (at q 8) (byte q) (omega arith) (omega arith) (omega arith)
      (omega arith) (at q 56 * 2 ^ 24 + at q 48 * 2 ^ 16 + at q 40 * 2 ^ 8 + at q 32),
)
