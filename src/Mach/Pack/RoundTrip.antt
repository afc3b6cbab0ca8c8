-- ===== src/Mach/Pack/RoundTrip.antt =====
-- `pack` of pack.c followed by `unpack` of unpack.c, in either byte order.
use simple_scc.Common.{
  ℕ, ◌^◌, ◌<◌, ◌≡◌, refl, arith, true, false, List, [], ◌∷◌, ◌++◌, length, length-append, take,
  drop, All, leb, ap, ◌∙◌,
}
use mathlib.Core.List.{append_assoc}
use native.Mathlib.Nat.{mod-eq_of_lt}
use simple_scc.Common.Int.{pos}
use simple_scc.Common.Ub.{ok, ◌>>=◌}
use simple_scc.Mach.Pack.Format.{is_digit, IsDigit, atoi, digits_value, EndsNumber, atoi-digits}
use simple_scc.Mach.Pack.Word.{Order, byte, short_bytes, long_bytes, quad_bytes}
use simple_scc.Mach.Pack.WordLaws.{get_short-short_bytes, get_long-long_bytes, get_quad-quad_bytes}
use simple_scc.Mach.Pack.Pack.{Arg, num, raw, pack, pack_from, pack_char, Packed}
use simple_scc.Mach.Pack.Unpack.{unpack, unpack_from, unpack_char, Unpacked}
use simple_scc.Mach.Pack.Pack
use simple_scc.Mach.Pack.Unpack

-- A field of a format with its argument: a number of one, two, four or eight bytes, or some bytes
-- behind a quote and their count in digits.
pub data Field : Type 0 where
  char short long quad : ℕ → Field
  bytes : ℕ → List ℕ → List ℕ → Field

-- The number fits; the count is an int and the number of the bytes.
abbrev pub Fits : Field → Type 0
Fits (char n) = n < 2 ^ 8
Fits (short n) = n < 2 ^ 16
Fits (long n) = n < 2 ^ 32
Fits (quad n) = n < 2 ^ 64
Fits (bytes d ds bs) =
    IsDigit d × All IsDigit ds × (digits_value 0 (d ∷ ds) ≡ length bs) × (length bs < 2 ^ 31)

abbrev pub format : List Field → List ℕ
format [] = []
format (char n ∷ fs) = b'c' ∷ format fs
format (short n ∷ fs) = b's' ∷ format fs
format (long n ∷ fs) = b'l' ∷ format fs
format (quad n ∷ fs) = b'q' ∷ format fs
format (bytes d ds bs ∷ fs) = 0x27 ∷ d ∷ (ds ++ format fs)

abbrev pub argument : Field → Arg
argument (char n) = num n
argument (short n) = num n
argument (long n) = num n
argument (quad n) = num n
argument (bytes d ds bs) = raw bs

abbrev pub arguments : List Field → List Arg
arguments [] = []
arguments (f ∷ fs) = argument f ∷ arguments fs

-- The layout of the bytes.
abbrev pub layout : Order → Field → List ℕ
layout o (char n) = byte n ∷ []
layout o (short n) = short_bytes o n
layout o (long n) = long_bytes o n
layout o (quad n) = quad_bytes o n
layout o (bytes d ds bs) = bs

abbrev pub image : Order → List Field → List ℕ
image o [] = []
image o (f ∷ fs) = layout o f ++ image o fs

format-EndsNumber : (fs : List Field) → EndsNumber (format fs)
unfolding is_digit
format-EndsNumber [] = tt
format-EndsNumber (char n ∷ fs) = refl
format-EndsNumber (short n ∷ fs) = refl
format-EndsNumber (long n ∷ fs) = refl
format-EndsNumber (quad n ∷ fs) = refl
format-EndsNumber (bytes d ds bs ∷ fs) = refl

pub take-length : (bs rest : List ℕ) → take (length bs) (bs ++ rest) ≡ bs
take-length [] rest = refl
take-length (b ∷ bs) rest = ap (λ xs. b ∷ xs) (take-length bs rest)

pub drop-length : (bs rest : List ℕ) → drop (length bs) (bs ++ rest) ≡ rest
drop-length [] rest = refl
drop-length (b ∷ bs) rest = drop-length bs rest

take_all : (bs : List ℕ) → take (length bs) bs ≡ bs
take_all [] = refl
take_all (b ∷ bs) = ap (λ xs. b ∷ xs) (take_all bs)

-- The digits of a count write nothing.
pack-digits :
    (o : Order) (ds : List ℕ) (fmt : List ℕ) (args : List Arg)
    → All IsDigit ds
    → pack_from o true (ds ++ fmt) args ≡ pack_from o true fmt args
unfolding pack_from pack_char is_digit
pack-digits o [] fmt args h = refl
pack-digits o (d ∷ ds) fmt args h = ground (arith, pack-digits o ds fmt args h.1)

-- Where no digit stands, the mode does not matter.
pack-mode :
    (o : Order) (fmt : List ℕ) (args : List Arg)
    → EndsNumber fmt
    → pack_from o true fmt args ≡ pack_from o false fmt args
unfolding pack_from pack_char
pack-mode o [] args h = refl
pack-mode o (c ∷ fmt) args h = rw h

-- The quote copies the bytes of its argument.
pack_char-quote :
    (o : Order) (fmt : List ℕ) (bs : List ℕ) (args : List Arg)
    → atoi fmt ≡ ok (pos (length bs))
    → pack_char o false 0x27 fmt (raw bs ∷ args) ≡ ok (Pack.emit bs args true)
unfolding pack_char
pack_char-quote o fmt bs args e = rw e (ground (arith, take_all bs))

pub length-le : (bs rest : List ℕ) → leb (length bs) (length (bs ++ rest)) ≡ true
length-le bs rest = ground (arith, length-append bs rest)

pack_from-quote :
    (o : Order) (fmt bs : List ℕ) (args : List Arg)
    → atoi fmt ≡ ok (pos (length bs))
    → pack_from o false (0x27 ∷ fmt) (raw bs ∷ args)
      ≡ (pack_from o true fmt args >>= λ p. ok (Pack.prepend bs p))
unfolding pack_from
pack_from-quote o fmt bs args e = rw (pack_char-quote o fmt bs args e)

unpack_from-quote :
    (o : Order) (fmt bs rest : List ℕ)
    → atoi fmt ≡ ok (pos (length bs))
    → unpack_from o false (0x27 ∷ fmt) (bs ++ rest)
      ≡ (unpack_from o true fmt rest >>= λ u. ok (Unpack.prepend (raw bs ∷ []) u))
unfolding unpack_from unpack_char
unpack_from-quote o fmt bs rest e =
    rw (e, take-length bs rest, drop-length bs rest, length-le bs rest)

-- The text behind a quote holds its count.
atoi-count :
    (d : ℕ) (ds bs : List ℕ) (fs : List Field)
    → Fits (bytes d ds bs)
    → atoi (d ∷ (ds ++ format fs)) ≡ ok (pos (length bs))
atoi-count d ds bs fs (hd, hds, e, lt) =
    atoi-digits d ds (format fs) (hd, hds) (format-EndsNumber fs) (rw e lt) ∙ ap (λ n. ok (pos n)) e

pack_from-image :
    (o : Order) (fs : List Field)
    → All Fits fs
    → pack_from o false (format fs) (arguments fs)
      ≡ ok (record { written = image o fs; complete = true })
unfolding pack_from pack_char
pack_from-image o [] h = refl
pack_from-image o (char n ∷ fs) h = rw (pack_from-image o fs h.1)
pack_from-image o (short n ∷ fs) h = rw (pack_from-image o fs h.1)
pack_from-image o (long n ∷ fs) h = rw (pack_from-image o fs h.1)
pack_from-image o (quad n ∷ fs) h = rw (pack_from-image o fs h.1)
pack_from-image o (bytes d ds bs ∷ fs) h =
    pack_from-quote o _ bs (arguments fs) (atoi-count d ds bs fs h.0)
    ∙ rw (
      pack-digits o (d ∷ ds) (format fs) (arguments fs) (h.0.0, h.0.1),
      pack-mode o (format fs) (arguments fs) (format-EndsNumber fs),
      pack_from-image o fs h.1,
    )

-- The same for reading.
unpack-digits :
    (o : Order) (ds fmt src : List ℕ)
    → All IsDigit ds
    → unpack_from o true (ds ++ fmt) src ≡ unpack_from o true fmt src
unfolding unpack_from unpack_char is_digit
unpack-digits o [] fmt src h = refl
unpack-digits o (d ∷ ds) fmt src h = ground (arith, unpack-digits o ds fmt src h.1)

unpack-mode :
    (o : Order) (fmt src : List ℕ)
    → EndsNumber fmt
    → unpack_from o true fmt src ≡ unpack_from o false fmt src
unfolding unpack_from unpack_char
unpack-mode o [] src h = refl
unpack-mode o (c ∷ fmt) src h = rw h

unpack_from-image :
    (o : Order) (fs : List Field) (rest : List ℕ)
    → All Fits fs
    → unpack_from o false (format fs) (image o fs ++ rest)
      ≡ ok (record { stored = arguments fs; left = rest; complete = true })
unfolding unpack_from unpack_char
unpack_from-image o [] rest h = refl
unpack_from-image o (char n ∷ fs) rest h = rw (unpack_from-image o fs rest h.1, mod-eq_of_lt h.0)
unpack_from-image o (short n ∷ fs) rest h = rw (
  append_assoc,
  get_short-short_bytes o n (image o fs ++ rest) h.0,
  unpack_from-image o fs rest h.1,
)
unpack_from-image o (long n ∷ fs) rest h = rw (
  append_assoc,
  get_long-long_bytes o n (image o fs ++ rest) h.0,
  unpack_from-image o fs rest h.1,
)
unpack_from-image o (quad n ∷ fs) rest h = rw (
  append_assoc,
  get_quad-quad_bytes o n (image o fs ++ rest) h.0,
  unpack_from-image o fs rest h.1,
)
unpack_from-image o (bytes d ds bs ∷ fs) rest h = rw (
  append_assoc,
  unpack_from-quote o (d ∷ (ds ++ format fs)) bs (image o fs ++ rest) (atoi-count d ds bs fs h.0),
  unpack-digits o (d ∷ ds) (format fs) (image o fs ++ rest) (h.0.0, h.0.1),
  unpack-mode o (format fs) (image o fs ++ rest) (format-EndsNumber fs),
  unpack_from-image o fs rest h.1,
)

-- On a format of fields that fit, `pack` writes each field in the byte order and returns the number
-- of bytes, and `unpack` of those bytes, whatever follows them, stores the arguments again and
-- returns the same number.
pub unpack-pack :
    (o : Order) (fs : List Field) (rest : List ℕ)
    → All Fits fs
    → (pack o (format fs) (arguments fs) ≡ ok (image o fs, pos (length (image o fs))))
      × (unpack o (image o fs ++ rest) (format fs) ≡ ok (arguments fs, pos (length (image o fs))))
unfolding pack unpack
unpack-pack o fs rest h = (
  rw (pack_from-image o fs h),
  rw (unpack_from-image o fs rest h, length-append (image o fs) rest)
      (ap (λ n. ok (arguments fs, pos n)) (omega arith)),
)
