-- ===== src/Mach/Coff32/Io.antt =====
-- What the functions of coff32read.c and coff32write.c do with a file, and their calls of pack and
-- unpack with an assertion behind it. A file is the list of the bytes from its position on.
use simple_scc.Common.{
  ℕ, ◌+◌, ◌≡◌, refl, ap, ◌∙◌, sym, arith, Bool, false, List, [], ◌∷◌, ◌++◌, length, length-append,
  take, drop, leb, All, ◌==◌, if◌then◌else◌,
}
use mathlib.Core.List.{append-nil}
use simple_scc.Common.Int.{ℤ, pos, negsuc}
use simple_scc.Common.Ub.{Ub, ok, undefined}
use simple_scc.Mach.Pack.Word.{Order, little, big, short_bytes, long_bytes, quad_bytes}
use simple_scc.Mach.Pack.Pack.{Arg, pack}
use simple_scc.Mach.Pack.Unpack.{unpack}
use simple_scc.Mach.Pack.RoundTrip.{
  Field, char, short, long, quad, bytes, Fits, format, arguments, layout, image, take-length,
  drop-length, length-le, unpack-pack,
}

-- A result, the failure that a function returns, an assertion that does not hold, or undefined behaviour.
pub data Io {ℓ} (A : Type ℓ) : Type ℓ where
  good : A → Io A
  failed aborted bad : Io A

infixl 5 ◌>>=◌
abbrev pub ◌>>=◌ {ℓ κ} : {A : Type ℓ} {B : Type κ} → Io A → (A → Io B) → Io B
good a >>= f = f a
failed >>= f = failed
aborted >>= f = aborted
bad >>= f = bad

pub bind_good {ℓ κ} :
    {A : Type ℓ} {B : Type κ} (m : Io A) (f : A → Io B) {b : B}
    → (m >>= f) ≡ good b
    → (a : A) × (m ≡ good a) × (f a ≡ good b)
bind_good (good a) f e = (a, refl, e)
bind_good failed f e = cc
bind_good aborted f e = cc
bind_good bad f e = cc

abbrev is_size : ℕ → ℤ → Bool
is_size size (pos n) = n == size
is_size size (negsuc n) = false

-- `n = pack(order, buf, ...); assert(n == SIZE);` the buffer has that size.
unfoldable pub packed : ℕ → Ub (List ℕ × ℤ) → Io (List ℕ)
packed size undefined = bad
packed size (ok (bs, n)) =
    if leb (length bs) size then (if is_size size n then good bs else aborted) else bad

-- `n = unpack(order, buf, ...); assert(n == SIZE);`
unfoldable pub unpacked : ℕ → Ub (List Arg × ℤ) → Io (List Arg)
unpacked size undefined = bad
unpacked size (ok (vs, n)) = if is_size size n then good vs else aborted

-- `fread(buf, size, 1, fp) != 1` is a failure; otherwise what is read, and the file behind it.
unfoldable pub fread : ℕ → List ℕ → Io (List ℕ × List ℕ)
fread size file = if leb size (length file) then good (take size file, drop size file) else failed

abbrev width : Field → ℕ
width (char n) = 1
width (short n) = 2
width (long n) = 4
width (quad n) = 8
width (bytes d ds bs) = length bs

abbrev pub total : List Field → ℕ
total [] = 0
total (f ∷ fs) = width f + total fs

length-layout : (o : Order) (f : Field) → length (layout o f) ≡ width f
unfolding short_bytes long_bytes quad_bytes
length-layout o (char n) = refl
length-layout little (short n) = refl
length-layout big (short n) = refl
length-layout little (long n) = refl
length-layout big (long n) = refl
length-layout little (quad n) = refl
length-layout big (quad n) = refl
length-layout o (bytes d ds bs) = refl

pub length-image : (o : Order) (fs : List Field) → length (image o fs) ≡ total fs
length-image o [] = refl
length-image o (f ∷ fs) =
    length-append (layout o f) (image o fs) ∙ rw (length-layout o f, length-image o fs) refl

pub packed-fields :
    (o : Order) (fs : List Field) (size : ℕ)
    → All Fits fs
    → total fs ≡ size
    → packed size (pack o (format fs) (arguments fs)) ≡ good (image o fs)
unfolding packed
packed-fields o fs size h e =
    let l : length (image o fs) ≡ size = length-image o fs ∙ e in
    rw ((unpack-pack o fs [] h).0, l) (ground arith)

pub unpacked-fields :
    (o : Order) (fs : List Field) (size : ℕ)
    → All Fits fs
    → total fs ≡ size
    → unpacked size (unpack o (image o fs) (format fs)) ≡ good (arguments fs)
unfolding unpacked
unpacked-fields o fs size h e =
    let l : length (image o fs) ≡ size = length-image o fs ∙ e in
    let u =
      ap (λ b. unpack o b (format fs)) (sym (append-nil (image o fs)))
      ∙ (unpack-pack o fs [] h).1 in
    rw (u, l) (ground arith)

pub fread-append :
    (bs rest : List ℕ) (size : ℕ) → length bs ≡ size → fread size (bs ++ rest) ≡ good (bs, rest)
unfolding fread
fread-append bs rest size e =
    rw (sym e, length-le bs rest, take-length bs rest, drop-length bs rest) refl
