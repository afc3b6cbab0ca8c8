-- ===== src/Mach/Coff32/Front.antt =====
-- The headers that `coff32write` writes and `coff32read` reads again.
use mathlib.Core.List.{append_assoc}
use simple_scc.Common.{
  ℕ, ◌+◌, ◌*◌, ◌≡◌, refl, sym, ◌∙◌, arith, Bool, List, [], ◌∷◌, ◌++◌, Option, none, some, length,
  length-append, drop, All,
}
use simple_scc.Mach.Pack.Word.{Order}
use simple_scc.Mach.Pack.Format.{digits_value}
use simple_scc.Mach.Pack.RoundTrip.{
  Field, short, long, bytes, Fits, image, take-length, drop-length, length-le,
}
use simple_scc.Mach.Coff32.Io.{good, length-image, packed-fields, unpacked-fields, fread-append}
use simple_scc.Mach.Coff32.Headers.{
  Filhdr, Aouthdr, Scnhdr, filhsz, scnhsz, pack_hdr, pack_scn, unpack_hdr, unpack_scn, readhdr,
  writehdr, readaout, writeaout, fill, readscns, writescns, write_headers, read_headers,
}

abbrev pub hdr_fields : Filhdr → List Field
hdr_fields h =
    short h.f_magic
    ∷ short h.f_nscns
    ∷ long h.f_timdat
    ∷ long h.f_symptr
    ∷ long h.f_nsyms
    ∷ short h.f_opthdr
    ∷ short h.f_flags
    ∷ []

abbrev pub scn_fields : Scnhdr → List Field
scn_fields s =
    bytes b'8' [] s.s_name
    ∷ long s.s_paddr
    ∷ long s.s_vaddr
    ∷ long s.s_size
    ∷ long s.s_scnptr
    ∷ long s.s_relptr
    ∷ long s.s_lnnoptr
    ∷ short s.s_nrelloc
    ∷ short s.s_nlnno
    ∷ long s.s_flags
    ∷ []

-- Each field fits in its bytes, and the name has eight.
abbrev pub HdrFits : Filhdr → Type 0
HdrFits h = All Fits (hdr_fields h)

abbrev pub ScnFits : Scnhdr → Type 0
ScnFits s = All Fits (scn_fields s)

hdr_size : (o : Order) (h : Filhdr) → length (image o (hdr_fields h)) ≡ filhsz
hdr_size o h = length-image o (hdr_fields h)

readhdr-writehdr :
    (o : Order) (h : Filhdr) (rest : List ℕ)
    → HdrFits h
    → (writehdr o h ≡ good (image o (hdr_fields h)))
      × (readhdr o (image o (hdr_fields h) ++ rest) ≡ good (h, rest))
unfolding writehdr pack_hdr readhdr unpack_hdr
readhdr-writehdr o h rest f = (
  packed-fields o (hdr_fields h) filhsz f refl,
  rw
      (
        fread-append (image o (hdr_fields h)) rest filhsz (hdr_size o h),
        unpacked-fields o (hdr_fields h) filhsz f refl,
      )
      refl,
)

scn_total : (s : Scnhdr) → ScnFits s → length s.s_name ≡ 8
unfolding digits_value
scn_total s f = sym f.0.2

scn_size : (o : Order) (s : Scnhdr) → ScnFits s → length (image o (scn_fields s)) ≡ scnhsz
scn_size o s f = length-image o (scn_fields s) ∙ omega (arith, scn_total s f)

-- The bytes of the section headers.
abbrev images : Order → List Scnhdr → List ℕ
images o [] = []
images o (s ∷ ss) = image o (scn_fields s) ++ images o ss

length-images :
    (o : Order) (ss : List Scnhdr) → All ScnFits ss → length (images o ss) ≡ scnhsz * length ss
length-images o [] f = refl
length-images o (s ∷ ss) f =
    length-append (image o (scn_fields s)) (images o ss)
    ∙ omega (arith, scn_size o s f.0, length-images o ss f.1)

writescns-images :
    (o : Order) (ss : List Scnhdr)
    → All ScnFits ss
    → writescns o (length ss) ss ≡ good (images o ss)
unfolding writescns pack_scn
writescns-images o [] f = refl
writescns-images o (s ∷ ss) f =
    rw
      (
        packed-fields o (scn_fields s) scnhsz f.0 (omega (arith, scn_total s f.0)),
        writescns-images o ss f.1,
      )
      refl

fill-append :
    (size : ℕ) (old : Option (List ℕ)) (bs rest : List ℕ)
    → length bs ≡ size
    → fill size old (bs ++ rest) ≡ some bs
unfolding fill
fill-append size old bs rest e = rw (sym e, length-le bs rest, take-length bs rest) refl

drop-append : (size : ℕ) (bs rest : List ℕ) → length bs ≡ size → drop size (bs ++ rest) ≡ rest
drop-append size bs rest e = rw (sym e) (drop-length bs rest)

readscns-images :
    (o : Order) (ss : List Scnhdr) (old : Option (List ℕ)) (rest : List ℕ)
    → All ScnFits ss
    → readscns o (length ss) old (images o ss ++ rest) ≡ good (ss, rest)
unfolding readscns unpack_scn
readscns-images o [] old rest f = refl
readscns-images o (s ∷ ss) old rest f =
    let size = scn_size o s f.0 in
    let bs = image o (scn_fields s) in
    rw
      (
        append_assoc bs (images o ss) rest,
        fill-append scnhsz old bs (images o ss ++ rest) size,
        unpacked-fields o (scn_fields s) scnhsz f.0 (omega (arith, scn_total s f.0)),
        drop-append scnhsz bs (images o ss ++ rest) size,
        readscns-images o ss (some bs) rest f.1,
      )
      refl

-- The headers of an object without an optional header, whose fields fit in the file, are written with
-- the sizes of their formats, and read again as they were, whatever stands behind them; the optional
-- header is left as it is.
pub read_headers-write_headers :
    (o : Order) (read : Bool) (h : Filhdr) (a old : Aouthdr) (ss : List Scnhdr) (rest : List ℕ)
    → HdrFits h
    → h.f_opthdr ≡ 0
    → h.f_nscns ≡ length ss
    → All ScnFits ss
    → (bs : List ℕ) × (write_headers o read h a ss ≡ good bs)
      × (length bs ≡ filhsz + scnhsz * length ss)
      × (read_headers o old (bs ++ rest) ≡ good (h, old, ss, rest))
unfolding write_headers read_headers readaout writeaout
read_headers-write_headers o read h a old ss rest f z n g =
    let bs = image o (hdr_fields h) in
    let (w, r) = readhdr-writehdr o h (images o ss ++ rest) f in
    (
      bs ++ images o ss,
      rw (w, z, n, writescns-images o ss g) refl,
      length-append bs (images o ss) ∙ omega (arith, hdr_size o h, length-images o ss g),
      rw (append_assoc bs (images o ss) rest, r, z, n, readscns-images o ss none rest g) refl,
    )
