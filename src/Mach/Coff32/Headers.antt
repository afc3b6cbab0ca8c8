-- ===== src/Mach/Coff32/Headers.antt =====
-- The file header, the optional header and the section headers: include/bits/scc/coff32/filehdr.h,
-- aouthdr.h and scnhdr.h, and the functions of coff32read.c and coff32write.c that move them.
use simple_scc.Common.{
  ℕ, zero, suc, ◌==◌, Bool, List, [], ◌∷◌, ◌++◌, Option, none, some, length, take, drop, leb,
  if◌then◌else◌,
}
use simple_scc.Mach.Pack.Word.{Order}
use simple_scc.Mach.Pack.Pack.{Arg, num, raw, pack}
use simple_scc.Mach.Pack.Unpack.{unpack}
use simple_scc.Mach.Coff32.Io.{Io, good, failed, bad, ◌>>=◌, packed, unpacked, fread}

-- A field of the file is the number of its two or four bytes.
pub record Filhdr : Type 0 where
  pub f_magic : ℕ
  pub f_nscns : ℕ
  pub f_timdat : ℕ
  pub f_symptr : ℕ
  pub f_nsyms : ℕ
  pub f_opthdr : ℕ
  pub f_flags : ℕ

pub record Aouthdr : Type 0 where
  pub magic : ℕ
  pub vstamp : ℕ
  pub tsize : ℕ
  pub dsize : ℕ
  pub bsize : ℕ
  pub entry : ℕ
  pub text_start : ℕ
  pub data_start : ℕ

pub record Scnhdr : Type 0 where
  pub s_name : List ℕ
  pub s_paddr : ℕ
  pub s_vaddr : ℕ
  pub s_size : ℕ
  pub s_scnptr : ℕ
  pub s_relptr : ℕ
  pub s_lnnoptr : ℕ
  pub s_nrelloc : ℕ
  pub s_nlnno : ℕ
  pub s_flags : ℕ

abbrev pub filhsz : ℕ
filhsz = 20

-- sizeof(AOUTHDR): two shorts, four bytes of padding and six longs.
abbrev pub aoutsz : ℕ
aoutsz = 56

abbrev pub scnhsz : ℕ
scnhsz = 40

-- The formats "sslllss", "ssllllll" and "'8llllllssl".
abbrev pub hdr_format : List ℕ
hdr_format = b's' ∷ b's' ∷ b'l' ∷ b'l' ∷ b'l' ∷ b's' ∷ b's' ∷ []

abbrev pub aout_format : List ℕ
aout_format = b's' ∷ b's' ∷ b'l' ∷ b'l' ∷ b'l' ∷ b'l' ∷ b'l' ∷ b'l' ∷ []

abbrev pub scn_format : List ℕ
scn_format = 0x27 ∷ b'8' ∷ b'l' ∷ b'l' ∷ b'l' ∷ b'l' ∷ b'l' ∷ b'l' ∷ b's' ∷ b's' ∷ b'l' ∷ []

abbrev pub hdr_args : Filhdr → List Arg
hdr_args h =
    num h.f_magic
    ∷ num h.f_nscns
    ∷ num h.f_timdat
    ∷ num h.f_symptr
    ∷ num h.f_nsyms
    ∷ num h.f_opthdr
    ∷ num h.f_flags
    ∷ []

abbrev pub aout_args : Aouthdr → List Arg
aout_args a =
    num a.magic
    ∷ num a.vstamp
    ∷ num a.tsize
    ∷ num a.dsize
    ∷ num a.bsize
    ∷ num a.entry
    ∷ num a.text_start
    ∷ num a.data_start
    ∷ []

abbrev pub scn_args : Scnhdr → List Arg
scn_args s =
    raw s.s_name
    ∷ num s.s_paddr
    ∷ num s.s_vaddr
    ∷ num s.s_size
    ∷ num s.s_scnptr
    ∷ num s.s_relptr
    ∷ num s.s_lnnoptr
    ∷ num s.s_nrelloc
    ∷ num s.s_nlnno
    ∷ num s.s_flags
    ∷ []

unfoldable pub pack_hdr : Order → Filhdr → Io (List ℕ)
pack_hdr o h = packed filhsz (pack o hdr_format (hdr_args h))

unfoldable pub pack_aout : Order → Aouthdr → Io (List ℕ)
pack_aout o a = packed aoutsz (pack o aout_format (aout_args a))

unfoldable pub pack_scn : Order → Scnhdr → Io (List ℕ)
pack_scn o s = packed scnhsz (pack o scn_format (scn_args s))

-- What is stored through the pointers to the fields.
abbrev pub to_hdr : List Arg → Io Filhdr
to_hdr (num a ∷ num b ∷ num c ∷ num d ∷ num e ∷ num f ∷ num g ∷ []) = good (record {
  f_magic = a;
  f_nscns = b;
  f_timdat = c;
  f_symptr = d;
  f_nsyms = e;
  f_opthdr = f;
  f_flags = g;
})
to_hdr _ = bad

abbrev pub to_aout : List Arg → Io Aouthdr
to_aout (num a ∷ num b ∷ num c ∷ num d ∷ num e ∷ num f ∷ num g ∷ num h ∷ []) = good (record {
  magic = a;
  vstamp = b;
  tsize = c;
  dsize = d;
  bsize = e;
  entry = f;
  text_start = g;
  data_start = h;
})
to_aout _ = bad

abbrev pub to_scn : List Arg → Io Scnhdr
to_scn (raw n ∷ num a ∷ num b ∷ num c ∷ num d ∷ num e ∷ num f ∷ num g ∷ num h ∷ num i ∷ []) =
    good (record {
      s_name = n;
      s_paddr = a;
      s_vaddr = b;
      s_size = c;
      s_scnptr = d;
      s_relptr = e;
      s_lnnoptr = f;
      s_nrelloc = g;
      s_nlnno = h;
      s_flags = i;
    })
to_scn _ = bad

unfoldable pub unpack_hdr : Order → List ℕ → Io Filhdr
unpack_hdr o buf = do vs ← unpacked filhsz (unpack o buf hdr_format); to_hdr vs

unfoldable pub unpack_aout : Order → List ℕ → Io Aouthdr
unpack_aout o buf = do vs ← unpacked aoutsz (unpack o buf aout_format); to_aout vs

unfoldable pub unpack_scn : Order → List ℕ → Io Scnhdr
unpack_scn o buf = do vs ← unpacked scnhsz (unpack o buf scn_format); to_scn vs

-- A reader returns the file behind what it has read, a writer the bytes that it has written.
unfoldable pub readhdr : Order → List ℕ → Io (Filhdr × List ℕ)
unfolding unpack_hdr fread
readhdr o file = do (buf, rest) ← fread filhsz file; h ← unpack_hdr o buf; good (h, rest)

unfoldable pub writehdr : Order → Filhdr → Io (List ℕ)
unfolding pack_hdr
writehdr o h = pack_hdr o h

-- Without an optional header, what stands in `coff->aout` stays.
unfoldable pub readaout : Order → Filhdr → Aouthdr → List ℕ → Io (Aouthdr × List ℕ)
unfolding unpack_aout fread
readaout o h old file =
    if h.f_opthdr == 0
    then good (old, file)
    else (do (buf, rest) ← fread aoutsz file; a ← unpack_aout o buf; good (a, rest))

-- It reads where it means to write; `read` says whether the file gives the bytes.
unfoldable pub writeaout : Order → Bool → Filhdr → Aouthdr → Io (List ℕ)
unfolding pack_aout
writeaout o read h a =
    if h.f_opthdr == 0 then good [] else (do buf ← pack_aout o a; if read then failed else good [])

-- The buffer before the first read is not set, and a short read leaves its end: `fread(...) < 0` is
-- false always.
unfoldable pub fill : ℕ → Option (List ℕ) → List ℕ → Option (List ℕ)
fill size old file =
    if leb size (length file) then some (take size file) else elim old as (λ _. Option (List ℕ)) [
      | none ↦ none
      | some b ↦ some (file ++ drop (length file) b)
    ]

abbrev filled : Option (List ℕ) → Io (List ℕ)
filled none = bad
filled (some b) = good b

unfoldable pub readscns : Order → ℕ → Option (List ℕ) → List ℕ → Io (List Scnhdr × List ℕ)
unfolding unpack_scn
readscns o zero old file = good ([], file)
readscns o (suc n) old file = do
  buf ← filled (fill scnhsz old file)
  s ← unpack_scn o buf
  (ss, rest) ← readscns o n (some buf) (drop scnhsz file)
  good (s ∷ ss, rest)

-- Past the sections of the array there is nothing to write.
unfoldable pub writescns : Order → ℕ → List Scnhdr → Io (List ℕ)
unfolding pack_scn
writescns o zero ss = good []
writescns o (suc n) [] = bad
writescns o (suc n) (s ∷ ss) = do buf ← pack_scn o s; bs ← writescns o n ss; good (buf ++ bs)

-- The headers, as `coff32write` writes them and as `coff32read` reads them.
unfoldable pub write_headers : Order → Bool → Filhdr → Aouthdr → List Scnhdr → Io (List ℕ)
unfolding writehdr writeaout writescns
write_headers o read h a ss = do
  front ← writehdr o h
  optional ← writeaout o read h a
  sections ← writescns o h.f_nscns ss
  good (front ++ (optional ++ sections))

unfoldable pub read_headers :
    Order → Aouthdr → List ℕ → Io (Filhdr × Aouthdr × List Scnhdr × List ℕ)
unfolding readhdr readaout readscns
read_headers o old file = do
  (h, behind) ← readhdr o file
  (a, sections) ← readaout o h old behind
  (ss, rest) ← readscns o h.f_nscns none sections
  good (h, a, ss, rest)
