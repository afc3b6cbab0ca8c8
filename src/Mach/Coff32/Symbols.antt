-- ===== src/Mach/Coff32/Symbols.antt =====
-- Symbols, relocations and line numbers: include/bits/scc/coff32/syms.h, reloc.h and linenum.h, and the
-- functions of coff32read.c and coff32write.c that move them.
use simple_scc.Common.{
  ℕ, zero, suc, ◌+◌, ◌-◌, ◌^◌, ◌==◌, Bool, true, ◌&&◌, List, [], ◌∷◌, ◌++◌, Option, none, some,
  length, take, drop, ltb, if◌then◌else◌,
}
use simple_scc.Common.Int.{ℤ}
use simple_scc.Common.Ub.{Ub, ok}
use simple_scc.Mach.Pack.Word.{Order, little, quad_bytes}
use simple_scc.Mach.Pack.Pack.{Arg, num, raw, pack}
use simple_scc.Mach.Pack.Unpack.{unpack}
use simple_scc.Mach.Coff32.Io.{Io, good, failed, bad, ◌>>=◌, packed, unpacked, fread}
use simple_scc.Mach.Coff32.Headers.{Filhdr}

-- The union of `n_name` with the longs `n_zeroes` and `n_offset`: the name stands in the bytes of
-- `n_zeroes`, the offset behind it.
pub record Syment : Type 0 where
  pub n_name : List ℕ
  pub n_offset : ℕ
  pub n_value : ℕ
  pub n_scnum : ℕ
  pub n_type : ℕ
  pub n_sclass : ℕ
  pub n_numaux : ℕ

pub record Reloc : Type 0 where
  pub r_vaddr : ℕ
  pub r_symndx : ℕ
  pub r_type : ℕ

pub record Lineno : Type 0 where
  pub l_symndx : ℕ
  pub l_paddr : ℕ
  pub l_lnno : ℕ

abbrev pub symesz : ℕ
symesz = 18

abbrev pub relsz : ℕ
relsz = 10

abbrev pub linesz : ℕ
linesz = 6

-- The formats "'8lsscc" and "lls".
abbrev pub ent_format : List ℕ
ent_format = 0x27 ∷ b'8' ∷ b'l' ∷ b's' ∷ b's' ∷ b'c' ∷ b'c' ∷ []

abbrev pub lls : List ℕ
lls = b'l' ∷ b'l' ∷ b's' ∷ []

abbrev pub ent_args : Syment → List Arg
ent_args e =
    raw e.n_name
    ∷ num e.n_value
    ∷ num e.n_scnum
    ∷ num e.n_type
    ∷ num e.n_sclass
    ∷ num e.n_numaux
    ∷ []

unfoldable pub pack_ent : Order → Syment → Io (List ℕ)
pack_ent o e = packed symesz (pack o ent_format (ent_args e))

unfoldable pub pack_reloc : Order → Reloc → Io (List ℕ)
pack_reloc o r = packed relsz (pack o lls (num r.r_vaddr ∷ num r.r_symndx ∷ num r.r_type ∷ []))

unfoldable pub pack_line : Order → Lineno → Io (List ℕ)
pack_line o l = packed linesz (pack o lls (num l.l_symndx ∷ num l.l_paddr ∷ num l.l_lnno ∷ []))

abbrev pub to_reloc : List Arg → Io Reloc
to_reloc (num a ∷ num b ∷ num c ∷ []) = good (record { r_vaddr = a; r_symndx = b; r_type = c })
to_reloc _ = bad

unfoldable pub unpack_reloc : Order → List ℕ → Io Reloc
unpack_reloc o buf = do vs ← unpacked relsz (unpack o buf lls); to_reloc vs

abbrev to_line : List Arg → Io Lineno
to_line (num a ∷ num b ∷ num c ∷ []) = good (record { l_symndx = a; l_paddr = b; l_lnno = c })
to_line _ = bad

unfoldable pub unpack_line : Order → List ℕ → Io Lineno
unpack_line o buf = do vs ← unpacked linesz (unpack o buf lls); to_line vs

-- The offset of an entry whose name is stored keeps the value it had.
abbrev pub to_ent : ℕ → List Arg → Io Syment
to_ent old (raw n ∷ num a ∷ num b ∷ num c ∷ num d ∷ num e ∷ []) = good (record {
  n_name = n;
  n_offset = old;
  n_value = a;
  n_scnum = b;
  n_type = c;
  n_sclass = d;
  n_numaux = e;
})
to_ent old _ = bad

unfoldable pub all_zero : List ℕ → Bool
all_zero [] = true
all_zero (b ∷ bs) = (b == 0) && all_zero bs

-- Storing `n_zeroes` is storing the name, in the order of the machine.
abbrev to_long_name : Syment → Ub (List Arg × ℤ) → Io Syment
to_long_name e (ok (num z ∷ num off ∷ [], n)) =
    good (record e { n_name = quad_bytes little z; n_offset = off })
to_long_name e _ = bad

unfoldable pub unpack_ent : Order → ℕ → List ℕ → Io Syment
unfolding all_zero
unpack_ent o old buf = do
  vs ← unpacked symesz (unpack o buf ent_format)
  e ← to_ent old vs
  (if all_zero (take 4 e.n_name) then to_long_name e (unpack o buf (b'l' ∷ b'l' ∷ [])) else good e)

-- The test of `n_scnum`, a short, against the number of sections.
unfoldable pub beyond : ℕ → Syment → Bool
beyond nscns e = ltb e.n_scnum (2 ^ 15) && ltb nscns e.n_scnum

-- The loop of `readents`: `ent` stays at the first entry.
unfoldable pub read_ents : Order → ℕ → ℕ → Option Syment → List ℕ → Io (List Syment × List ℕ)
unfolding unpack_ent beyond
read_ents o nscns zero ent file = good ([], file)
read_ents o nscns (suc n) ent file = do
  (buf, rest) ← fread symesz file
  e ← unpack_ent o 0 buf
  let first = elim ent as (λ _. Syment) [ none ↦ e | some f ↦ f ]
  (es, end) ← (if beyond nscns first then failed else read_ents o nscns n (some first) rest)
  good (e ∷ es, end)

-- `object` is the file from `obj->pos` on, and `file` from the current position on.
unfoldable pub readents : Order → Filhdr → List ℕ → List ℕ → Io (List Syment × List ℕ)
unfolding read_ents
readents o h object file =
    if h.f_nsyms == 0
    then good ([], file)
    else read_ents o h.f_nscns h.f_nsyms none (drop h.f_symptr object)

-- A string of the table, which ends in it.
unfoldable pub name_at : List ℕ → Io (List ℕ)
name_at [] = bad
name_at (c ∷ cs) = let rest = name_at cs in if c == 0 then good [] else (do s ← rest; good (c ∷ s))

abbrev pub long_max : ℕ
long_max = 2 ^ 63 - 1

-- The name of an entry goes to the end of the new table. The test is `len > strsiz - LONG_MAX`.
unfoldable pub add_name : List ℕ → List ℕ → Syment → Io (List ℕ)
unfolding name_at all_zero
add_name old new e =
    if all_zero e.n_name
    then (do
      name ← name_at (drop e.n_offset old)
      if ltb (length new) (length name + 1 + long_max)
          then failed
          else good (new ++ (name ++ (0 ∷ []))))
    else good new

-- The loop of `writeents`, the bytes that it writes and the new table. Past the entries there is
-- nothing to write.
unfoldable pub write_ents : Order → ℕ → List ℕ → List ℕ → List Syment → Io (List ℕ × List ℕ)
unfolding add_name pack_ent
write_ents o zero old new es = good ([], new)
write_ents o (suc n) old new [] = bad
write_ents o (suc n) old new (e ∷ es) = do
  new' ← add_name old new e
  buf ← pack_ent o e
  (bs, table) ← write_ents o n old new' es
  good (buf ++ bs, table)

unfoldable pub writeents : Order → Filhdr → Option (List Syment) → List ℕ → Io (List ℕ × List ℕ)
unfolding write_ents
writeents o h none strtbl = good ([], strtbl)
writeents o h (some es) strtbl = write_ents o h.f_nsyms strtbl [] es
