-- ===== src/Mach/Coff32/Tests.antt =====
-- The theorems on COFF files at a small object, and the line numbers, whose size is too small.
use simple_scc.Common.{
  ℕ, ◌+◌, ◌*◌, ◌≡◌, refl, arith, true, false, List, [], ◌∷◌, ◌++◌, Option, none, some, length, All,
}
use simple_scc.Mach.Pack.Format.{digits_value}
use simple_scc.Mach.Pack.Pack.{pack, pack_char}
use simple_scc.Mach.Pack.Word.{Order, little, big, short_bytes, long_bytes}
use simple_scc.Mach.Coff32.Io.{good, failed, bad, packed}
use simple_scc.Mach.Coff32.Headers.{
  Filhdr, Aouthdr, Scnhdr, filhsz, scnhsz, read_headers, write_headers,
}
use simple_scc.Mach.Coff32.Symbols.{
  Syment, Reloc, Lineno, symesz, beyond, pack_line, all_zero, readents, write_ents, writeents,
}
use simple_scc.Mach.Coff32.Front.{read_headers-write_headers}
use simple_scc.Mach.Coff32.Entries.{Named, readents-writeents, writeents-all_zero}
use simple_scc.Mach.Coff32.Relocs.{writereloc, readreloc}
use simple_scc.Mach.Coff32.Sections.{
  Placed, finished, without, relocated, left, readreloc-writereloc,
}

abbrev an_object : Filhdr
an_object = record {
  f_magic = 0x14c;
  f_nscns = 1;
  f_timdat = 0x5f000000;
  f_symptr = 2;
  f_nsyms = 1;
  f_opthdr = 0;
  f_flags = 0x105;
}

abbrev no_aout : Aouthdr
no_aout = record {
  magic = 0;
  vstamp = 0;
  tsize = 0;
  dsize = 0;
  bsize = 0;
  entry = 0;
  text_start = 0;
  data_start = 0;
}

abbrev text_section : Scnhdr
text_section = record {
  s_name = b'.' ∷ b't' ∷ b'e' ∷ b'x' ∷ b't' ∷ 0 ∷ 0 ∷ 0 ∷ [];
  s_paddr = 0;
  s_vaddr = 0x1000;
  s_size = 64;
  s_scnptr = 60;
  s_relptr = 124;
  s_lnnoptr = 144;
  s_nrelloc = 2;
  s_nlnno = 0;
  s_flags = 0x20;
}

abbrev main_entry : Syment
main_entry = record {
  n_name = b'm' ∷ b'a' ∷ b'i' ∷ b'n' ∷ 0 ∷ 0 ∷ 0 ∷ 0 ∷ [];
  n_offset = 0;
  n_value = 0x1000;
  n_scnum = 1;
  n_type = 0x20;
  n_sclass = 2;
  n_numaux = 0;
}

main_entry-Named : Named main_entry
unfolding all_zero digits_value
main_entry-Named = record { fits = omega arith; named = refl; no_offset = refl }

read_headers-write_headers_example :
    (bs : List ℕ) × (write_headers big true an_object no_aout (text_section ∷ []) ≡ good bs)
    × (length bs ≡ filhsz + scnhsz * 1)
    × (read_headers big no_aout (bs ++ (1 ∷ 2 ∷ []))
        ≡ good (an_object, no_aout, text_section ∷ [], 1 ∷ 2 ∷ []))
unfolding digits_value
read_headers-write_headers_example =
    read_headers-write_headers big true an_object no_aout no_aout (text_section ∷ []) (1 ∷ 2 ∷ [])
      (omega arith) refl refl (omega arith)

readents-writeents_example :
    (bs : List ℕ) × (writeents little an_object (some (main_entry ∷ [])) [] ≡ good (bs, []))
    × (length bs ≡ symesz * 1)
    × (readents little an_object (7 ∷ 7 ∷ (bs ++ (9 ∷ []))) [] ≡ good (main_entry ∷ [], 9 ∷ []))
unfolding beyond
readents-writeents_example =
    readents-writeents little an_object (main_entry ∷ []) [] (7 ∷ 7 ∷ []) (9 ∷ []) []
      (main_entry-Named, tt) refl (omega arith) refl refl

-- The bytes of the one entry.
main_bytes :
    (bs : List ℕ) × (writeents little an_object (some (main_entry ∷ [])) [] ≡ good (bs, []))
unfolding beyond
main_bytes =
    let (bs, e, l, r) =
      readents-writeents little an_object (main_entry ∷ []) [] (7 ∷ 7 ∷ []) [] []
        (main_entry-Named, tt) refl (omega arith) refl refl in
    (bs, e)

writeents-all_zero_example : All (λ e. all_zero e.n_name ≡ false) (main_entry ∷ [])
writeents-all_zero_example =
    writeents-all_zero little an_object (main_entry ∷ []) [] (main_bytes.0, []) main_bytes.1

-- Relocations of a section.
abbrev first_reloc : Reloc
first_reloc = record { r_vaddr = 4; r_symndx = 0; r_type = 6 }

abbrev zero_reloc : Reloc
zero_reloc = record { r_vaddr = 0; r_symndx = 0; r_type = 0 }

abbrev second_reloc : Reloc
second_reloc = record { r_vaddr = 8; r_symndx = 0; r_type = 20 }

-- A section with two relocations behind three bytes, one with none, and one with three.
abbrev three_sections : List Scnhdr
three_sections =
    record text_section { s_relptr = 3; s_nrelloc = 2 }
    ∷ record text_section { s_relptr = 0; s_nrelloc = 0 }
    ∷ record text_section { s_relptr = 23; s_nrelloc = 3 }
    ∷ []

abbrev three_relocs : List (Option (List Reloc))
three_relocs =
    some (first_reloc ∷ second_reloc ∷ [])
    ∷ none
    ∷ some (first_reloc ∷ first_reloc ∷ second_reloc ∷ [])
    ∷ []

three-Placed : Placed 1 0 3 three_sections three_relocs
three-Placed =
    relocated first_reloc refl refl refl (omega arith) (omega arith)
      (without refl (relocated second_reloc refl refl refl (omega arith) (omega arith) finished))

readreloc-writereloc_example :
    let header = record an_object { f_nscns = 3 } in
    (bs : List ℕ) × (writereloc little header three_sections (some three_relocs) ≡ good bs)
    × (readreloc little header three_sections ((1 ∷ 2 ∷ 3 ∷ []) ++ (bs ++ (4 ∷ [])))
        ≡ good (some (left 0 three_relocs)))
readreloc-writereloc_example =
    readreloc-writereloc little (record an_object { f_nscns = 3 }) three_sections three_relocs
      (1 ∷ 2 ∷ 3 ∷ []) (4 ∷ []) refl three-Placed

lost :
    left 0 three_relocs
    ≡ some (first_reloc ∷ zero_reloc ∷ [])
      ∷ none
      ∷ some (zero_reloc ∷ zero_reloc ∷ second_reloc ∷ [])
      ∷ []
lost = refl

-- A name in the table of strings is refused.
long_name :
    write_ents little 1
      (b'x' ∷ 0 ∷ [])
      []
      (record main_entry { n_name = 0 ∷ 0 ∷ 0 ∷ 0 ∷ 0 ∷ 0 ∷ 0 ∷ 0 ∷ [] } ∷ [])
    ≡ failed
unfolding write_ents
long_name = refl

-- The ten bytes of a line number do not fit in its buffer.
line_overflow : (o : Order) (l : Lineno) → pack_line o l ≡ bad
unfolding pack_line packed pack pack_char short_bytes long_bytes
line_overflow little l = refl
line_overflow big l = refl
