-- ===== src/Mach/Coff32/Sections.antt =====
-- The relocations of all sections, which `writereloc` writes and `readreloc` finds by the headers.
use mathlib.Core.List.{append_assoc}
use mathlib.Core.Path.{subst}
use simple_scc.Common.{
  ℕ, zero, suc, ◌+◌, ◌*◌, ◌<◌, ◌≡◌, refl, sym, ap, ◌∙◌, arith, ◌==◌, List, [], ◌∷◌, ◌++◌, Option,
  none, some, length, length-append, drop, All, false, if◌then◌else◌, Bool-cases, inl, inr,
}
use simple_scc.Mach.Pack.Word.{Order}
use simple_scc.Mach.Pack.RoundTrip.{Fits, drop-length}
use simple_scc.Mach.Coff32.Io.{good}
use simple_scc.Mach.Coff32.Headers.{Filhdr, Scnhdr}
use simple_scc.Mach.Coff32.Symbols.{Reloc, relsz}
use simple_scc.Mach.Coff32.Relocs.{
  member, cleared, set, reloc_fields, write_relocs, read_relocs, write_sections, read_sections,
  writereloc, readreloc, member-length, read_relocs-write_relocs,
}

-- The sections from the number `i` on, with their relocations, the first of which are at `place` in the
-- file and the others behind them. A section `i` with relocations has one with the number `i`, whose
-- fields fit in the file and whose symbol is in the table.
pub data Placed (nsyms : ℕ) : ℕ → ℕ → List Scnhdr → List (Option (List Reloc)) → Type 0 where
  finished : {i place : ℕ} → Placed nsyms i place [] []
  without :
      {i place : ℕ} {s : Scnhdr} {scns : List Scnhdr} {rels : List (Option (List Reloc))}
      → s.s_nrelloc ≡ 0
      → Placed nsyms (suc i) place scns rels
      → Placed nsyms i place (s ∷ scns) (none ∷ rels)
  relocated :
      {i place : ℕ} {s : Scnhdr} {scns : List Scnhdr} {rels : List (Option (List Reloc))}
      {rp : List Reloc} (r : Reloc)
      → s.s_nrelloc ≡ length rp
      → s.s_relptr ≡ place
      → member i rp ≡ good r
      → All Fits (reloc_fields r)
      → r.r_symndx < nsyms
      → Placed nsyms (suc i) (place + relsz * length rp) scns rels
      → Placed nsyms i place (s ∷ scns) (some rp ∷ rels)

-- The array with nothing but zeros around its member `i`.
abbrev pub only : ℕ → List Reloc → List Reloc
only i [] = []
only zero (r ∷ rs) = r ∷ cleared (length rs)
only (suc i) (r ∷ rs) = record { r_vaddr = 0; r_symndx = 0; r_type = 0 } ∷ only i rs

-- What is left of the relocations of the sections from the number `i` on.
abbrev pub left : ℕ → List (Option (List Reloc)) → List (Option (List Reloc))
left i [] = []
left i (none ∷ rels) = none ∷ left (suc i) rels
left i (some rp ∷ rels) = some (only i rp) ∷ left (suc i) rels

good-inj : {x y : Reloc} → good x ≡ good y → x ≡ y
good-inj e = cc

set-only :
    (i : ℕ) (rs : List Reloc) (r : Reloc)
    → member i rs ≡ good r
    → set i r (cleared (length rs)) ≡ only i rs
set-only i [] r e = cc
set-only zero (x ∷ rs) r e = ap (λ y. y ∷ cleared (length rs)) (good-inj (sym e))
set-only (suc i) (x ∷ rs) r e =
    ap (λ ys. record { r_vaddr = 0; r_symndx = 0; r_type = 0 } ∷ ys) (set-only i rs r e)

read_without :
    (o : Order) (i nsyms n : ℕ) (s : Scnhdr) (scns : List Scnhdr) (object : List ℕ)
    {rels : List (Option (List Reloc))}
    → s.s_nrelloc ≡ 0
    → read_sections o (suc i) nsyms n scns object ≡ good rels
    → read_sections o i nsyms (suc n) (s ∷ scns) object ≡ good (none ∷ rels)
unfolding read_sections
read_without o i nsyms n s scns object z e = rw (z, e) refl

read_with :
    (o : Order) (i nsyms n : ℕ) (s : Scnhdr) (scns : List Scnhdr) (object : List ℕ) {k : ℕ}
    {file : List ℕ} {rs : List Reloc} {rels : List (Option (List Reloc))}
    → s.s_nrelloc ≡ k
    → (k == 0) ≡ false
    → drop s.s_relptr object ≡ file
    → read_relocs o i nsyms k (cleared k) file ≡ good rs
    → read_sections o (suc i) nsyms n scns object ≡ good rels
    → read_sections o i nsyms (suc n) (s ∷ scns) object ≡ good (some rs ∷ rels)
unfolding read_sections
read_with o i nsyms n s scns object m z d e f = rw (m, z, d, e, f) refl

write_with :
    (o : Order) (i n : ℕ) (s : Scnhdr) (scns : List Scnhdr) (rp : List Reloc)
    (rels : List (Option (List Reloc))) {bs more : List ℕ}
    → write_relocs o i s.s_nrelloc rp ≡ good bs
    → write_sections o (suc i) n scns rels ≡ good more
    → write_sections o i (suc n) (s ∷ scns) (some rp ∷ rels) ≡ good (bs ++ more)
unfolding write_sections
write_with o i n s scns rp rels e f = rw (e, f) refl

sections_moved :
    (o : Order) (i nsyms place : ℕ) (scns : List Scnhdr) (rels : List (Option (List Reloc)))
    (front rest : List ℕ)
    → length front ≡ place
    → Placed nsyms i place scns rels
    → (bs : List ℕ) × (write_sections o i (length scns) scns rels ≡ good bs)
      × (read_sections o i nsyms (length scns) scns (front ++ (bs ++ rest)) ≡ good (left i rels))
unfolding write_sections read_sections
sections_moved o i nsyms place [] [] front rest q finished = ([], refl, refl)
sections_moved o i nsyms place [] (x ∷ rels) front rest q w = elim w [ ]
sections_moved o i nsyms place (s ∷ scns) [] front rest q w = elim w [ ]
sections_moved o i nsyms place (s ∷ scns) (none ∷ rels) front rest q (without z w) =
    let (bs, e, f) = sections_moved o (suc i) nsyms place scns rels front rest q w in
    (bs, e, read_without o i nsyms (length scns) s scns (front ++ (bs ++ rest)) z f)
sections_moved o i nsyms place (s ∷ scns) (some rp ∷ rels) front rest q (relocated r n a e f h w) =
    let (bs, wr, len, re) = read_relocs-write_relocs o i nsyms rp r e f h in
    let q' : length (front ++ bs) ≡ place + relsz * length rp =
      omega (arith, length-append front bs, len, q) in
    let (more, wm, rm) =
      sections_moved o (suc i) nsyms (place + relsz * length rp) scns rels (front ++ bs) rest q'
        w in
    let some_relocs : (length rp == 0) ≡ false = ground (arith, member-length i rp e) in
    let found : drop s.s_relptr (front ++ (bs ++ (more ++ rest))) ≡ bs ++ (more ++ rest) =
      subst (λ m. drop m (front ++ (bs ++ (more ++ rest))) ≡ bs ++ (more ++ rest)) (q ∙ sym a)
        (drop-length front (bs ++ (more ++ rest))) in
    (
      bs ++ more,
      write_with o i (length scns) s scns rp rels (rw n wr) wm,
      subst
          (λ x.
            read_sections o i nsyms (suc (length scns)) (s ∷ scns) x
            ≡ good (some (only i rp) ∷ left (suc i) rels))
          (ap (λ x. front ++ x) (sym (append_assoc bs more rest)))
          (read_with o i nsyms (length scns) s scns (front ++ (bs ++ (more ++ rest))) n some_relocs
            found (re (more ++ rest) ∙ ap good (set-only i rp r e))
            (subst
              (λ x. read_sections o (suc i) nsyms (length scns) scns x ≡ good (left (suc i) rels))
              (append_assoc front bs (more ++ rest)) rm)),
    )

-- The relocations of all sections come through `writereloc` and `readreloc` like this: of those of
-- section `i` the one with the number `i` comes back at its place, and there is nothing but zeros in
-- place of all others, and a section without relocations has none. The file header has the number of
-- sections. A section without relocations says so in its header. The header of any other one has the
-- number of its relocations and the place in the file that they are written at, which is behind those
-- of the sections before it, and one of its relocations has the number of the section; the fields of
-- this one fit in the file, and its symbol is in the table.
pub readreloc-writereloc :
    (o : Order) (h : Filhdr) (scns : List Scnhdr) (rels : List (Option (List Reloc)))
    (front rest : List ℕ)
    → h.f_nscns ≡ length scns
    → Placed h.f_nsyms 0 (length front) scns rels
    → (bs : List ℕ) × (writereloc o h scns (some rels) ≡ good bs)
      × (readreloc o h scns (front ++ (bs ++ rest))
          ≡ good (if h.f_nscns == 0 then none else some (left 0 rels)))
unfolding writereloc readreloc
readreloc-writereloc o h scns rels front rest n w =
    let (bs, e, f) = sections_moved o 0 h.f_nsyms (length front) scns rels front rest refl w in
    (
      bs,
      rw (n, e) refl,
      elim (Bool-cases (h.f_nscns == 0)) [ inl z ↦ rw z refl | inr z ↦ rw (z, n, f) refl ],
    )
