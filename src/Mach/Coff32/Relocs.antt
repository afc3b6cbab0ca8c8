-- ===== src/Mach/Coff32/Relocs.antt =====
-- The relocations of the sections, `readreloc` of coff32read.c and `writereloc` of coff32write.c.
use mathlib.Core.List.{append_assoc}
use simple_scc.Common.{
  ℕ, zero, suc, ◌+◌, ◌*◌, ◌<◌, ◌≡◌, refl, ap, ◌∙◌, arith, ◌==◌, List, [], ◌∷◌, ◌++◌, Option, none,
  some, length, length-append, drop, leb, All, false, if◌then◌else◌,
}
use simple_scc.Mach.Pack.Word.{Order}
use simple_scc.Mach.Pack.RoundTrip.{Field, short, long, Fits, image}
use simple_scc.Mach.Coff32.Io.{
  Io, good, failed, bad, ◌>>=◌, fread, length-image, packed-fields, unpacked-fields, fread-append,
}
use simple_scc.Mach.Coff32.Headers.{Filhdr, Scnhdr}
use simple_scc.Mach.Coff32.Symbols.{Reloc, relsz, pack_reloc, unpack_reloc}

-- The member `i` of an array; past its end is undefined.
abbrev pub member : ℕ → List Reloc → Io Reloc
member i [] = bad
member zero (r ∷ rs) = good r
member (suc i) (r ∷ rs) = member i rs

abbrev pub store : ℕ → Reloc → List Reloc → Io (List Reloc)
store i x [] = bad
store zero x (r ∷ rs) = good (x ∷ rs)
store (suc i) x (r ∷ rs) = do rs' ← store i x rs; good (r ∷ rs')

-- The relocations of section `i`: each round takes the member `i`, not the member of the round.
unfoldable pub write_relocs : Order → ℕ → ℕ → List Reloc → Io (List ℕ)
unfolding pack_reloc
write_relocs o i zero rp = good []
write_relocs o i (suc j) rp = do
  r ← member i rp
  buf ← pack_reloc o r
  bs ← write_relocs o i j rp
  good (buf ++ bs)

unfoldable pub write_sections :
    Order → ℕ → ℕ → List Scnhdr → List (Option (List Reloc)) → Io (List ℕ)
unfolding write_relocs
write_sections o i zero scns rels = good []
write_sections o i (suc n) (s ∷ scns) (none ∷ rels) = write_sections o (suc i) n scns rels
write_sections o i (suc n) (s ∷ scns) (some rp ∷ rels) = do
  bs ← write_relocs o i s.s_nrelloc rp
  more ← write_sections o (suc i) n scns rels
  good (bs ++ more)
write_sections o i (suc n) _ _ = bad

unfoldable pub writereloc :
    Order → Filhdr → List Scnhdr → Option (List (Option (List Reloc))) → Io (List ℕ)
unfolding write_sections
writereloc o h scns none = good []
writereloc o h scns (some rels) = write_sections o 0 h.f_nscns scns rels

-- What `calloc` gives.
abbrev pub cleared : ℕ → List Reloc
cleared zero = []
cleared (suc n) = record { r_vaddr = 0; r_symndx = 0; r_type = 0 } ∷ cleared n

unfoldable pub read_relocs : Order → ℕ → ℕ → ℕ → List Reloc → List ℕ → Io (List Reloc)
unfolding unpack_reloc
read_relocs o i nsyms zero rp file = good rp
read_relocs o i nsyms (suc j) rp file = do
  (buf, rest) ← fread relsz file
  r ← unpack_reloc o buf
  rp' ← store i r rp
  (if leb nsyms r.r_symndx then failed else read_relocs o i nsyms j rp' rest)

unfoldable pub read_sections :
    Order → ℕ → ℕ → ℕ → List Scnhdr → List ℕ → Io (List (Option (List Reloc)))
unfolding read_relocs
read_sections o i nsyms zero scns object = good []
read_sections o i nsyms (suc n) [] object = bad
read_sections o i nsyms (suc n) (s ∷ scns) object = do
  rp ←
      (if s.s_nrelloc == 0 then good none else (do
        rs ← read_relocs o i nsyms s.s_nrelloc (cleared s.s_nrelloc) (drop s.s_relptr object)
        good (some rs)))
  rels ← read_sections o (suc i) nsyms n scns object
  good (rp ∷ rels)

-- `object` is the file from `obj->pos` on.
unfoldable pub readreloc :
    Order → Filhdr → List Scnhdr → List ℕ → Io (Option (List (Option (List Reloc))))
unfolding read_sections
readreloc o h scns object =
    if h.f_nscns == 0
    then good none
    else (do rels ← read_sections o 0 h.f_nsyms h.f_nscns scns object; good (some rels))

abbrev pub reloc_fields : Reloc → List Field
reloc_fields r = long r.r_vaddr ∷ long r.r_symndx ∷ short r.r_type ∷ []

abbrev pub copies : ℕ → List ℕ → List ℕ
copies zero bs = []
copies (suc n) bs = bs ++ copies n bs

write_relocs-copies :
    (o : Order) (i n : ℕ) (rs : List Reloc) (r : Reloc)
    → member i rs ≡ good r
    → All Fits (reloc_fields r)
    → write_relocs o i n rs ≡ good (copies n (image o (reloc_fields r)))
unfolding write_relocs pack_reloc
write_relocs-copies o i zero rs r e f = refl
write_relocs-copies o i (suc n) rs r e f =
    rw (e, packed-fields o (reloc_fields r) relsz f refl, write_relocs-copies o i n rs r e f) refl

-- The array with one member replaced.
abbrev pub set : ℕ → Reloc → List Reloc → List Reloc
set i x [] = []
set zero x (r ∷ rs) = x ∷ rs
set (suc i) x (r ∷ rs) = r ∷ set i x rs

store-set : (i : ℕ) (x : Reloc) (rs : List Reloc) → i < length rs → store i x rs ≡ good (set i x rs)
store-set i x [] h = ground arith
store-set zero x (r ∷ rs) h = refl
store-set (suc i) x (r ∷ rs) h = rw (store-set i x rs (omega arith)) refl

set-set : (i : ℕ) (x : Reloc) (rs : List Reloc) → set i x (set i x rs) ≡ set i x rs
set-set i x [] = refl
set-set zero x (r ∷ rs) = refl
set-set (suc i) x (r ∷ rs) = ap (λ ts. r ∷ ts) (set-set i x rs)

length-set : (i : ℕ) (x : Reloc) (rs : List Reloc) → length (set i x rs) ≡ length rs
length-set i x [] = refl
length-set zero x (r ∷ rs) = refl
length-set (suc i) x (r ∷ rs) = ap suc (length-set i x rs)

length-cleared : (n : ℕ) → length (cleared n) ≡ n
length-cleared zero = refl
length-cleared (suc n) = ap suc (length-cleared n)

pub member-length : (i : ℕ) (rs : List Reloc) {r : Reloc} → member i rs ≡ good r → i < length rs
member-length i [] e = cc
member-length zero (r ∷ rs) e = omega arith
member-length (suc i) (r ∷ rs) e = let h = member-length i rs e in omega arith

read_relocs-image :
    (o : Order) (i nsyms n : ℕ) (rs : List Reloc) (r : Reloc) (more : List ℕ)
    → i < length rs
    → All Fits (reloc_fields r)
    → r.r_symndx < nsyms
    → read_relocs o i nsyms (suc n) rs (image o (reloc_fields r) ++ more)
      ≡ read_relocs o i nsyms n (set i r rs) more
unfolding read_relocs unpack_reloc
read_relocs-image o i nsyms n rs r more l f h =
    let room : leb nsyms r.r_symndx ≡ false = ground arith in
    let step =
      fread-append (image o (reloc_fields r)) more relsz (length-image o (reloc_fields r)) in
    rw (step, unpacked-fields o (reloc_fields r) relsz f refl, store-set i r rs l, room) refl

read_relocs-copies :
    (o : Order) (i nsyms n : ℕ) (rs : List Reloc) (r : Reloc) (rest : List ℕ)
    → i < length rs
    → All Fits (reloc_fields r)
    → r.r_symndx < nsyms
    → read_relocs o i nsyms (suc n) rs (copies (suc n) (image o (reloc_fields r)) ++ rest)
      ≡ good (set i r rs)
unfolding read_relocs
read_relocs-copies o i nsyms zero rs r rest l f h =
    rw (append_assoc (image o (reloc_fields r)) [] rest)
      (read_relocs-image o i nsyms zero rs r rest l f h)
read_relocs-copies o i nsyms (suc n) rs r rest l f h =
    let bs = image o (reloc_fields r) in
    let more = copies (suc n) bs in
    ap (read_relocs o i nsyms (suc (suc n)) rs) (append_assoc bs more rest)
    ∙ read_relocs-image o i nsyms (suc n) rs r (more ++ rest) l f h
    ∙ read_relocs-copies o i nsyms n (set i r rs) r rest (omega (arith, length-set i r rs)) f h
    ∙ ap good (set-set i r rs)

one-more : (a n : ℕ) → a + a * n ≡ a * suc n
one-more a n = omega arith

length-copies : (n : ℕ) (bs : List ℕ) → length (copies n bs) ≡ length bs * n
length-copies zero bs = omega arith
length-copies (suc n) bs =
    length-append bs (copies n bs)
    ∙ ap (λ m. length bs + m) (length-copies n bs)
    ∙ one-more (length bs) n

-- The relocations of one section: the relocation at the place `i` comes back there, and in place of all
-- others there is nothing but zeros.
pub read_relocs-write_relocs :
    (o : Order) (i nsyms : ℕ) (rs : List Reloc) (r : Reloc)
    → member i rs ≡ good r
    → All Fits (reloc_fields r)
    → r.r_symndx < nsyms
    → (bs : List ℕ) × (write_relocs o i (length rs) rs ≡ good bs)
      × (length bs ≡ relsz * length rs)
      × ((rest : List ℕ)
          → read_relocs o i nsyms (length rs) (cleared (length rs)) (bs ++ rest)
            ≡ good (set i r (cleared (length rs))))
read_relocs-write_relocs o i nsyms [] r e f h = cc
read_relocs-write_relocs o i nsyms (x ∷ xs) r e f h =
    let n = suc (length xs) in
    let l = member-length i (x ∷ xs) e in
    let bs = image o (reloc_fields r) in
    (
      copies n bs,
      write_relocs-copies o i n (x ∷ xs) r e f,
      length-copies n bs ∙ ap (λ m. m * n) (length-image o (reloc_fields r)),
      λ rest.
          read_relocs-copies o i nsyms (length xs) (cleared n) r rest
            (omega (arith, l, length-cleared n)) f h,
    )
