-- ===== src/Mach/Coff32/Entries.antt =====
-- The symbols that `coff32write` writes and `coff32read` reads again.
use mathlib.Core.Path.{subst}
use mathlib.Core.List.{append_assoc}
use simple_scc.Common.{
  Bool-cases, inl, inr, ℕ, zero, suc, ◌+◌, ◌*◌, ◌≡◌, ◌≢◌, refl, sym, ap, ◌∙◌, arith, true, false,
  ◌==◌, List, [], ◌∷◌, ◌++◌, Option, none, some, length, length-append, take, drop, ltb, All,
  if◌then◌else◌,
}
use simple_scc.Mach.Pack.Word.{Order}
use simple_scc.Mach.Pack.Format.{digits_value}
use simple_scc.Mach.Pack.RoundTrip.{Field, char, short, long, bytes, Fits, image, drop-length}
use simple_scc.Mach.Coff32.Io.{
  Io, good, failed, aborted, bad, ◌>>=◌, bind_good, length-image, packed-fields, unpacked-fields,
  fread-append,
}
use simple_scc.Mach.Coff32.Headers.{Filhdr}
use simple_scc.Mach.Coff32.Symbols.{
  Syment, symesz, pack_ent, unpack_ent, all_zero, beyond, read_ents, readents, name_at, long_max,
  add_name, write_ents, writeents,
}

abbrev pub ent_fields : Syment → List Field
ent_fields e =
    bytes b'8' [] e.n_name
    ∷ long e.n_value
    ∷ short e.n_scnum
    ∷ short e.n_type
    ∷ char e.n_sclass
    ∷ char e.n_numaux
    ∷ []

-- An entry whose fields fit in the file, with the name in place, in the first four bytes too. The offset,
-- which is not in the file, is zero.
pub record Named (e : Syment) : Type 0 where
  pub fits : All Fits (ent_fields e)
  pub named : all_zero (take 4 e.n_name) ≡ false
  pub no_offset : e.n_offset ≡ 0

images : Order → List Syment → List ℕ
images o [] = []
images o (e ∷ es) = image o (ent_fields e) ++ images o es

name_size : (e : Syment) → Named e → length e.n_name ≡ 8
unfolding digits_value
name_size e k = sym k.fits.0.2

all_zero-take : (n : ℕ) (bs : List ℕ) → all_zero (take n bs) ≡ false → all_zero bs ≡ false
unfolding all_zero
all_zero-take zero bs h = cc
all_zero-take (suc n) [] h = cc
all_zero-take (suc n) (b ∷ bs) h = ground (arith, all_zero-take n bs)

pack_ent-fields : (o : Order) (e : Syment) → Named e → pack_ent o e ≡ good (image o (ent_fields e))
unfolding pack_ent
pack_ent-fields o e k = packed-fields o (ent_fields e) symesz k.fits (omega (arith, name_size e k))

unpack_ent-fields :
    (o : Order) (e : Syment) → Named e → unpack_ent o 0 (image o (ent_fields e)) ≡ good e
unfolding unpack_ent
unpack_ent-fields o e k =
    rw (unpacked-fields o (ent_fields e) symesz k.fits (omega (arith, name_size e k)), k.named)
      (ap (λ n. good (record e { n_offset = n })) (sym k.no_offset))

add_name-Named : (old new : List ℕ) (e : Syment) → Named e → add_name old new e ≡ good new
unfolding add_name
add_name-Named old new e k = rw (all_zero-take 4 e.n_name k.named) refl

write_ents-images :
    (o : Order) (old new : List ℕ) (es : List Syment)
    → All Named es
    → write_ents o (length es) old new es ≡ good (images o es, new)
unfolding write_ents images
write_ents-images o old new [] k = refl
write_ents-images o old new (e ∷ es) k =
    rw (add_name-Named old new e k.0, pack_ent-fields o e k.0, write_ents-images o old new es k.1)
      refl

ent_size : (o : Order) (e : Syment) → Named e → length (image o (ent_fields e)) ≡ symesz
ent_size o e k = length-image o (ent_fields e) ∙ omega (arith, name_size e k)

length-images :
    (o : Order) (es : List Syment) → All Named es → length (images o es) ≡ symesz * length es
unfolding images
length-images o [] k = refl
length-images o (e ∷ es) k =
    length-append (image o (ent_fields e)) (images o es)
    ∙ omega (arith, ent_size o e k.0, length-images o es k.1)

-- The number of the section of the first entry, the only one that is tested.
abbrev pub FirstWithin : ℕ → List Syment → Type 0
FirstWithin nscns [] = Unit
FirstWithin nscns (e ∷ es) = beyond nscns e ≡ false

-- The entry that the test looks at.
abbrev tested : Option Syment → Syment → Syment
tested ent e = elim ent as (λ _. Syment) [ none ↦ e | some f ↦ f ]

read_ents-images :
    (o : Order) (nscns : ℕ) (ent : Option Syment) (es : List Syment) (rest : List ℕ)
    → All Named es
    → ((e : Syment) (more : List Syment) → es ≡ e ∷ more → beyond nscns (tested ent e) ≡ false)
    → read_ents o nscns (length es) ent (images o es ++ rest) ≡ good (es, rest)
unfolding read_ents images
read_ents-images o nscns ent [] rest k h = refl
read_ents-images o nscns ent (e ∷ es) rest k h =
    let first = tested ent e in
    rw
      (
        append_assoc (image o (ent_fields e)) (images o es) rest,
        fread-append (image o (ent_fields e)) (images o es ++ rest) symesz (ent_size o e k.0),
        unpack_ent-fields o e k.0,
        h e es refl,
        read_ents-images o nscns (some first) es rest k.1 (λ _ _ _. h e es refl),
      )
      refl

-- The entries of an object, whose names stand in place, are written, each with its eighteen bytes, and
-- read again as they were, wherever the symbols stand in the file; there are any, and the number of the
-- section of the first one is in range.
pub readents-writeents :
    (o : Order) (h : Filhdr) (es : List Syment) (strtbl front rest here : List ℕ)
    → All Named es
    → h.f_nsyms ≡ length es
    → h.f_nsyms ≢ 0
    → h.f_symptr ≡ length front
    → FirstWithin h.f_nscns es
    → (bs : List ℕ) × (writeents o h (some es) strtbl ≡ good (bs, []))
      × (length bs ≡ symesz * length es)
      × (readents o h (front ++ (bs ++ rest)) here ≡ good (es, rest))
unfolding writeents readents
readents-writeents o h es strtbl front rest here k n z p w =
    let some_entry : (h.f_nsyms == 0) ≡ false = ground arith in
    (
      images o es,
      rw n (write_ents-images o strtbl [] es k),
      length-images o es k,
      rw (some_entry, p, drop-length front (images o es ++ rest), n)
          (read_ents-images o h.f_nscns none es rest k
            (λ e more q. subst (FirstWithin h.f_nscns) q w)),
    )

failed-good : {new : List ℕ} → failed ≢ good new
failed-good h = cc

refused :
    (m : Io (List ℕ)) (f : List ℕ → List ℕ) {new : List ℕ}
    → (m >>= λ name. if ltb 0 (length name + 1 + long_max) then failed else good (f name))
      ≢ good new
refused (good name) f h =
    let big : ltb 0 (length name + 1 + long_max) ≡ true = ground arith in
    failed-good (sym (rw big refl) ∙ h)
refused failed f h = cc
refused aborted f h = cc
refused bad f h = cc

add_name-empty :
    (old new : List ℕ) (e : Syment)
    → add_name old [] e ≡ good new
    → (all_zero e.n_name ≡ false) × (new ≡ [])
unfolding add_name
add_name-empty old new e h =
    elim (Bool-cases (all_zero e.n_name)) as (λ _. (all_zero e.n_name ≡ false) × (new ≡ [])) [
      | inl t ↦
          absurd (
            refused (name_at (drop e.n_offset old)) (λ name. name ++ (0 ∷ []))
              (sym (rw t refl) ∙ h))
      | inr t ↦ (t, cc)
    ]

write_ents-all_zero :
    (o : Order) (n : ℕ) (old : List ℕ) (es : List Syment) (r : List ℕ × List ℕ)
    → write_ents o n old [] es ≡ good r
    → All (λ e. all_zero e.n_name ≡ false) (take n es)
unfolding write_ents
write_ents-all_zero o zero old es r h = tt
write_ents-all_zero o (suc n) old [] r h = cc
write_ents-all_zero o (suc n) old (e ∷ es) r h =
    let (new, e1, h1) = bind_good (add_name old [] e) _ h in
    let (named, empty) = add_name-empty old new e e1 in
    let (buf, e2, h2) = bind_good (pack_ent o e) _ h1 in
    let (rest, e3, h3) = bind_good (write_ents o n old new es) _ h2 in
    (
      named,
      write_ents-all_zero o n old es rest (ap (λ t. write_ents o n old t es) (sym empty) ∙ e3),
    )

-- `writeents` succeeds only where no entry to write has its name in the table of strings: the test of
-- the table's size refuses every such name.
pub writeents-all_zero :
    (o : Order) (h : Filhdr) (es : List Syment) (strtbl : List ℕ) (r : List ℕ × List ℕ)
    → writeents o h (some es) strtbl ≡ good r
    → All (λ e. all_zero e.n_name ≡ false) (take h.f_nsyms es)
unfolding writeents
writeents-all_zero o h es strtbl r e = write_ents-all_zero o h.f_nsyms strtbl es r e
