-- ===== src/Libc/Str.antt =====
-- Functions of src/libc/string. A character is its byte, 0 … 255, and a pointer that is returned is
-- its distance from the argument.
pub mod Compare
pub mod Span
pub mod Move
pub mod Copy
mod Tests
use simple_scc.Common.{
  ℕ, zero, suc, ◌+◌, ◌-◌, Bool, true, false, not, ◌&&◌, ◌||◌, Option, none, some, List, [], ◌∷◌,
  ltb, ◌==◌, if◌then◌else◌,
}
use simple_scc.Common.Int.{ℤ, pos, sub_ℕ}
use simple_scc.Common.Ub.{Ub, ok, undefined, ◌>>=◌}

unfoldable pub strlen : List ℕ → Ub ℕ
strlen [] = undefined
strlen (c ∷ t) = if c == 0 then ok 0 else (do n ← strlen t; ok (suc n))

-- `memchr` with the count first; `i` characters are passed.
unfoldable pub memchr_loop : ℕ → ℕ → ℕ → List ℕ → Ub (Option ℕ)
memchr_loop zero c i s = ok none
memchr_loop (suc n) c i [] = undefined
memchr_loop (suc n) c i (b ∷ s) =
    let more = memchr_loop n c (suc i) s in if b == c then ok (some i) else more

unfoldable pub memchr : List ℕ → ℕ → ℕ → Ub (Option ℕ)
unfolding memchr_loop
memchr s c n = memchr_loop n c 0 s

unfoldable pub memcmp : List ℕ → List ℕ → ℕ → Ub ℤ
memcmp s t zero = ok (pos 0)
memcmp (a ∷ s) (b ∷ t) (suc n) = let more = memcmp s t n in if a == b then more else ok (sub_ℕ a b)
memcmp _ _ (suc n) = undefined

unfoldable pub strcmp : List ℕ → List ℕ → Ub ℤ
strcmp (a ∷ s) (b ∷ t) =
    let more = strcmp s t in if not (a == 0) && not (b == 0) && a == b then more else ok (sub_ℕ a b)
strcmp _ _ = undefined

-- It does not stop at a terminator: past equal terminators it compares what follows.
unfoldable pub strncmp : List ℕ → List ℕ → ℕ → Ub ℤ
strncmp s t zero = ok (pos 0)
strncmp (a ∷ s) (b ∷ t) (suc n) =
    let more = strncmp s t n in if a == b then more else ok (sub_ℕ a b)
strncmp _ _ (suc n) = undefined

unfoldable pub strchr_loop : ℕ → ℕ → List ℕ → Ub (Option ℕ)
strchr_loop c i [] = undefined
strchr_loop c i (a ∷ s) =
    let more = strchr_loop c (suc i) s in
    if not (a == 0) && not (a == c) then more else ok (if a == c then some i else none)

unfoldable pub strchr : List ℕ → ℕ → Ub (Option ℕ)
unfolding strchr_loop
strchr s c = strchr_loop c 0 s

-- __NUMCHARS, the size of the maps, on every architecture. An access behind it is undefined.
abbrev pub num_chars : ℕ
num_chars = 128

-- `while (ch = *reject++) map[ch] = 1;`
unfoldable pub char_map : List ℕ → (ℕ → Bool) → Ub (ℕ → Bool)
char_map [] map = undefined
char_map (a ∷ s) map =
    let more = char_map s (λ ch. if ch == a then true else map ch) in
    if a == 0 then ok map else if ltb a num_chars then more else undefined

-- How many characters at the front the test of the map lets through, up to the terminator.
unfoldable pub span : (ℕ → Bool) → List ℕ → Ub ℕ
span test [] = undefined
span test (a ∷ s) =
    let more = (do n ← span test s; ok (suc n)) in
    if a == 0 then ok 0 else if ltb a num_chars then (if test a then more else ok 0) else undefined

unfoldable pub strspn : List ℕ → List ℕ → Ub ℕ
unfolding char_map span
strspn s accept = do map ← char_map accept (λ _. false); span map s

unfoldable pub strcspn : List ℕ → List ℕ → Ub ℕ
unfolding char_map span
strcspn s reject = do map ← char_map reject (λ _. false); span (λ ch. not (map ch)) s

strpbrk_loop : (ℕ → Bool) → ℕ → List ℕ → Ub (Option ℕ)
strpbrk_loop map i [] = undefined
strpbrk_loop map i (a ∷ s) =
    let more = strpbrk_loop map (suc i) s in
    if a == 0
    then ok none
    else if ltb a num_chars
    then (if map a then ok (some i) else more)
    else undefined

unfoldable pub strpbrk : List ℕ → List ℕ → Ub (Option ℕ)
unfolding char_map strpbrk_loop
strpbrk s accept = do map ← char_map accept (λ _. false); strpbrk_loop map 0 s

-- Memory by addresses, for the functions whose objects may overlap.
abbrev pub Memory : Type 0
Memory = ℕ → ℕ

unfoldable pub write : Memory → ℕ → ℕ → Memory
write m a v b = if a == b then v else m b

-- `while (n-- > 0) *d++ = *s++;` and, from the ends, `*d-- = *s--`.
unfoldable pub copy_up : ℕ → ℕ → ℕ → Memory → Memory
unfolding write
copy_up zero d s m = m
copy_up (suc n) d s m = copy_up n (suc d) (suc s) (write m d (m s))

unfoldable pub copy_down : ℕ → ℕ → ℕ → Memory → Memory
unfolding write
copy_down zero d s m = m
copy_down (suc n) d s m = copy_down n d s (write m (d + n) (m (s + n)))

unfoldable pub memmove : ℕ → ℕ → ℕ → Memory → Memory
memmove d s n m = if ltb d s then copy_up n d s m else copy_down n d s m

unfoldable pub memcpy : ℕ → ℕ → ℕ → Memory → Memory
memcpy d s n m = copy_up n d s m

unfoldable pub memset : ℕ → ℕ → ℕ → Memory → Memory
unfolding write
memset a c zero m = m
memset a c (suc n) m = memset (suc a) c n (write m a c)

-- The destination of `strcpy` as it is left: it is written up to the terminator.
unfoldable pub strcpy : List ℕ → List ℕ → Ub (List ℕ)
strcpy (d ∷ dst) (a ∷ src) =
    if a == 0 then ok (0 ∷ dst) else (do rest ← strcpy dst src; ok (a ∷ rest))
strcpy _ _ = undefined

unfoldable pub strcat : List ℕ → List ℕ → Ub (List ℕ)
unfolding strcpy
strcat [] src = undefined
strcat (d ∷ dst) src =
    if d == 0 then strcpy (d ∷ dst) src else (do rest ← strcat dst src; ok (d ∷ rest))

-- `strncpy` pads with terminators, and writes none after `n` other characters.
pad : List ℕ → ℕ → Ub (List ℕ)
pad dst zero = ok dst
pad (d ∷ dst) (suc n) = do rest ← pad dst n; ok (0 ∷ rest)
pad [] (suc n) = undefined

unfoldable pub strncpy : List ℕ → List ℕ → ℕ → Ub (List ℕ)
unfolding pad
strncpy dst src zero = ok dst
strncpy (d ∷ dst) (a ∷ src) (suc n) =
    if a == 0 then pad (d ∷ dst) (suc n) else (do rest ← strncpy dst src n; ok (a ∷ rest))
strncpy _ _ (suc n) = undefined
