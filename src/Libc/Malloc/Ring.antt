-- ===== src/Libc/Malloc/Ring.antt =====
-- The ring of the free chunks, in the order of their addresses, and where `_prevchunk` finds the place of
-- a chunk.
use mathlib.Core.Path.{subst}
use simple_scc.Common.{
  ℕ, zero, suc, ◌+◌, ◌-◌, ◌*◌, ◌⊎◌, ◌≤◌, ◌<◌, ◌≡◌, ◌≢◌, refl, sym, ap, ◌∙◌, arith, true, false,
  List, [], ◌∷◌, ◌++◌, some, length, length-append, All, ltb, if◌then◌else◌, Bool-cases, inl, inr,
}
use simple_scc.Libc.Malloc.{Heap, is_prev, prevchunk_from, prevchunk}

-- Each chunk leads to the next one, and the last to `e`.
abbrev pub Ring : (ℕ → ℕ) → ℕ → List ℕ → Type 0
Ring next e [] = Unit
Ring next e (x ∷ []) = next x ≡ e
Ring next e (x ∷ y ∷ ys) = (next x ≡ y) × Ring next e (y ∷ ys)

abbrev pub Ascending : List ℕ → Type 0
Ascending [] = Unit
Ascending (x ∷ []) = Unit
Ascending (x ∷ y ∷ ys) = (x < y) × Ascending (y ∷ ys)

-- The last address of a list below another, from one that is.
abbrev pub last_below : ℕ → ℕ → List ℕ → ℕ
last_below hp p [] = p
last_below hp p (q ∷ qs) = if ltb q hp then last_below hp q qs else p

-- Upwards from a chunk below.
up :
    (next : ℕ → ℕ) (b hp n p : ℕ) (qs : List ℕ)
    → Ring next b (p ∷ qs)
    → Ascending (p ∷ qs)
    → All (λ q. q ≢ hp) qs
    → b ≤ p
    → p < hp
    → length qs < n
    → prevchunk_from n next hp p ≡ some (last_below hp p qs)
unfolding prevchunk_from is_prev
up next b hp zero p qs r a d l h f = absurd (omega arith)
up next b hp (suc n) p [] r a d l h f =
    let stop : is_prev hp p b ≡ true = ground arith in rw (r, stop) refl
up next b hp (suc n) p (q ∷ qs) r a d l h f = elim (Bool-cases (ltb q hp)) [
  | inl e ↦
      let go : is_prev hp p q ≡ false = ground arith in
      rw (r.0, go, e)
        (up next b hp n q qs r.1 a.1 d.1 (omega (arith, a.0)) (ground arith) (omega arith))
  | inr e ↦ let stop : is_prev hp p q ≡ true = ground (arith, d.0) in rw (r.0, stop, e) refl
]

-- The rounds from a chunk to the end of the ring, and `m` more.
rounds : ℕ → List ℕ → ℕ
rounds m [] = suc m
rounds m (q ∷ qs) = suc (rounds m qs)

rounds_lem : (m : ℕ) (qs : List ℕ) → rounds m qs ≡ suc (length qs + m)
unfolding rounds
rounds_lem m [] = omega arith
rounds_lem m (q ∷ qs) = let h = rounds_lem m qs in omega arith

-- From a chunk above, over the end of the ring.
around :
    (next : ℕ → ℕ) (b hp m p : ℕ) (qs : List ℕ)
    → Ring next b (p ∷ qs)
    → Ascending (p ∷ qs)
    → b < hp
    → hp < p
    → prevchunk_from (rounds m qs) next hp p ≡ prevchunk_from m next hp b
unfolding prevchunk_from is_prev rounds
around next b hp m p [] r a l h = let go : is_prev hp p b ≡ false = ground arith in rw (r, go) refl
around next b hp m p (q ∷ qs) r a l h =
    let go : is_prev hp p q ≡ false = ground (arith, a.0) in
    rw (r.0, go) (around next b hp m q qs r.1 a.1 l (omega (arith, a.0)))

-- A part of the ring up to its end.
pub Ring-suffix :
    (next : ℕ → ℕ) (e : ℕ) (xs : List ℕ) (p : ℕ) (qs : List ℕ)
    → Ring next e (xs ++ (p ∷ qs))
    → Ring next e (p ∷ qs)
Ring-suffix next e [] p qs r = r
Ring-suffix next e (x ∷ []) p qs r = r.1
Ring-suffix next e (x ∷ y ∷ ys) p qs r = Ring-suffix next e (y ∷ ys) p qs r.1

pub Ascending-suffix :
    (xs : List ℕ) (p : ℕ) (qs : List ℕ) → Ascending (xs ++ (p ∷ qs)) → Ascending (p ∷ qs)
Ascending-suffix [] p qs r = r
Ascending-suffix (x ∷ []) p qs r = r.1
Ascending-suffix (x ∷ y ∷ ys) p qs r = Ascending-suffix (y ∷ ys) p qs r.1

-- Where a later chunk is below, the last one is one of those from there on.
last_below-suffix :
    (hp x : ℕ) (xs : List ℕ) (p : ℕ) (qs : List ℕ)
    → Ascending (x ∷ (xs ++ (p ∷ qs)))
    → p < hp
    → (x < p) × (last_below hp x (xs ++ (p ∷ qs)) ≡ last_below hp p qs)
last_below-suffix hp x [] p qs a h = (a.0, ground arith)
last_below-suffix hp x (y ∷ ys) p qs a h =
    let (l, e) = last_below-suffix hp y ys p qs a.1 h in
    let below : ltb y hp ≡ true = ground arith in (omega (arith, a.0), rw below e)

All-suffix :
    (hp : ℕ) (xs : List ℕ) (p : ℕ) (qs : List ℕ)
    → All (λ q. q ≢ hp) (xs ++ (p ∷ qs))
    → (p ≢ hp) × All (λ q. q ≢ hp) qs
All-suffix hp [] p qs h = h
All-suffix hp (x ∷ xs) p qs h = All-suffix hp xs p qs h.1

-- The chunk is one of the list.
abbrev pub Member : ℕ → List ℕ → Type 0
Member p [] = ⊥
Member p (x ∷ xs) = (p ≡ x) ⊎ Member p xs

Member-split : (p : ℕ) (xs : List ℕ) → Member p xs → (ys zs : List ℕ) × (xs ≡ ys ++ (p ∷ zs))
Member-split p [] m = elim m [ ]
Member-split p (x ∷ xs) (inl e) = ([], xs, ap (λ y. y ∷ xs) (sym e))
Member-split p (x ∷ xs) (inr m) =
    let (ys, zs, e) = Member-split p xs m in (x ∷ ys, zs, ap (λ l. x ∷ l) e)

-- From a chunk behind the first one.
from_later :
    (next : ℕ → ℕ) (b hp n p : ℕ) (xs qs : List ℕ)
    → Ring next b (b ∷ (xs ++ (p ∷ qs)))
    → Ascending (b ∷ (xs ++ (p ∷ qs)))
    → All (λ q. q ≢ hp) (xs ++ (p ∷ qs))
    → b < hp
    → 2 * suc (length (xs ++ (p ∷ qs))) ≤ n
    → prevchunk_from n next hp p ≡ some (last_below hp b (xs ++ (p ∷ qs)))
from_later next b hp n p xs qs r a d l f =
    let size = length-append xs (p ∷ qs) in
    let r' = Ring-suffix next b (b ∷ xs) p qs r in
    let a' = Ascending-suffix (b ∷ xs) p qs a in
    let d' = All-suffix hp xs p qs d in
    elim (Bool-cases (ltb p hp)) [
      | inl e ↦
          let (below, same) = last_below-suffix hp b xs p qs a (ground arith) in
          up next b hp n p qs r' a' d'.1 (omega (arith, below)) (ground arith) (omega (arith, size))
          ∙ ap some (sym same)
      | inr e ↦
          let above : hp < p = ground (arith, d'.0) in
          let m = n - suc (length qs) in
          let count : n ≡ rounds m qs = omega (arith, rounds_lem m qs, size) in
          ap (λ k. prevchunk_from k next hp p) count
          ∙ around next b hp m p qs r' a' l above
          ∙ up next b hp m b (xs ++ (p ∷ qs)) r a d (omega arith) l (omega (arith, size))
    ]

-- Let the free chunks be a ring from the lowest one `b` up and back to it, with the last chunk that was
-- used among them, and let a chunk that is not free lie above `b`. Then `_prevchunk` ends, and finds the
-- last free chunk below it; two rounds of the ring are enough.
pub prevchunk_lem :
    (s : Heap) (b hp n : ℕ) (rs : List ℕ)
    → Ring s.next b (b ∷ rs)
    → Ascending (b ∷ rs)
    → Member s.freep (b ∷ rs)
    → All (λ q. q ≢ hp) rs
    → b < hp
    → 2 * suc (length rs) ≤ n
    → prevchunk n s hp ≡ some (last_below hp b rs)
unfolding prevchunk
prevchunk_lem s b hp n rs r a (inl e) d l f =
    ap (prevchunk_from n s.next hp) e ∙ up s.next b hp n b rs r a d (omega arith) l (omega arith)
prevchunk_lem s b hp n rs r a (inr m) d l f =
    let (xs, qs, e) = Member-split s.freep rs m in
    subst
      (λ l.
        Ring s.next b (b ∷ l)
        → Ascending (b ∷ l)
        → All (λ q. q ≢ hp) l
        → 2 * suc (length l) ≤ n
        → prevchunk_from n s.next hp s.freep ≡ some (last_below hp b l))
      (sym e) (λ r' a' d' f'. from_later s.next b hp n s.freep xs qs r' a' d' l f') r a d f
