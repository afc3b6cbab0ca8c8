-- ===== src/Libc/Malloc/Units.antt =====
-- The free chunks after `free`: a ring again, with the units of the freed chunk.
use mathlib.Core.Path.{subst}
use simple_scc.Common.{
  ℕ, suc, ◌+◌, ◌*◌, ◌≤◌, ◌<◌, ◌≡◌, ◌≢◌, refl, sym, ap, ◌∙◌, arith, ◌||◌, ◌==◌, List, [], ◌∷◌, ◌++◌,
  some, length, All, ltb, if◌then◌else◌, Bool-cases, inl, inr,
}
use simple_scc.Libc.Malloc.{Heap, prevchunk, merge, free}
use simple_scc.Libc.Malloc.Ring.{
  Ring, Ascending, Member, last_below, Ring-suffix, Ascending-suffix, prevchunk_lem,
}
use simple_scc.Libc.Malloc.Free.{
  within, covers, covers-append, covers-same, Ring-same, Ring-prefix, Ring-append, first_of, after,
  behind, freed, after-other, Ring-freed, covers-freed, or_assoc,
}

Above-Ascending :
    (hp q : ℕ) (qs : List ℕ) → Ascending (q ∷ qs) → hp < q → All (λ y. hp < y) (q ∷ qs)
Above-Ascending hp q [] a h = (h, tt)
Above-Ascending hp q (y ∷ ys) a h = (h, Above-Ascending hp y ys a.1 (omega (arith, a.0)))

-- The ring at the place of a chunk.
record Place (hp p : ℕ) (rs : List ℕ) (at : ℕ) : Type 0 where
  lower : List ℕ
  upper : List ℕ
  parts : p ∷ rs ≡ lower ++ (at ∷ upper)
  above : All (λ y. hp < y) upper
  below : All (λ x. x < at) lower
  before : at < hp
  from : p ≤ at

last_below-Place :
    (hp p : ℕ) (rs : List ℕ)
    → Ascending (p ∷ rs)
    → All (λ q. q ≢ hp) rs
    → p < hp
    → Place hp p rs (last_below hp p rs)
last_below-Place hp p [] a d h = record {
  lower = [];
  upper = [];
  parts = refl;
  above = tt;
  below = tt;
  before = h;
  from = omega arith;
}
last_below-Place hp p (q ∷ qs) a d h = elim (Bool-cases (ltb q hp)) [
  | inl e ↦
      let k = last_below-Place hp q qs a.1 d.1 (ground arith) in
      rw e (record {
        lower = p ∷ k.lower;
        upper = k.upper;
        parts = ap (λ l. p ∷ l) k.parts;
        above = k.above;
        below = (omega (arith, a.0, k.from), k.below);
        before = k.before;
        from = omega (arith, a.0, k.from);
      })
  | inr e ↦
      let over : hp < q = ground (arith, d.0) in
      rw e (record {
        lower = [];
        upper = q ∷ qs;
        parts = refl;
        above = Above-Ascending hp q qs a.1 over;
        below = tt;
        before = h;
        from = omega arith;
      })
]

Ascending-lower : (q x : ℕ) (xs : List ℕ) → q < x → Ascending (x ∷ xs) → Ascending (q ∷ xs)
Ascending-lower q x [] h a = tt
Ascending-lower q x (y ∷ ys) h a = (omega (arith, a.0), a.1)

Ascending-above : (x : ℕ) (ys : List ℕ) → Ascending ys → All (λ y. x < y) ys → Ascending (x ∷ ys)
Ascending-above x [] a h = tt
Ascending-above x (y ∷ ys) a h = (h.0, a)

Ascending-tail : (x : ℕ) (ys : List ℕ) → Ascending (x ∷ ys) → Ascending ys
Ascending-tail x [] a = tt
Ascending-tail x (y ∷ ys) a = a.1

Ascending-behind :
    (s : Heap) (hp : ℕ) (ys : List ℕ)
    → Ascending ys
    → All (λ y. hp < y) ys
    → Ascending (hp ∷ behind s hp ys)
Ascending-behind s hp [] a h = tt
Ascending-behind s hp (y ∷ ys) a h = elim (Bool-cases (hp + s.size hp == y)) [
  | inl e ↦ rw e (Ascending-above hp ys (Ascending-tail y ys a) h.1)
  | inr e ↦ rw e (h.0, a)
]

Ascending-freed :
    (s : Heap) (hp q : ℕ) (ys : List ℕ)
    → Ascending (q ∷ ys)
    → All (λ y. hp < y) ys
    → q < hp
    → Ascending (freed s hp q ys)
Ascending-freed s hp q ys a h l =
    let rest = Ascending-behind s hp ys (Ascending-tail q ys a) h in
    elim (Bool-cases (q + s.size q == hp)) [
      | inl e ↦ rw e (Ascending-lower q hp (behind s hp ys) l rest)
      | inr e ↦ rw e (l, rest)
    ]

Ascending-append :
    (xs : List ℕ) (q : ℕ) (ys zs : List ℕ)
    → Ascending (xs ++ (q ∷ ys))
    → Ascending (q ∷ zs)
    → Ascending (xs ++ (q ∷ zs))
Ascending-append [] q ys zs a b = b
Ascending-append (x ∷ []) q ys zs a b = (a.0, b)
Ascending-append (x ∷ y ∷ xs) q ys zs a b = (a.0, Ascending-append (y ∷ xs) q ys zs a.1 b)

Member-append : (q : ℕ) (xs ys : List ℕ) → Member q (xs ++ (q ∷ ys))
Member-append q [] ys = inl refl
Member-append q (x ∷ xs) ys = inr (Member-append q xs ys)

first-append :
    (e : ℕ) (xs : List ℕ) (q : ℕ) (ys zs : List ℕ)
    → first_of e (xs ++ (q ∷ ys)) ≡ first_of e (xs ++ (q ∷ zs))
first-append e [] q ys zs = refl
first-append e (x ∷ xs) q ys zs = refl

same-below :
    (s : Heap) (hp q : ℕ) (xs : List ℕ)
    → q < hp
    → All (λ x. x < q) xs
    → All (λ x. s.next x ≡ (after hp q s).next x) xs
      × All (λ x. s.size x ≡ (after hp q s).size x) xs
same-below s hp q [] l h = (tt, tt)
same-below s hp q (x ∷ xs) l h =
    let (e, f) = after-other s hp q x (λ p. omega (arith, h.0, p)) (λ p. omega (arith, h.0, p)) in
    let (es, fs) = same-below s hp q xs l h.1 in ((sym e, es), (sym f, fs))

free-found :
    (n hp q : ℕ) (s : Heap) → prevchunk n s hp ≡ some q → free n (some hp) s ≡ some (after hp q s)
unfolding free merge
free-found n hp q s e = ap (merge hp s) e

-- Let the free chunks be a ring from the lowest one `b` up and back to it, with the last chunk that was
-- used among them, and let a chunk that is not free lie above `b`. Then `free` of that chunk ends, two
-- rounds of the ring being enough. It leaves a ring of chunks from `b` up and back to it, with the last
-- chunk that was used among them, and they hold the free units of before and the units of the freed
-- chunk, and no other.
pub free_lem :
    (s : Heap) (b hp n : ℕ) (rs : List ℕ)
    → Ring s.next b (b ∷ rs)
    → Ascending (b ∷ rs)
    → Member s.freep (b ∷ rs)
    → All (λ q. q ≢ hp) rs
    → b < hp
    → 2 * suc (length rs) ≤ n
    → (s' : Heap) × (cs : List ℕ) × (free n (some hp) s ≡ some s')
      × (first_of b cs ≡ b)
      × Ring s'.next b cs
      × Ascending cs
      × Member s'.freep cs
      × ((u : ℕ) → covers s'.size cs u ≡ (covers s.size (b ∷ rs) u || within hp (s.size hp) u))
free_lem s b hp n rs r a f d l m =
    let q = last_below hp b rs in
    let k = last_below-Place hp b rs a d l in
    let s' = after hp q s in
    let found = prevchunk_lem s b hp n rs r a f d l m in
    let r' = subst (Ring s.next b) k.parts r in
    let a' = subst Ascending k.parts a in
    let suffix = Ring-suffix s.next b k.lower q k.upper r' in
    let (nexts, sizes) = same-below s hp q k.lower k.before k.below in
    let zs = if q + s.size q == hp then behind s hp k.upper else hp ∷ behind s hp k.upper in
    let cs = k.lower ++ (q ∷ zs) in
    (
      s',
      cs,
      free-found n hp q s found,
      first-append b k.lower q zs k.upper ∙ sym (ap (first_of b) k.parts),
      Ring-append s'.next b k.lower q zs
          (Ring-same s.next s'.next q k.lower nexts (Ring-prefix s.next b k.lower q k.upper r'))
          (Ring-freed s b hp q k.upper suffix k.above k.before k.from),
      Ascending-append k.lower q k.upper zs a'
          (Ascending-freed s hp q k.upper (Ascending-suffix k.lower q k.upper a') k.above k.before),
      Member-append q k.lower zs,
      λ u.
          covers-append s'.size k.lower (q ∷ zs) u
          ∙ ap (λ c. c || covers s'.size (q ∷ zs) u)
              (sym (covers-same s.size s'.size k.lower u sizes))
          ∙ ap (λ c. covers s.size k.lower u || c)
              (covers-freed s b hp q k.upper u suffix k.above k.before k.from)
          ∙ sym (
              or_assoc (covers s.size k.lower u) (covers s.size (q ∷ k.upper) u)
                (within hp (s.size hp) u))
          ∙ ap (λ c. c || within hp (s.size hp) u)
              (sym (covers-append s.size k.lower (q ∷ k.upper) u)
                ∙ sym (ap (λ l. covers s.size l u) k.parts)),
    )
