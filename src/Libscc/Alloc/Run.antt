-- ===== src/Libscc/Alloc/Run.antt =====
-- Calls of `new` and `delete` with writes of the program between them, and the blocks in use.
use mathlib.Core.Path.{subst}
use simple_scc.Common.{
  ℕ, suc, ◌+◌, ◌-◌, ◌*◌, ◌^◌, ◌≤◌, ◌<◌, ◌≡◌, ◌≢◌, refl, sym, ◌∙◌, arith, ◌||◌, List, [], ◌∷◌, ◌++◌,
  Option, none, some, All, All-map, All-append, All-split, All-insert, All-member, append_assoc,
  ◌⊎◌, inl, inr, leb, ◌==◌,
}
use simple_scc.Common.Ub.{ok, the, bind_ok, ok-inj, the_ok, guarded, some-inj}
use simple_scc.Libscc.Alloc.{
  Alloc, write, alloc, link_blocks, unit_of, newarena, refill, new, delete,
}
use simple_scc.Libscc.Alloc.Apart.{
  Off, Apart, Apart-insert, Apart-member, Apart-append, Free, Free-write, write-same, blocks,
  blocks-range, blocks-Apart, link_blocks-Free,
}

-- A block of the length `len` that lies in one of the arenas of `n` blocks.
pub data IsInside (len n x : ℕ) : List ℕ → Type 0 where
  here : {b : ℕ} {bs : List ℕ} → b ≤ x → x + len ≤ b + len * n → IsInside len n x (b ∷ bs)
  there : {b : ℕ} {bs : List ℕ} → IsInside len n x bs → IsInside len n x (b ∷ bs)

-- An area for an arena that does not overlap the arenas there are.
abbrev pub IsApart : ℕ → ℕ → Alloc → Type 0
IsApart hdr array a = All (Off (unit_of hdr a.size * a.nmemb) array) a.arena

-- What a program does with a pool of blocks, and the blocks it has in use: it may write any part of a
-- block that it has.
pub data Run (hdr : ℕ) : Alloc → List ℕ → Type 0 where
  created : (size nmemb : ℕ) (memory : ℕ → Option ℕ) → Run hdr (alloc size nmemb memory) []
  got :
      {a a' : Alloc} {us : List ℕ} (array p : ℕ)
      → Run hdr a us
      → IsApart hdr array a
      → new hdr array a ≡ ok (p, a')
      → Run hdr a' (p ∷ us)
  gave :
      {a : Alloc} (us vs : List ℕ) (p : ℕ)
      → Run hdr a (us ++ p ∷ vs)
      → Run hdr (delete p a) (us ++ vs)
  wrote :
      {a : Alloc} (us vs : List ℕ) (p q : ℕ) (v : Option ℕ)
      → Run hdr a (us ++ p ∷ vs)
      → p ≤ q
      → q < p + unit_of hdr a.size
      → Run hdr (record a { next = write q v a.next }) (us ++ p ∷ vs)

-- The free blocks `xs` and the blocks `us` in use.
pub record IsPool (hdr : ℕ) (a : Alloc) (xs us : List ℕ) : Type 0 where
  pub free : Free a.next a.freep xs
  pub apart : Apart (unit_of hdr a.size) (xs ++ us)
  pub inside : All (λ x. IsInside (unit_of hdr a.size) a.nmemb x a.arena) (xs ++ us)

none-some {ℓ} : {A : Type ℓ} {x : A} → none ≢ some x
none-some e = cc

Apart-behind : (len : ℕ) (xs us : List ℕ) → Apart len (xs ++ us) → Apart len us
Apart-behind len [] us d = d
Apart-behind len (x ∷ xs) us (f, d) = Apart-behind len xs us d

unit-pos : (hdr size : ℕ) → 0 < unit_of hdr size
unfolding unit_of
unit-pos hdr size = omega arith

taken :
    (hdr p : ℕ) (a : Alloc) (xs us : List ℕ)
    → IsPool hdr a (p ∷ xs) us
    → IsPool hdr (record a { freep = a.next p }) xs (p ∷ us)
taken hdr p a xs us w = record {
  free = w.free.1;
  apart = Apart-insert (unit_of hdr a.size) p xs us w.apart;
  inside =
      All-insert (λ x. IsInside (unit_of hdr a.size) a.nmemb x a.arena) p xs us w.inside.0
        w.inside.1;
}

not_in : (len q x p : ℕ) → 0 < len → p ≤ q → q < p + len → Off len p x → q ≢ x
not_in len q x p h l m (inl o) = λ e. omega (arith, e)
not_in len q x p h l m (inr o) = λ e. omega (arith, e)

-- A block in use brought to the front.
front-Apart :
    (len p : ℕ) (xs us vs : List ℕ)
    → Apart len (xs ++ (us ++ p ∷ vs))
    → Apart len (p ∷ xs ++ (us ++ vs))
front-Apart len p xs us vs d =
    let (f, e) =
      Apart-member len p (xs ++ us) vs (subst (Apart len) (sym (append_assoc xs us (p ∷ vs))) d) in
    (subst (All (Off len p)) (append_assoc xs us vs) f, subst (Apart len) (append_assoc xs us vs) e)

front-All :
    (P : ℕ → Type 0) (p : ℕ) (xs us vs : List ℕ)
    → All P (xs ++ (us ++ p ∷ vs))
    → All P (p ∷ xs ++ (us ++ vs))
front-All P p xs us vs d =
    let (h, f) =
      All-member P p (xs ++ us) vs (subst (All P) (sym (append_assoc xs us (p ∷ vs))) d) in
    (h, subst (All P) (append_assoc xs us vs) f)

-- The free list is kept where the program writes in a block.
Free-in :
    (hdr p q : ℕ) (v : Option ℕ) (a : Alloc) (xs us vs : List ℕ)
    → IsPool hdr a xs (us ++ p ∷ vs)
    → p ≤ q
    → q < p + unit_of hdr a.size
    → Free (write q v a.next) a.freep xs
Free-in hdr p q v a xs us vs w l m =
    let len = unit_of hdr a.size in
    let (o, d) = front-Apart len p xs us vs w.apart in
    let (f, g) = All-split (Off len p) xs (us ++ vs) o in
    Free-write a.next a.freep q v xs
      (All-map xs (λ x. not_in len q x p (unit-pos hdr a.size) l m) f) w.free

returned :
    (hdr p : ℕ) (a : Alloc) (xs us vs : List ℕ)
    → IsPool hdr a xs (us ++ p ∷ vs)
    → IsPool hdr (delete p a) (p ∷ xs) (us ++ vs)
unfolding delete
returned hdr p a xs us vs w = record {
  free = (
    refl,
    subst (λ r. Free (write p a.freep a.next) r xs) (sym (write-same a.next p a.freep))
        (Free-in hdr p p a.freep a xs us vs w (omega arith) (omega (arith, unit-pos hdr a.size))),
  );
  apart = front-Apart (unit_of hdr a.size) p xs us vs w.apart;
  inside = front-All (λ x. IsInside (unit_of hdr a.size) a.nmemb x a.arena) p xs us vs w.inside;
}

-- A block of an arena does not overlap a new arena.
inside-Off :
    (len n array x : ℕ) (bs : List ℕ)
    → 0 < n
    → IsInside len n x bs
    → All (Off (len * n) array) bs
    → (x + len ≤ array) ⊎ (array + len * n ≤ x)
inside-Off len n array x [] h i f = elim i [ ]
inside-Off len n array x (b ∷ bs) h (here l m) (inl o, f) = inr (omega arith)
inside-Off len n array x (b ∷ bs) h (here l m) (inr o, f) = inl (omega arith)
inside-Off len n array x (b ∷ bs) h (there i) (o, f) = inside-Off len n array x bs h i f

block-Off :
    (len n array x u : ℕ)
    → array ≤ x
    → x + len ≤ array + len * n
    → (u + len ≤ array) ⊎ (array + len * n ≤ u)
    → Off len x u
block-Off len n array x u h k (inl o) = inr (omega arith)
block-Off len n array x u h k (inr o) = inl (omega arith)

-- The pool with a new arena.
abbrev pub renewed : ℕ → ℕ → Alloc → Alloc
renewed hdr array a = record a {
  arena = array ∷ a.arena;
  freep = some array;
  next = link_blocks (a.nmemb - 1) (unit_of hdr a.size) array a.next;
}

-- What `newarena` returns where it returns.
pub record FreshArena (hdr array : ℕ) (a b : Alloc) : Type 0 where
  pub some_members : 0 < a.nmemb
  pub result : b ≡ renewed hdr array a

pub newarena-result :
    (hdr array : ℕ) (a b : Alloc) → newarena hdr array a ≡ ok b → FreshArena hdr array a b
unfolding newarena
newarena-result hdr array a b e =
    let (c, r) = guarded (a.nmemb == 0 || leb (2 ^ 64) (unit_of hdr a.size * hdr * a.nmemb)) e in
    record { some_members = ground (arith, c); result = sym r }

arena-IsPool :
    (hdr array : ℕ) (a : Alloc) (us : List ℕ)
    → IsPool hdr a [] us
    → IsApart hdr array a
    → 0 < a.nmemb
    → IsPool hdr (renewed hdr array a) (blocks (a.nmemb - 1) (unit_of hdr a.size) array) us
arena-IsPool hdr array a us w k h =
    let len = unit_of hdr a.size in
    let bs = blocks (a.nmemb - 1) len array in
    let bounds = blocks-range (a.nmemb - 1) len array in
    let n : suc (a.nmemb - 1) ≡ a.nmemb = omega (arith, h) in
    let off = All-map us (λ u i. inside-Off len a.nmemb array u a.arena h i k) w.inside in
    record {
      free = link_blocks-Free (a.nmemb - 1) len array a.next (unit-pos hdr a.size);
      apart = Apart-append len bs us (blocks-Apart (a.nmemb - 1) len array) w.apart (
          All-map bs
            (λ x r.
              All-map us
                (λ u.
                  block-Off len a.nmemb array x u (r.0)
                    (subst (λ m. x + len ≤ array + len * m) n (r.1)))
                off)
            bounds);
      inside =
          All-append (λ x. IsInside len a.nmemb x (array ∷ a.arena)) bs us
            (All-map bs (λ x r. here (r.0) (subst (λ m. x + len ≤ array + len * m) n (r.1))) bounds)
            (All-map us (λ u i. there i) w.inside);
    }

-- The pool when `new` has a free block, one of an arena that is new if there was none.
refill-IsPool :
    (hdr array : ℕ) (f : Option ℕ) (a b : Alloc) (xs us : List ℕ)
    → a.freep ≡ f
    → IsPool hdr a xs us
    → IsApart hdr array a
    → refill hdr array f a ≡ ok b
    → (ys : List ℕ) × IsPool hdr b ys us
unfolding refill
refill-IsPool hdr array (some p) a b xs us q w k e =
    (xs, subst (λ x. IsPool hdr x xs us) (ok-inj e) w)
refill-IsPool hdr array none a b [] us q w k e =
    let r = newarena-result hdr array a b e in
    let bs = blocks (a.nmemb - 1) (unit_of hdr a.size) array in
    (
      bs,
      subst (λ x. IsPool hdr x bs us) (sym r.result)
          (arena-IsPool hdr array a us w k r.some_members),
    )
refill-IsPool hdr array none a b (x ∷ xs) us q w k e = absurd (none-some (sym q ∙ w.free.0))

pop-IsPool :
    (hdr p : ℕ) (b : Alloc) (xs us : List ℕ)
    → IsPool hdr b xs us
    → b.freep ≡ some p
    → (ys : List ℕ) × IsPool hdr (record b { freep = b.next p }) ys (p ∷ us)
pop-IsPool hdr p b [] us w e = absurd (none-some (sym w.free ∙ e))
pop-IsPool hdr p b (x ∷ xs) us w e =
    let same : x ≡ p = some-inj (sym (w.free.0) ∙ e) in
    (
      xs,
      subst (λ y. IsPool hdr (record b { freep = b.next y }) xs (y ∷ us)) same
          (taken hdr x b xs us w),
    )

new-IsPool :
    (hdr array p : ℕ) (a a' : Alloc) (xs us : List ℕ)
    → IsPool hdr a xs us
    → IsApart hdr array a
    → new hdr array a ≡ ok (p, a')
    → (ys : List ℕ) × IsPool hdr a' ys (p ∷ us)
unfolding new
new-IsPool hdr array p a a' xs us w k e =
    let (b, e1, r1) = bind_ok (refill hdr array a.freep a) _ e in
    let (bp, e2, r2) = bind_ok (the b.freep) _ r1 in
    let (ys, v) = refill-IsPool hdr array a.freep a b xs us refl w k e1 in
    let (zs, z) = pop-IsPool hdr bp b ys us v (the_ok _ e2) in
    (zs, subst (λ (q : ℕ × Alloc). IsPool hdr q.1 zs (q.0 ∷ us)) (ok-inj r2) z)

Run-IsPool : (hdr : ℕ) (a : Alloc) (us : List ℕ) → Run hdr a us → (xs : List ℕ) × IsPool hdr a xs us
unfolding alloc
Run-IsPool hdr a us (created size nmemb memory) =
    ([], record { free = refl; apart = tt; inside = tt })
Run-IsPool hdr a us (got {a = b} {us = vs} array p r k e) =
    let (xs, w) = Run-IsPool hdr b vs r in new-IsPool hdr array p b a xs vs w k e
Run-IsPool hdr a us (gave {a = b} ls rs p r) =
    let (xs, w) = Run-IsPool hdr b (ls ++ p ∷ rs) r in (p ∷ xs, returned hdr p b xs ls rs w)
Run-IsPool hdr a us (wrote {a = b} ls rs p q v r l m) =
    let (xs, w) = Run-IsPool hdr b (ls ++ p ∷ rs) r in
    (xs, record { free = Free-in hdr p q v b xs ls rs w l m; apart = w.apart; inside = w.inside })

-- In a pool, after any calls of `new` and `delete` and any writes of the program in the blocks that it
-- has, the blocks in use do not overlap, and each lies in an arena. A new arena does not overlap the
-- others.
pub Run-Apart :
    (hdr : ℕ) (a : Alloc) (us : List ℕ)
    → Run hdr a us
    → Apart (unit_of hdr a.size) us × All (λ x. IsInside (unit_of hdr a.size) a.nmemb x a.arena) us
Run-Apart hdr a us r =
    let (xs, w) = Run-IsPool hdr a us r in
    (
      Apart-behind (unit_of hdr a.size) xs us w.apart,
      (All-split (λ x. IsInside (unit_of hdr a.size) a.nmemb x a.arena) xs us w.inside).1,
    )
