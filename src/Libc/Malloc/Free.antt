-- ===== src/Libc/Malloc/Free.antt =====
-- What `free` makes of the ring of the free chunks.
use simple_scc.Common.{
  ℕ, ◌+◌, ◌≤◌, ◌<◌, ◌≡◌, ◌≢◌, refl, sym, ap, ◌∙◌, arith, Bool, true, false, ◌&&◌, ◌||◌, ◌==◌, List,
  [], ◌∷◌, ◌++◌, All, ltb, leb, if◌then◌else◌, Bool-cases, inl, inr,
}
use simple_scc.Libc.Malloc.{Heap, set, join_next, join_prev}
use simple_scc.Libc.Malloc.Ring.{Ring}

-- A unit is in a chunk, and in one of the chunks.
abbrev pub within : ℕ → ℕ → ℕ → Bool
within x n u = leb x u && ltb u (x + n)

abbrev pub covers : (ℕ → ℕ) → List ℕ → ℕ → Bool
covers size [] u = false
covers size (x ∷ xs) u = within x (size x) u || covers size xs u

pub covers-append :
    (size : ℕ → ℕ) (xs ys : List ℕ) (u : ℕ)
    → covers size (xs ++ ys) u ≡ (covers size xs u || covers size ys u)
covers-append size [] ys u = refl
covers-append size (x ∷ xs) ys u = ground (arith, covers-append size xs ys u)

pub covers-same :
    (f g : ℕ → ℕ) (xs : List ℕ) (u : ℕ) → All (λ x. f x ≡ g x) xs → covers f xs u ≡ covers g xs u
covers-same f g [] u h = refl
covers-same f g (x ∷ xs) u h = rw (h.0, covers-same f g xs u h.1) refl

pub Ring-same :
    (f g : ℕ → ℕ) (e : ℕ) (xs : List ℕ) → All (λ x. f x ≡ g x) xs → Ring f e xs → Ring g e xs
Ring-same f g e [] h r = tt
Ring-same f g e (x ∷ []) h r = sym h.0 ∙ r
Ring-same f g e (x ∷ y ∷ ys) h r = (sym h.0 ∙ r.0, Ring-same f g e (y ∷ ys) h.1 r.1)

pub Ring-prefix :
    (f : ℕ → ℕ) (e : ℕ) (xs : List ℕ) (q : ℕ) (ys : List ℕ)
    → Ring f e (xs ++ (q ∷ ys))
    → Ring f q xs
Ring-prefix f e [] q ys r = tt
Ring-prefix f e (x ∷ []) q ys r = r.0
Ring-prefix f e (x ∷ y ∷ xs) q ys r = (r.0, Ring-prefix f e (y ∷ xs) q ys r.1)

pub Ring-append :
    (f : ℕ → ℕ) (e : ℕ) (xs : List ℕ) (q : ℕ) (ys : List ℕ)
    → Ring f q xs
    → Ring f e (q ∷ ys)
    → Ring f e (xs ++ (q ∷ ys))
Ring-append f e [] q ys r k = k
Ring-append f e (x ∷ []) q ys r k = (r, k)
Ring-append f e (x ∷ y ∷ xs) q ys r k = (r.0, Ring-append f e (y ∷ xs) q ys r.1 k)

-- Where a list of chunks starts, or the end of the ring.
abbrev pub first_of : ℕ → List ℕ → ℕ
first_of e [] = e
first_of e (y ∷ ys) = y

Ring-cons :
    (f : ℕ → ℕ) (e x : ℕ) (ys : List ℕ) → f x ≡ first_of e ys → Ring f e ys → Ring f e (x ∷ ys)
Ring-cons f e x [] h r = h
Ring-cons f e x (y ∷ ys) h r = (h, r)

Ring-uncons :
    (f : ℕ → ℕ) (e x : ℕ) (ys : List ℕ) → Ring f e (x ∷ ys) → (f x ≡ first_of e ys) × Ring f e ys
Ring-uncons f e x [] r = (r, tt)
Ring-uncons f e x (y ∷ ys) r = r

-- `free` behind the search, and the chunks behind the one before the freed chunk.
abbrev pub after : ℕ → ℕ → Heap → Heap
after hp q s = record (join_prev hp q (join_next hp (s.next q) s)) { freep = q }

abbrev pub behind : Heap → ℕ → List ℕ → List ℕ
behind s hp [] = []
behind s hp (y ∷ ys) = if hp + s.size hp == y then ys else y ∷ ys

abbrev pub freed : Heap → ℕ → ℕ → List ℕ → List ℕ
freed s hp q ys = q ∷ (if q + s.size q == hp then behind s hp ys else hp ∷ behind s hp ys)

pub after-other :
    (s : Heap) (hp q x : ℕ)
    → x ≢ q
    → x ≢ hp
    → ((after hp q s).next x ≡ s.next x) × ((after hp q s).size x ≡ s.size x)
unfolding join_prev join_next set
after-other s hp q x h k = ground arith

-- The fields of the freed chunk, and those of the one before.
after-freed :
    (s : Heap) (hp q : ℕ)
    → q < hp
    → ((after hp q s).next hp
        ≡ (if hp + s.size hp == s.next q then s.next (s.next q) else s.next q))
      × ((after hp q s).size hp
          ≡ (if hp + s.size hp == s.next q then s.size hp + s.size (s.next q) else s.size hp))
unfolding join_prev join_next set
after-freed s hp q h = ground arith

after-before :
    (s : Heap) (hp q : ℕ)
    → q < hp
    → ((after hp q s).next q ≡ (if q + s.size q == hp then (after hp q s).next hp else hp))
      × ((after hp q s).size q
          ≡ (if q + s.size q == hp then s.size q + (after hp q s).size hp else s.size q))
unfolding join_prev join_next set
after-before s hp q h = ground arith

-- Where the chunks behind the freed one start.
start-behind :
    (s : Heap) (b hp q : ℕ) (ys : List ℕ)
    → Ring s.next b (q ∷ ys)
    → b ≤ q
    → q < hp
    → (if hp + s.size hp == s.next q then s.next (s.next q) else s.next q)
      ≡ first_of b (behind s hp ys)
start-behind s b hp q [] r l k =
    let apart : (hp + s.size hp == b) ≡ false = ground arith in rw (r, apart) refl
start-behind s b hp q (y ∷ ys) r l k = elim (Bool-cases (hp + s.size hp == y)) [
  | inl e ↦ rw (r.0, e) (Ring-uncons s.next b y ys r.1).0
  | inr e ↦ rw (r.0, e) refl
]

All-same :
    (s : Heap) (hp q : ℕ) (ys : List ℕ)
    → q < hp
    → All (λ y. hp < y) ys
    → All (λ y. s.next y ≡ (after hp q s).next y) ys
      × All (λ y. s.size y ≡ (after hp q s).size y) ys
All-same s hp q [] k h = (tt, tt)
All-same s hp q (y ∷ ys) k h =
    let (e, f) = after-other s hp q y (λ p. omega (arith, h.0, p)) (λ p. omega (arith, h.0, p)) in
    let (es, fs) = All-same s hp q ys k h.1 in ((sym e, es), (sym f, fs))

Ring-behind :
    (s : Heap) (b hp q : ℕ) (ys : List ℕ)
    → Ring s.next b ys
    → All (λ y. hp < y) ys
    → q < hp
    → Ring (after hp q s).next b (behind s hp ys)
Ring-behind s b hp q [] r h k = tt
Ring-behind s b hp q (y ∷ ys) r h k =
    let same = (All-same s hp q (y ∷ ys) k h).0 in
    let whole = Ring-same s.next (after hp q s).next b (y ∷ ys) same r in
    elim (Bool-cases (hp + s.size hp == y)) [
      | inl e ↦ rw e (Ring-uncons (after hp q s).next b y ys whole).1
      | inr e ↦ rw e whole
    ]

-- The ring behind the place.
pub Ring-freed :
    (s : Heap) (b hp q : ℕ) (ys : List ℕ)
    → Ring s.next b (q ∷ ys)
    → All (λ y. hp < y) ys
    → q < hp
    → b ≤ q
    → Ring (after hp q s).next b (freed s hp q ys)
Ring-freed s b hp q ys r h l k =
    let s' = after hp q s in
    let rest = Ring-behind s b hp q ys (Ring-uncons s.next b q ys r).1 h l in
    let at_hp = (after-freed s hp q l).0 ∙ start-behind s b hp q ys r k l in
    let at_q = (after-before s hp q l).0 in
    elim (Bool-cases (q + s.size q == hp)) [
      | inl e ↦ rw e (Ring-cons s'.next b q (behind s hp ys) (at_q ∙ rw e at_hp) rest)
      | inr e ↦ rw e (at_q ∙ rw e refl, Ring-cons s'.next b hp (behind s hp ys) at_hp rest)
    ]

-- A chunk and the one behind it.
within-join : (a n k u : ℕ) → within a (n + k) u ≡ (within a n u || within (a + n) k u)
within-join a n k u = ground arith

or_last : (a b c : Bool) → ((a || b) || c) ≡ ((b || c) || a)
or_last true true c = refl
or_last true false true = refl
or_last true false false = refl
or_last false b true = ground arith
or_last false b false = ground arith

or_swap : (a b : Bool) → (a || b) ≡ (b || a)
or_swap true true = refl
or_swap true false = refl
or_swap false true = refl
or_swap false false = refl

pub or_assoc : (a b c : Bool) → ((a || b) || c) ≡ (a || (b || c))
or_assoc true b c = refl
or_assoc false b c = refl

covers-behind :
    (s : Heap) (b hp q : ℕ) (ys : List ℕ) (u : ℕ)
    → Ring s.next b (q ∷ ys)
    → All (λ y. hp < y) ys
    → q < hp
    → b ≤ q
    → (within hp ((after hp q s).size hp) u || covers (after hp q s).size (behind s hp ys) u)
      ≡ (covers s.size ys u || within hp (s.size hp) u)
covers-behind s b hp q [] u r h l k =
    let apart : (hp + s.size hp == b) ≡ false = ground arith in
    let size : (after hp q s).size hp ≡ s.size hp = (after-freed s hp q l).1 ∙ rw (r, apart) refl in
    ap (λ n. within hp n u || false) size ∙ or_swap (within hp (s.size hp) u) false
covers-behind s b hp q (y ∷ ys) u r h l k =
    let z = (after hp q s).size in
    let same = (All-same s hp q (y ∷ ys) l h).1 in
    let rest = covers-same s.size z ys u same.1 in
    let whole = covers-same s.size z (y ∷ ys) u same in
    let size = (after-freed s hp q l).1 in
    elim (Bool-cases (hp + s.size hp == y)) [
      | inl e ↦
          let end : hp + s.size hp ≡ y = ground (arith, e) in
          let joined : z hp ≡ s.size hp + s.size y = size ∙ rw (r.0, e) refl in
          rw e (
            ap (λ n. within hp n u || covers z ys u) joined
            ∙ ap (λ c. within hp (s.size hp + s.size y) u || c) (sym rest)
            ∙ ap (λ c. c || covers s.size ys u) (within-join hp (s.size hp) (s.size y) u)
            ∙ ap (λ x. (within hp (s.size hp) u || within x (s.size y) u) || covers s.size ys u) end
            ∙ or_last (within hp (s.size hp) u) (within y (s.size y) u) (covers s.size ys u))
      | inr e ↦
          let kept : z hp ≡ s.size hp = size ∙ rw (r.0, e) refl in
          rw e (
            ap (λ n. within hp n u || covers z (y ∷ ys) u) kept
            ∙ ap (λ c. within hp (s.size hp) u || c) (sym whole)
            ∙ or_swap (within hp (s.size hp) u) (covers s.size (y ∷ ys) u))
    ]

pub covers-freed :
    (s : Heap) (b hp q : ℕ) (ys : List ℕ) (u : ℕ)
    → Ring s.next b (q ∷ ys)
    → All (λ y. hp < y) ys
    → q < hp
    → b ≤ q
    → covers (after hp q s).size (freed s hp q ys) u
      ≡ (covers s.size (q ∷ ys) u || within hp (s.size hp) u)
covers-freed s b hp q ys u r h l k =
    let z = (after hp q s).size in
    let rest = covers-behind s b hp q ys u r h l k in
    let size = (after-before s hp q l).1 in
    let w = within q (s.size q) u in
    elim (Bool-cases (q + s.size q == hp)) [
      | inl e ↦
          let end : q + s.size q ≡ hp = ground (arith, e) in
          let joined : z q ≡ s.size q + z hp = size ∙ rw e refl in
          rw e (
            ap (λ n. within q n u || covers z (behind s hp ys) u) joined
            ∙ ap (λ c. c || covers z (behind s hp ys) u) (within-join q (s.size q) (z hp) u)
            ∙ ap (λ x. (w || within x (z hp) u) || covers z (behind s hp ys) u) end
            ∙ or_assoc w (within hp (z hp) u) (covers z (behind s hp ys) u)
            ∙ ap (λ c. w || c) rest
            ∙ sym (or_assoc w (covers s.size ys u) (within hp (s.size hp) u)))
      | inr e ↦
          let kept : z q ≡ s.size q = size ∙ rw e refl in
          rw e (
            ap (λ n. within q n u || (within hp (z hp) u || covers z (behind s hp ys) u)) kept
            ∙ ap (λ c. w || c) rest
            ∙ sym (or_assoc w (covers s.size ys u) (within hp (s.size hp) u)))
    ]
