-- ===== src/Libscc/Alloc/Apart.antt =====
-- Blocks of one length that do not overlap, and the free list through them.
use mathlib.Core.Path.{subst}
use simple_scc.Common.{
  ℕ, zero, suc, ◌+◌, ◌*◌, ◌≤◌, ◌<◌, ◌≡◌, ◌≢◌, refl, sym, ◌∙◌, arith, List, [], ◌∷◌, ◌++◌, Option,
  none, some, All, All-append, All-map, All-insert, All-member, ◌⊎◌, inl, inr,
}
use simple_scc.Libscc.Alloc.{write, link_blocks}

abbrev pub Off : ℕ → ℕ → ℕ → Type 0
Off len x y = (x + len ≤ y) ⊎ (y + len ≤ x)

-- The areas of that length at the members do not overlap.
abbrev pub Apart : ℕ → List ℕ → Type 0
Apart len [] = Unit
Apart len (x ∷ xs) = All (Off len x) xs × Apart len xs

pub Off-comm : (len x y : ℕ) → Off len x y → Off len y x
Off-comm len x y (inl h) = inr h
Off-comm len x y (inr h) = inl h

-- A member that moves to the middle, and one that moves to the front.
pub Apart-insert :
    (len p : ℕ) (xs ys : List ℕ) → Apart len (p ∷ xs ++ ys) → Apart len (xs ++ p ∷ ys)
Apart-insert len p [] ys d = d
Apart-insert len p (x ∷ xs) ys ((o, f), (g, d)) =
    (All-insert (Off len x) p xs ys (Off-comm len p x o) g, Apart-insert len p xs ys (f, d))

pub Apart-member :
    (len p : ℕ) (xs ys : List ℕ) → Apart len (xs ++ p ∷ ys) → Apart len (p ∷ xs ++ ys)
Apart-member len p [] ys d = d
Apart-member len p (x ∷ xs) ys (f, d) =
    let (o, g) = All-member (Off len x) p xs ys f in
    let (h, e) = Apart-member len p xs ys d in ((Off-comm len x p o, h), (g, e))

pub Apart-append :
    (len : ℕ) (xs ys : List ℕ)
    → Apart len xs
    → Apart len ys
    → All (λ x. All (Off len x) ys) xs
    → Apart len (xs ++ ys)
Apart-append len [] ys d e f = e
Apart-append len (x ∷ xs) ys (o, d) e (g, f) =
    (All-append (Off len x) xs ys o g, Apart-append len xs ys d e f)

-- The list that the pointers make.
abbrev pub Free : (ℕ → Option ℕ) → Option ℕ → List ℕ → Type 0
Free next p [] = p ≡ none
Free next p (x ∷ xs) = (p ≡ some x) × Free next (next x) xs

pub write-same : (next : ℕ → Option ℕ) (p : ℕ) (v : Option ℕ) → write p v next p ≡ v
unfolding write
write-same next p v = ground arith

write-other : (next : ℕ → Option ℕ) (p q : ℕ) (v : Option ℕ) → p ≢ q → write p v next q ≡ next q
unfolding write
write-other next p q v n = ground arith

-- A pointer that is written elsewhere does not change the list.
pub Free-write :
    (next : ℕ → Option ℕ) (p : Option ℕ) (q : ℕ) (v : Option ℕ) (xs : List ℕ)
    → All (λ x. q ≢ x) xs
    → Free next p xs
    → Free (write q v next) p xs
Free-write next p q v [] f e = e
Free-write next p q v (x ∷ xs) (n, f) (e, k) = (
  e,
  subst (λ r. Free (write q v next) r xs) (sym (write-other next q x v n))
      (Free-write next (next x) q v xs f k),
)

-- The blocks of an arena.
abbrev pub blocks : ℕ → ℕ → ℕ → List ℕ
blocks zero unit bp = bp ∷ []
blocks (suc n) unit bp = bp ∷ blocks n unit (bp + unit)

All-both : (P Q : ℕ → Type 0) (xs : List ℕ) → All P xs → All Q xs → All (λ x. P x × Q x) xs
All-both P Q [] f g = tt
All-both P Q (x ∷ xs) (p, f) (q, g) = ((p, q), All-both P Q xs f g)

blocks-above : (n unit bp lo : ℕ) → lo ≤ bp → All (λ x. lo ≤ x) (blocks n unit bp)
blocks-above zero unit bp lo h = (h, tt)
blocks-above (suc n) unit bp lo h = (h, blocks-above n unit (bp + unit) lo (omega arith))

blocks-below :
    (n unit bp hi : ℕ) → bp + unit * suc n ≤ hi → All (λ x. x + unit ≤ hi) (blocks n unit bp)
blocks-below zero unit bp hi h = (omega arith, tt)
blocks-below (suc n) unit bp hi h = (omega arith, blocks-below n unit (bp + unit) hi (omega arith))

pub blocks-Apart : (n unit bp : ℕ) → Apart unit (blocks n unit bp)
blocks-Apart zero unit bp = (tt, tt)
blocks-Apart (suc n) unit bp = (
  All-map (blocks n unit (bp + unit)) (λ x h. inl h)
      (blocks-above n unit (bp + unit) (bp + unit) (omega arith)),
  blocks-Apart n unit (bp + unit),
)

link_before :
    (n unit bp q : ℕ) (next : ℕ → Option ℕ) → q < bp → link_blocks n unit bp next q ≡ next q
unfolding link_blocks
link_before zero unit bp q next h = write-other next bp q none (omega arith)
link_before (suc n) unit bp q next h =
    link_before n unit (bp + unit) q (write bp (some (bp + unit)) next) (omega arith)
    ∙ write-other next bp q (some (bp + unit)) (omega arith)

-- `newarena` links all blocks of the arena.
pub link_blocks-Free :
    (n unit bp : ℕ) (next : ℕ → Option ℕ)
    → 0 < unit
    → Free (link_blocks n unit bp next) (some bp) (blocks n unit bp)
unfolding link_blocks
link_blocks-Free zero unit bp next h = (refl, write-same next bp none)
link_blocks-Free (suc n) unit bp next h =
    let next' = write bp (some (bp + unit)) next in
    (
      refl,
      subst (λ r. Free (link_blocks n unit (bp + unit) next') r (blocks n unit (bp + unit)))
          (sym (
            link_before n unit (bp + unit) bp next' (omega arith)
            ∙ write-same next bp (some (bp + unit))))
          (link_blocks-Free n unit (bp + unit) next' h),
    )

pub blocks-range :
    (n unit bp : ℕ) → All (λ x. (bp ≤ x) × (x + unit ≤ bp + unit * suc n)) (blocks n unit bp)
blocks-range n unit bp =
    All-both (λ x. bp ≤ x) (λ x. x + unit ≤ bp + unit * suc n) (blocks n unit bp)
      (blocks-above n unit bp bp (omega arith))
      (blocks-below n unit bp (bp + unit * suc n) (omega arith))
