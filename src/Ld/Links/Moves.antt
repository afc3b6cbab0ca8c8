-- ===== src/Ld/Links/Moves.antt =====
-- `define` moves a symbol from one list to another; the rings of both lists stay rings.
use simple_scc.Common.{ℕ, ◌≡◌, ◌≢◌, sym, ◌∙◌, List, [], ◌∷◌, ◌++◌, All, All-map}
use simple_scc.Ld.Links.{Links, linksym, unlinksym}
use simple_scc.Ld.Links.Ring.{
  Chain, Fresh, Distinct, Ring, Linked, linksym-Linked, unlinksym-Unlinked, linksym-Ring,
  unlinksym-Ring, prev-Fresh, next-Fresh, next_self, first-Chain, first-Fresh, Chain-rest,
  Fresh-before,
}

-- No member of one list is in the other.
abbrev pub Disjoint : List ℕ → List ℕ → Type 0
Disjoint xs ys = All (λ c. Fresh c ys) xs

Disjoint-none : (xs : List ℕ) → Disjoint xs []
Disjoint-none [] = tt
Disjoint-none (x ∷ xs) = (tt, Disjoint-none xs)

Disjoint-more : (y : ℕ) (xs ys : List ℕ) → Fresh y xs → Disjoint xs ys → Disjoint xs (y ∷ ys)
Disjoint-more y [] ys f d = tt
Disjoint-more y (x ∷ xs) ys (n, f) (k, d) = (((λ e. n (sym e)), k), Disjoint-more y xs ys f d)

Disjoint-comm : (xs ys : List ℕ) → Disjoint xs ys → Disjoint ys xs
Disjoint-comm [] ys d = Disjoint-none ys
Disjoint-comm (x ∷ xs) ys (f, d) = Disjoint-more x ys xs f (Disjoint-comm xs ys d)

Fresh-member : (c sp : ℕ) (xs ys : List ℕ) → Fresh c (xs ++ sp ∷ ys) → c ≢ sp
Fresh-member c sp [] ys (n, f) = n
Fresh-member c sp (x ∷ xs) ys (n, f) = Fresh-member c sp xs ys f

Distinct-member : (sp : ℕ) (xs ys : List ℕ) → Distinct (xs ++ sp ∷ ys) → Fresh sp (xs ++ ys)
Distinct-member sp [] ys (f, d) = f
Distinct-member sp (x ∷ xs) ys (f, d) =
    ((λ e. Fresh-member x sp xs ys f (sym e)), Distinct-member sp xs ys d)

-- A ring keeps its links where `unlinksym` takes a structure from another one.
unlinksym-other :
    (l : Links) (h k sp : ℕ) (xs ys zs : List ℕ)
    → Ring l h (xs ++ sp ∷ ys)
    → Ring l k zs
    → Disjoint (k ∷ zs) (h ∷ xs ++ sp ∷ ys)
    → Ring (unlinksym sp l) k zs
unlinksym-other l h k sp xs ys zs (c, (f, d)) (ck, dk) (fk, fz) =
    let u = unlinksym-Unlinked l sp (next_self l h h sp xs ys c d f) in
    let before = λ (z : ℕ) (g : Fresh z (h ∷ xs ++ sp ∷ ys)).
      prev-Fresh l h z sp xs (first-Chain l h h sp xs ys c) (g.0) (first-Fresh z sp xs ys (g.1)) in
    let behind =
      λ (z : ℕ) (g : Fresh z (h ∷ xs ++ sp ∷ ys)). next-Fresh l h z h sp xs ys c (g.0) (g.1) in
    (
      Chain-rest l (unlinksym sp l) sp k k zs u ck (λ e. before k fk (sym e))
          (All-map zs (λ z g e. before z g (sym e)) fz)
          (All-map zs (λ z g e. behind z g (sym e)) fz) (λ e. behind k fk (sym e)),
      dk,
    )

Chain-kept :
    (l l' : Links) (k sp a b : ℕ) (xs : List ℕ)
    → Linked l l' k sp
    → Chain l a xs b
    → Fresh sp (a ∷ xs)
    → Fresh (l.prev k) (a ∷ xs)
    → Fresh k xs
    → sp ≢ b
    → k ≢ b
    → Chain l' a xs b
Chain-kept l l' k sp a b [] m (n, p) (s, fs) (q, fq) fk sb kb = (
  m.next_other a (λ e. s (sym e)) (λ e. q (sym e)) ∙ n,
  m.prev_other b (λ e. sb (sym e)) (λ e. kb (sym e)) ∙ p,
)
Chain-kept l l' k sp a b (x ∷ xs) m (n, p, c) (s, fs) (q, fq) (kx, fk) sb kb = (
  m.next_other a (λ e. s (sym e)) (λ e. q (sym e)) ∙ n,
  m.prev_other x (λ e. fs.0 (sym e)) (λ e. kx (sym e)) ∙ p,
  Chain-kept l l' k sp x b xs m c fs fq fk sb kb,
)

-- And where `linksym` appends a structure to another one.
linksym-other :
    (l : Links) (h k sp : ℕ) (xs zs : List ℕ)
    → Ring l h xs
    → Ring l k zs
    → Disjoint (h ∷ xs) (k ∷ zs)
    → Fresh sp (h ∷ xs)
    → Fresh sp (k ∷ zs)
    → Ring (linksym k sp l) h xs
linksym-other l h k sp xs zs (c, d) (ck, dk) (fh, fx) sh sk =
    let m = linksym-Linked l k sp (sk.0) (prev-Fresh l k sp k zs ck (sk.0) (sk.1)) in
    let last = λ (z : ℕ) (g : Fresh z (k ∷ zs)) (e : l.prev k ≡ z).
      prev-Fresh l k z k zs ck (g.0) (g.1) (sym e) in
    (
      Chain-kept l (linksym k sp l) k sp h h xs m c sh (last h fh, All-map xs last fx)
          (All-map xs (λ z g e. g.0 (sym e)) fx) (sh.0) (λ e. fh.0 (sym e)),
      d,
    )

-- A structure that is taken from one ring and appended to another, as `define` does: the first ring is
-- left without it, the second has it at the end.
pub linksym-unlinksym :
    (l : Links) (h k sp : ℕ) (xs ys zs : List ℕ)
    → Ring l h (xs ++ sp ∷ ys)
    → Ring l k zs
    → Disjoint (k ∷ zs) (h ∷ xs ++ sp ∷ ys)
    → Ring (linksym k sp (unlinksym sp l)) h (xs ++ ys)
      × Ring (linksym k sp (unlinksym sp l)) k (zs ++ sp ∷ [])
linksym-unlinksym l h k sp xs ys zs rh rk d =
    let first = unlinksym-Ring l h sp xs ys rh in
    let second = unlinksym-other l h k sp xs ys zs rh rk d in
    let not_there = All-map (k ∷ zs) (λ z g e. Fresh-member z sp (h ∷ xs) ys g (sym e)) d in
    let apart =
      Disjoint-comm (k ∷ zs) (h ∷ xs ++ ys)
        (All-map (k ∷ zs) (λ z g. Fresh-before z sp (h ∷ xs) ys g) d) in
    (
      linksym-other (unlinksym sp l) h k sp (xs ++ ys) zs first second apart
          (Distinct-member sp (h ∷ xs) ys (rh.1)) not_there,
      linksym-Ring (unlinksym sp l) k sp zs second not_there,
    )
