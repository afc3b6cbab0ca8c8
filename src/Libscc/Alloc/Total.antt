-- ===== src/Libscc/Alloc/Total.antt =====
-- What `new` returns in a pool of blocks.
use mathlib.Core.Path.{subst}
use simple_scc.Common.{
  ℕ, ◌*◌, ◌^◌, ◌<◌, ◌≡◌, refl, sym, ◌∙◌, ap, arith, false, ◌||◌, List, ◌∷◌, Option, none, some, All,
  leb, ◌==◌,
}
use simple_scc.Common.Ub.{ok, the, bind_ok, ok-inj}
use simple_scc.Libscc.Alloc.{Alloc, unit_of, newarena, refill, new}
use simple_scc.Libscc.Alloc.Apart.{Off}
use simple_scc.Libscc.Alloc.Run.{Run, got, IsApart, IsInside, Run-Apart, renewed, newarena-result}

refill-total :
    (hdr array : ℕ) (f : Option ℕ) (a : Alloc)
    → a.freep ≡ f
    → 0 < a.nmemb
    → unit_of hdr a.size * hdr * a.nmemb < 2 ^ 64
    → (b : Alloc) × (p : ℕ) × (refill hdr array f a ≡ ok b) × (b.freep ≡ some p)
unfolding refill newarena
refill-total hdr array (some p) a e h k = (a, p, refl, e)
refill-total hdr array none a e h k =
    let enough : (a.nmemb == 0 || leb (2 ^ 64) (unit_of hdr a.size * hdr * a.nmemb)) ≡ false =
      ground arith in
    (renewed hdr array a, array, rw enough refl, refl)

new-ok :
    (hdr array : ℕ) (a : Alloc)
    → 0 < a.nmemb
    → unit_of hdr a.size * hdr * a.nmemb < 2 ^ 64
    → (p : ℕ) × (a' : Alloc) × (new hdr array a ≡ ok (p, a'))
unfolding new the
new-ok hdr array a h k =
    let (b, p, e, f) = refill-total hdr array a.freep a refl h k in
    (p, record b { freep = b.next p }, rw (e, f) refl)

-- The arenas of a pool that has a free block: a new one if there was none.
abbrev pub arenas : ℕ → List ℕ → Option ℕ → List ℕ
arenas array bs none = array ∷ bs
arenas array bs (some p) = bs

refill-arenas :
    (hdr array : ℕ) (f : Option ℕ) (a b : Alloc)
    → refill hdr array f a ≡ ok b
    → (b.size ≡ a.size) × (b.nmemb ≡ a.nmemb) × (b.arena ≡ arenas array a.arena f)
unfolding refill
refill-arenas hdr array none a b e =
    let r = newarena-result hdr array a b e in
    (ap (λ x. x.size) r.result, ap (λ x. x.nmemb) r.result, ap (λ x. x.arena) r.result)
refill-arenas hdr array (some p) a b e =
    let r = sym (ok-inj e) in (ap (λ x. x.size) r, ap (λ x. x.nmemb) r, ap (λ x. x.arena) r)

new-arenas :
    (hdr array p : ℕ) (a a' : Alloc)
    → new hdr array a ≡ ok (p, a')
    → (a'.size ≡ a.size) × (a'.nmemb ≡ a.nmemb) × (a'.arena ≡ arenas array a.arena a.freep)
unfolding new
new-arenas hdr array p a a' e =
    let (b, e1, r1) = bind_ok (refill hdr array a.freep a) _ e in
    let (bp, e2, r2) = bind_ok (the b.freep) _ r1 in
    let (s, m, l) = refill-arenas hdr array a.freep a b e1 in
    let q : a' ≡ record b { freep = b.next bp } = sym (ap (λ (x : ℕ × Alloc). x.1) (ok-inj r2)) in
    (ap (λ x. x.size) q ∙ s, ap (λ x. x.nmemb) q ∙ m, ap (λ x. x.arena) q ∙ l)

-- In every state of a pool, `new` returns a block, if an arena has members and its size does not
-- overflow, and the area for a new arena does not overlap the others. The block lies in an arena of the
-- pool, or in the new one if no block was free, and overlaps none of the blocks in use.
pub new-total :
    (hdr array : ℕ) (a : Alloc) (us : List ℕ)
    → Run hdr a us
    → IsApart hdr array a
    → 0 < a.nmemb
    → unit_of hdr a.size * hdr * a.nmemb < 2 ^ 64
    → (p : ℕ) × (a' : Alloc) × (new hdr array a ≡ ok (p, a'))
      × All (Off (unit_of hdr a.size) p) us
      × IsInside (unit_of hdr a.size) a.nmemb p (arenas array a.arena a.freep)
new-total hdr array a us r i h k =
    let (p, a', e) = new-ok hdr array a h k in
    let (s, m, l) = new-arenas hdr array p a a' e in
    let (d, w) = Run-Apart hdr a' (p ∷ us) (got array p r i e) in
    (
      p,
      a',
      e,
      subst (λ n. All (Off (unit_of hdr n) p) us) s (d.0),
      subst (λ bs. IsInside (unit_of hdr a.size) a.nmemb p bs) l
          (subst (λ n. IsInside (unit_of hdr a.size) n p a'.arena) m
            (subst (λ n. IsInside (unit_of hdr n) a'.nmemb p a'.arena) s (w.0))),
    )
