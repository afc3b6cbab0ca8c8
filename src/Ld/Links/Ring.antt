-- ===== src/Ld/Links/Ring.antt =====
-- The rings of symbol.c stand for lists: `linksym` appends to one, `unlinksym` takes from one.
use simple_scc.Common.{ℕ, ◌≡◌, ◌≢◌, sym, ap, ◌∙◌, List, [], ◌∷◌, ◌++◌, All, arith}
use mathlib.Core.Path.{subst}
use simple_scc.Ld.Links.{Links, set, set_next, set_prev, linksym, unlinksym}

-- From `a` through the structures of a list to `b`, and back.
abbrev pub Chain : Links → ℕ → List ℕ → ℕ → Type 0
Chain l a [] b = (l.next a ≡ b) × (l.prev b ≡ a)
Chain l a (x ∷ xs) b = (l.next a ≡ x) × (l.prev x ≡ a) × Chain l x xs b

abbrev pub Fresh : ℕ → List ℕ → Type 0
Fresh a xs = All (λ x. a ≢ x) xs

abbrev pub Distinct : List ℕ → Type 0
Distinct [] = Unit
Distinct (x ∷ xs) = Fresh x xs × Distinct xs

-- The list whose head is `h` has the members `xs`.
abbrev pub Ring : Links → ℕ → List ℕ → Type 0
Ring l h xs = Chain l h xs h × Distinct (h ∷ xs)

set-same : (f : ℕ → ℕ) (a v x : ℕ) → a ≡ x → set f a v x ≡ v
unfolding set
set-same f a v x e = ground arith

set-other : (f : ℕ → ℕ) (a v x : ℕ) → a ≢ x → set f a v x ≡ f x
unfolding set
set-other f a v x e = ground arith

-- The last structure before the end is none of those that the list and its start differ from.
pub prev-Fresh :
    (l : Links) (a c h : ℕ) (xs : List ℕ) → Chain l a xs h → c ≢ a → Fresh c xs → c ≢ l.prev h
prev-Fresh l a c h [] (n, p) e f = λ q. e (q ∙ p)
prev-Fresh l a c h (x ∷ xs) (n, p, k) e (ne, f) = prev-Fresh l x c h xs k ne f

-- What `linksym` leaves in the fields.
pub record Linked (l l' : Links) (h sp : ℕ) : Type 0 where
  pub next_sp : l'.next sp ≡ h
  pub prev_sp : l'.prev sp ≡ l.prev h
  pub next_last : l'.next (l.prev h) ≡ sp
  pub prev_h : l'.prev h ≡ sp
  pub next_other : (x : ℕ) → x ≢ sp → x ≢ l.prev h → l'.next x ≡ l.next x
  pub prev_other : (x : ℕ) → x ≢ sp → x ≢ h → l'.prev x ≡ l.prev x

pub linksym-Linked :
    (l : Links) (h sp : ℕ) → sp ≢ h → sp ≢ l.prev h → Linked l (linksym h sp l) h sp
unfolding linksym set_next set_prev set
linksym-Linked l h sp n m = record {
  next_sp = ground arith;
  prev_sp = ground arith;
  next_last = ground arith;
  prev_h = ground arith;
  next_other = λ x p q. ground arith;
  prev_other = λ x p q. ground arith;
}

link-Chain :
    (l l' : Links) (a h sp : ℕ) (xs : List ℕ)
    → Linked l l' h sp
    → Chain l a xs h
    → Distinct (a ∷ xs)
    → Fresh h xs
    → Fresh sp (a ∷ xs)
    → sp ≢ h
    → Chain l' a (xs ++ sp ∷ []) h
link-Chain l l' a h sp [] k (n, p) d f g ne =
    (ap l'.next (sym p) ∙ k.next_last, k.prev_sp ∙ p, (k.next_sp, k.prev_h))
link-Chain l l' a h sp (x ∷ xs) k (n, p, c) ((ax, fa), d) (hx, f) (sa, g) ne = (
  k.next_other a (λ e. sa (sym e)) (prev-Fresh l x a h xs c ax fa) ∙ n,
  k.prev_other x (λ e. g.0 (sym e)) (λ e. hx (sym e)) ∙ p,
  link-Chain l l' x h sp xs k c d f g ne,
)

Fresh-end : (a sp : ℕ) (xs : List ℕ) → Fresh a xs → a ≢ sp → Fresh a (xs ++ sp ∷ [])
Fresh-end a sp [] f n = (n, tt)
Fresh-end a sp (x ∷ xs) (m, f) n = (m, Fresh-end a sp xs f n)

Distinct-end : (sp : ℕ) (xs : List ℕ) → Distinct xs → Fresh sp xs → Distinct (xs ++ sp ∷ [])
Distinct-end sp [] d f = (tt, tt)
Distinct-end sp (x ∷ xs) (g, d) (n, f) =
    (Fresh-end x sp xs g (λ e. n (sym e)), Distinct-end sp xs d f)

-- `linksym` appends a structure that is not in the list.
pub linksym-Ring :
    (l : Links) (h sp : ℕ) (xs : List ℕ)
    → Ring l h xs
    → Fresh sp (h ∷ xs)
    → Ring (linksym h sp l) h (xs ++ sp ∷ [])
linksym-Ring l h sp xs (c, (f, d)) (n, g) =
    let k = linksym-Linked l h sp n (prev-Fresh l h sp h xs c n g) in
    (
      link-Chain l (linksym h sp l) h h sp xs k c (f, d) f (n, g) n,
      Distinct-end sp (h ∷ xs) (f, d) (n, g),
    )

-- What `unlinksym` leaves in the fields.
pub record Unlinked (l l' : Links) (sp : ℕ) : Type 0 where
  pub next_before : l'.next (l.prev sp) ≡ l.next sp
  pub prev_after : l'.prev (l.next sp) ≡ l.prev sp
  pub next_rest : (x : ℕ) → x ≢ l.prev sp → l'.next x ≡ l.next x
  pub prev_rest : (x : ℕ) → x ≢ l.next sp → l'.prev x ≡ l.prev x

pub unlinksym-Unlinked : (l : Links) (sp : ℕ) → l.next sp ≢ sp → Unlinked l (unlinksym sp l) sp
unfolding unlinksym set_next set_prev set
unlinksym-Unlinked l sp n = record {
  next_before = ground arith;
  prev_after = ground arith;
  next_rest = λ x p. ground arith;
  prev_rest = λ x p. ground arith;
}

-- A part of a ring that lies behind the change.
pub Chain-rest :
    (l l' : Links) (sp a b : ℕ) (xs : List ℕ)
    → Unlinked l l' sp
    → Chain l a xs b
    → l.prev sp ≢ a
    → Fresh (l.prev sp) xs
    → Fresh (l.next sp) xs
    → l.next sp ≢ b
    → Chain l' a xs b
Chain-rest l l' sp a b [] k (n, p) pa f g nb =
    (k.next_rest a (λ e. pa (sym e)) ∙ n, k.prev_rest b (λ e. nb (sym e)) ∙ p)
Chain-rest l l' sp a b (x ∷ xs) k (n, p, c) pa (px, f) (nx, g) nb = (
  k.next_rest a (λ e. pa (sym e)) ∙ n,
  k.prev_rest x (λ e. nx (sym e)) ∙ p,
  Chain-rest l l' sp x b xs k c px f g nb,
)

pub Fresh-before : (a sp : ℕ) (xs ys : List ℕ) → Fresh a (xs ++ sp ∷ ys) → Fresh a (xs ++ ys)
Fresh-before a sp [] ys (n, f) = f
Fresh-before a sp (x ∷ xs) ys (n, f) = (n, Fresh-before a sp xs ys f)

Distinct-before : (sp : ℕ) (xs ys : List ℕ) → Distinct (xs ++ sp ∷ ys) → Distinct (xs ++ ys)
Distinct-before sp [] ys (f, d) = d
Distinct-before sp (x ∷ xs) ys (f, d) = (Fresh-before x sp xs ys f, Distinct-before sp xs ys d)

pub first-Chain :
    (l : Links) (a b sp : ℕ) (xs ys : List ℕ) → Chain l a (xs ++ sp ∷ ys) b → Chain l a xs sp
first-Chain l a b sp [] ys (n, p, c) = (n, p)
first-Chain l a b sp (x ∷ xs) ys (n, p, c) = (n, p, first-Chain l x b sp xs ys c)

pub first-Fresh : (a sp : ℕ) (xs ys : List ℕ) → Fresh a (xs ++ sp ∷ ys) → Fresh a xs
first-Fresh a sp [] ys f = tt
first-Fresh a sp (x ∷ xs) ys (n, f) = (n, first-Fresh a sp xs ys f)

-- The structure behind `sp` is none of those before it.
pub next-Fresh :
    (l : Links) (a c b sp : ℕ) (xs ys : List ℕ)
    → Chain l a (xs ++ sp ∷ ys) b
    → c ≢ b
    → Fresh c (xs ++ sp ∷ ys)
    → c ≢ l.next sp
next-Fresh l a c b sp [] [] (n, p, (m, q)) e f = λ r. e (r ∙ m)
next-Fresh l a c b sp [] (y ∷ ys) (n, p, (m, q, k)) e (g, (cy, f)) = λ r. cy (r ∙ m)
next-Fresh l a c b sp (x ∷ xs) ys (n, p, k) e (g, f) = next-Fresh l x c b sp xs ys k e f

unlink-Chain :
    (l l' : Links) (a b sp : ℕ) (xs ys : List ℕ)
    → Unlinked l l' sp
    → Chain l a (xs ++ sp ∷ ys) b
    → Distinct (a ∷ xs ++ sp ∷ ys)
    → Fresh b (xs ++ sp ∷ ys)
    → Chain l' a (xs ++ ys) b
unlink-Chain l l' a b sp [] [] k (n, p, (m, q)) d f =
    (ap l'.next (sym p) ∙ k.next_before ∙ m, ap l'.prev (sym m) ∙ k.prev_after ∙ p)
unlink-Chain l l' a b sp [] (y ∷ ys) k (n, p, (m, q, c)) ((asp, (ay, fa)), ((sy, fs), (fy, d)))
      (bs, (by, fb)) =
    (
      ap l'.next (sym p) ∙ k.next_before ∙ m,
      ap l'.prev (sym m) ∙ k.prev_after ∙ p,
      Chain-rest l l' sp y b ys k c (λ e. ay (sym p ∙ e)) (subst (λ z. Fresh z ys) (sym p) fa)
          (subst (λ z. Fresh z ys) (sym m) fy) (λ e. by (sym e ∙ m)),
    )
unlink-Chain l l' a b sp (x ∷ xs) ys k (n, p, c) ((ax, fa), (fx, d)) (bx, f) = (
  k.next_rest a
        (prev-Fresh l x a sp xs (first-Chain l x b sp xs ys c) ax (first-Fresh a sp xs ys fa))
      ∙ n,
  k.prev_rest x (next-Fresh l x x b sp xs ys c (λ e. bx (sym e)) fx) ∙ p,
  unlink-Chain l l' x b sp xs ys k c (fx, d) f,
)

pub next_self :
    (l : Links) (a b sp : ℕ) (xs ys : List ℕ)
    → Chain l a (xs ++ sp ∷ ys) b
    → Distinct (xs ++ sp ∷ ys)
    → Fresh b (xs ++ sp ∷ ys)
    → l.next sp ≢ sp
next_self l a b sp [] [] (n, p, (m, q)) d (bs, f) = λ e. bs (sym m ∙ e)
next_self l a b sp [] (y ∷ ys) (n, p, (m, q, k)) ((sy, fs), d) f = λ e. sy (sym e ∙ m)
next_self l a b sp (x ∷ xs) ys (n, p, c) (fx, d) (bx, f) = next_self l x b sp xs ys c d f

-- `unlinksym` takes a structure from the list that it is in.
pub unlinksym-Ring :
    (l : Links) (h sp : ℕ) (xs ys : List ℕ)
    → Ring l h (xs ++ sp ∷ ys)
    → Ring (unlinksym sp l) h (xs ++ ys)
unlinksym-Ring l h sp xs ys (c, (f, d)) = (
  unlink-Chain l (unlinksym sp l) h h sp xs ys
      (unlinksym-Unlinked l sp (next_self l h h sp xs ys c d f)) c (f, d) f,
  (Fresh-before h sp xs ys f, Distinct-before sp xs ys d),
)
