-- ===== src/Cc1/Symbols/Actions.antt =====
-- The symbols that a context of symbol.c makes, by `lookup` and `install`.
use simple_scc.Common.{
  ℕ, ◌≡◌, refl, sym, ap, ◌∙◌, Bool, true, false, ◌&&◌, List, [], ◌∷◌, Option, none, some, All, ◌==◌,
  Bool-cases, inl, inr, ==_iff,
}
use mathlib.Core.Path.{subst}
use simple_scc.Common.Ub.{Ub, ok, undefined, ◌>>=◌, the, bind_ok, ok-inj}
use simple_scc.Libscc.{same_name}
use simple_scc.Cc1.Symbols.{
  Sym, Table, idents, space_of, hash, newsym, linkhash, serves, find, answer, lookup, install,
  install_by,
}
use simple_scc.Cc1.Symbols.Scope.{space_idents, set_store-same}
use simple_scc.Cc1.Symbols.Linked.{IsLinked, Inner, newsym-Inner, linkhash-Inner}

-- What the parser does with an identifier: it looks it up, and may declare what it finds.
pub data Action : Type 0 where
  mention declare : ℕ → List ℕ → Action

pub act : Action → Table → Ub Table
act (mention ns name) t = do p ← lookup ns name true t; ok p.1
act (declare ns name) t = do p ← lookup ns name true t; a ← the p.0; q ← install ns a p.1; ok q.1

unfoldable pub run : List Action → Table → Ub Table
unfolding act
run [] t = ok t
run (x ∷ xs) t = do t' ← act x t; run xs t'

-- The namespaces of identifiers, tags and fields: those of `htab`.
abbrev pub OfIdents : Action → Type 0
OfIdents (mention ns name) = space_of ns ≡ idents
OfIdents (declare ns name) = space_of ns ≡ idents

pub find-All :
    (P : ℕ → Type 0) (name : List ℕ) (ns : ℕ) (store : ℕ → Option Sym) (l : List ℕ) (a : ℕ)
    → find name ns store l ≡ ok (some a)
    → All P l
    → P a
unfolding find the
find-All P name ns store [] a e all = cc
find-All P name ns store (b ∷ l) a e all =
    let (s, es, e1) = bind_ok (the (store b)) _ e in
    let (t, et, e2) = bind_ok (the s.name) _ e1 in
    elim (Bool-cases (same_name t name && serves ns s)) [
      | inl y ↦ subst P (cc (rw y at e2)) all.0
      | inr n ↦ find-All P name ns store l a (rw n at e2) all.1
    ]

pub linkhash-name :
    (ns b : ℕ) (name : Option (List ℕ)) (t t' : Table)
    → linkhash t.fresh (newsym ns name t).1 ≡ ok (b, t')
    → (s : List ℕ) × (name ≡ some s)
unfolding linkhash newsym the
linkhash-name ns b none t t' e = cc (rw (set_store-same t.store t.fresh) at e)
linkhash-name ns b (some s) t t' e = (s, refl)

-- `install` of a symbol that is declared.
pub install_by-Inner :
    {t0 t : Table} {ks : List ℕ} (again : Bool) (ns a : ℕ) (s : Sym) (o : Option ℕ) (t' : Table)
    → space_of ns ≡ idents
    → Inner t0 t ks
    → install_by true again ns a s t ≡ ok (o, t')
    → (ks' : List ℕ) × Inner t0 t' ks'
unfolding install_by newsym
install_by-Inner {t0 = t0} {ks = ks} true ns a s o t' h i e =
    (ks, subst (λ x. Inner t0 x ks) (ap (λ p. p.1) (ok-inj e)) i)
install_by-Inner {t0 = t0} {t = t} {ks = ks} false ns a s o t' h i e =
    let (p, e1, e2) = bind_ok (linkhash (newsym ns s.name t).0 (newsym ns s.name t).1) _ e in
    let (name, en) = linkhash-name ns p.0 s.name t p.1 e1 in
    (
      t.fresh ∷ ks,
      subst (λ x. Inner t0 x (t.fresh ∷ ks)) (ap (λ q. q.1) (ok-inj e2))
          (linkhash-Inner ns p.0 name p.1 h i
            (subst (λ o. linkhash t.fresh (newsym ns o t).1 ≡ ok p) en e1)),
    )

-- The rest of an action, after the search of the chain.
pub declared : ℕ → List ℕ → Table → Option ℕ → Ub Table
declared ns name t found = do
  a ← the (answer ns name true t found).0
  q ← install ns a (answer ns name true t found).1
  ok q.1

pub mention-Inner :
    {t0 t : Table} {ks : List ℕ} (ns : ℕ) (name : List ℕ) (found : Option ℕ)
    → space_of ns ≡ idents
    → Inner t0 t ks
    → (ks' : List ℕ) × Inner t0 (answer ns name true t found).1 ks'
unfolding answer
mention-Inner {ks = ks} ns name (some a) h i = (ks, i)
mention-Inner {t = t} {ks = ks} ns name none h i =
    (t.fresh ∷ ks, newsym-Inner ns (some name) (space_idents ns h) i)

pub install-declared :
    (ns a : ℕ) (s : Sym) (t : Table)
    → t.store a ≡ some s
    → s.declared ≡ true
    → install ns a t ≡ install_by true (s.ctx == t.curctx && ns == s.ns) ns a s t
unfolding install the
install-declared ns a s t e d = rw (e, d)

pub install-newsym :
    (ns : ℕ) (name : List ℕ) (t : Table)
    → install ns t.fresh (newsym ns (some name) t).1
      ≡ (linkhash t.fresh (newsym ns (some name) t).1 >>= λ p. ok (some p.0, p.1))
unfolding install the newsym install_by
install-newsym ns name t = rw (set_store-same t.store t.fresh, (==_iff t.curctx t.curctx).1 refl)

pub declared-Inner :
    {t0 t : Table} {ks : List ℕ} (ns : ℕ) (name : List ℕ) (found : Option ℕ) (t' : Table)
    → space_of ns ≡ idents
    → Inner t0 t ks
    → ((a : ℕ) → found ≡ some a → IsLinked t.store t.fresh a)
    → declared ns name t found ≡ ok t'
    → (ks' : List ℕ) × Inner t0 t' ks'
unfolding declared answer the newsym
declared-Inner {t0 = t0} {t = t} ns name (some a) t' h i in_chain e =
    let (s, es, d) = (in_chain a refl).1 in
    let again = s.ctx == t.curctx && ns == s.ns in
    let (q, e1, e2) = bind_ok (install ns a t) (λ q. ok q.1) e in
    let (ks', i') =
      install_by-Inner again ns a s q.0 q.1 h i (sym (install-declared ns a s t es d) ∙ e1) in
    (ks', subst (λ x. Inner t0 x ks') (ok-inj e2) i')
declared-Inner {t0 = t0} {t = t} {ks = ks} ns name none t' h i in_chain e =
    let t1 = (newsym ns (some name) t).1 in
    let (q, e1, e2) = bind_ok (install ns t.fresh t1) (λ q. ok q.1) e in
    let (p, e3, e4) =
      bind_ok (linkhash t.fresh t1) (λ p. ok (some p.0, p.1))
        (sym (install-newsym ns name t) ∙ e1) in
    let same = ap (λ r. r.1) (ok-inj e4) ∙ ok-inj e2 in
    (
      t.fresh ∷ ks,
      subst (λ x. Inner t0 x (t.fresh ∷ ks)) same (linkhash-Inner ns p.0 name p.1 h i e3),
    )

pub bind_map_ok {ℓ κ μ} :
    {A : Type ℓ} {B : Type κ} {C : Type μ} (m : Ub A) (g : A → B) (k : B → Ub C) {c : C}
    → ((m >>= λ a. ok (g a)) >>= k) ≡ ok c
    → (a : A) × (m ≡ ok a) × (k (g a) ≡ ok c)
bind_map_ok (ok a) g k e = (a, refl, e)
bind_map_ok undefined g k e = cc

pub act-Inner :
    {t0 t : Table} {ks : List ℕ} (x : Action) (t' : Table)
    → OfIdents x
    → Inner t0 t ks
    → act x t ≡ ok t'
    → (ks' : List ℕ) × Inner t0 t' ks'
unfolding act lookup declared
act-Inner {t0 = t0} {t = t} (mention ns name) t' h i e =
    let (found, ef, e2) =
      bind_map_ok (find name ns t.store (t.chains (space_of ns) (hash name ns)))
        (answer ns name true t) (λ p. ok p.1) e in
    let (ks', i') = mention-Inner ns name found h i in
    (ks', subst (λ x. Inner t0 x ks') (ok-inj e2) i')
act-Inner {t = t} (declare ns name) t' h i e =
    let (found, ef, e2) =
      bind_map_ok (find name ns t.store (t.chains (space_of ns) (hash name ns)))
        (answer ns name true t) _ e in
    let in_chain = λ (a : ℕ) (q : found ≡ some a).
      find-All (IsLinked t.store t.fresh) name ns t.store (t.chains (space_of ns) (hash name ns)) a
        (ef ∙ ap ok q) (rw h (i.chained (hash name ns))) in
    declared-Inner ns name found t' h i in_chain e2

pub run-Inner :
    (xs : List Action) {t0 t : Table} {ks : List ℕ} (t' : Table)
    → All OfIdents xs
    → Inner t0 t ks
    → run xs t ≡ ok t'
    → (ks' : List ℕ) × Inner t0 t' ks'
unfolding run
run-Inner [] {t0 = t0} {ks = ks} t' h i e = (ks, subst (λ x. Inner t0 x ks) (ok-inj e) i)
run-Inner (x ∷ xs) {t = t} t' h i e =
    let (t1, e1, e2) = bind_ok (act x t) (run xs) e in
    let (ks', i') = act-Inner x t1 h.0 i e1 in run-Inner xs t' h.1 i' e2
