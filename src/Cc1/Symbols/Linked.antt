-- ===== src/Cc1/Symbols/Linked.antt =====
-- The invariant of a context of symbol.c: what `newsym` and `linkhash` do to the chains and lists.
use simple_scc.Common.{
  ℕ, suc, ◌+◌, ◌-◌, ◌^◌, ◌<◌, ◌≤◌, ◌≡◌, refl, sym, ap, ◌∙◌, arith, Bool, true, false, List, ◌∷◌,
  ◌++◌, Option, some, All, All-map, ◌==◌, Bool-cases, inl, inr, ==_iff,
}
use mathlib.Core.Path.{subst}
use simple_scc.Common.Ub.{ok, the, bind_ok, ok-inj}
use simple_scc.Cc1.Symbols.Ns.{label, cpp}
use simple_scc.Cc1.Symbols.{
  Sym, Table, idents, space_of, hash, set_chain, set_store, newid, newid_by, newsym, linkhash,
}
use simple_scc.Cc1.Symbols.Scope.{
  update, Stacked, loose, linked, Outer, Stacked-ext, Stacked-store, Outer-store, space_idents,
  set_store-other, set_store-same, set_chain-idents,
}

-- A symbol of a chain is allocated, and declared.
abbrev pub IsLinked : (ℕ → Option Sym) → ℕ → ℕ → Type 0
IsLinked store fresh a = (a < fresh) × ((s : Sym) × (store a ≡ some s) × (s.declared ≡ true))

pub record Inner (t0 t : Table) (ks : List ℕ) : Type 0 where
  pub curctx_eq : t.curctx ≡ suc t0.curctx
  pub head_eq : t.head ≡ ks ++ t0.head
  pub stacked : Stacked t.store t.curctx t0.fresh (t0.chains idents) t.fresh ks (t.chains idents)
  pub outer : Outer t.store t.curctx t0.fresh t0.head
  pub chained : (h : ℕ) → All (IsLinked t.store t.fresh) (t.chains idents h)
  pub fresh_le : t0.fresh ≤ t.fresh
  pub labels_eq : t.labels ≡ t0.labels
  pub kept : (a : ℕ) → a < t0.fresh → t.store a ≡ t0.store a

-- The fields that `newid` and `linkhash` leave, and those that `linkhash` sets.
pub record Relinked (a : ℕ) (s : Sym) (name : List ℕ) (t t' : Table) : Type 0 where
  pub now : Sym
  pub same_ctx : now.ctx ≡ s.ctx
  pub same_ns : now.ns ≡ s.ns
  pub same_name : now.name ≡ some name
  pub now_declared : now.declared ≡ true
  pub curctx_eq : t'.curctx ≡ t.curctx
  pub head_eq : t'.head ≡ t.head
  pub labels_eq : t'.labels ≡ t.labels
  pub fresh_eq : t'.fresh ≡ t.fresh
  pub chains_eq :
      t'.chains ≡ set_chain t.chains idents (hash name s.ns) (a ∷ t.chains idents (hash name s.ns))
  pub store_eq : t'.store ≡ set_store t.store a (some now)

pub newid_by-fields :
    (mode last : Bool) (t t' : Table) (i : ℕ)
    → newid_by mode last t ≡ ok (i, t')
    → t' ≡ record t { counterid = t'.counterid }
unfolding newid_by
newid_by-fields true last t t' i e =
    subst (λ (x : Table). x ≡ record t { counterid = x.counterid }) (ap (λ p. p.1) (ok-inj e)) refl
newid_by-fields false true t t' i e = cc
newid_by-fields false false t t' i e =
    subst (λ (x : Table). x ≡ record t { counterid = x.counterid }) (ap (λ p. p.1) (ok-inj e)) refl

pub newid-fields :
    (t t' : Table) (i : ℕ) → newid t ≡ ok (i, t') → t' ≡ record t { counterid = t'.counterid }
unfolding newid
newid-fields t t' i e = newid_by-fields t.cppmode (t.counterid == 2 ^ 16 - 1) t t' i e

pub linkhash-fields :
    (a b : ℕ) (s : Sym) (name : List ℕ) (t t' : Table)
    → t.store a ≡ some s
    → s.name ≡ some name
    → space_of s.ns ≡ idents
    → linkhash a t ≡ ok (b, t')
    → Relinked a s name t t'
unfolding linkhash the
linkhash-fields a b s name t t' st nm sp e =
    let linked = record t {
      chains = set_chain t.chains idents (hash name s.ns) (a ∷ t.chains idents (hash name s.ns));
    } in
    let e' = rw (st, nm, sp, (space_idents s.ns sp).0) at e in
    let (p, en, ef) = bind_ok (newid linked) _ e' in
    let fields = newid-fields linked p.1 p.0 en in
    let result = ap (λ q. q.1) (ok-inj ef) in
    subst (λ (x : Table). Relinked a s name t x) result
      (record {
        now = record s { name = some name; id = p.0; declared = true };
        same_ctx = refl;
        same_ns = refl;
        same_name = refl;
        now_declared = refl;
        curctx_eq = ap (λ x. x.curctx) fields;
        head_eq = ap (λ x. x.head) fields;
        labels_eq = ap (λ x. x.labels) fields;
        fresh_eq = ap (λ x. x.fresh) fields;
        chains_eq = ap (λ x. x.chains) fields;
        store_eq =
            ap
              (λ (x : Table).
                set_store x.store a
                  (some (record s { name = some name; id = p.0; declared = true })))
              fields;
      })

-- The invariant after `newsym`, and after `linkhash` of what `newsym` has made.
pub IsLinked-keep :
    (store store' : ℕ → Option Sym) (fresh a : ℕ)
    → ((j : ℕ) → j < fresh → store' j ≡ store j)
    → IsLinked store fresh a
    → IsLinked store' (fresh + 1) a
IsLinked-keep store store' fresh a keep (h, (x, e, d)) = (omega arith, (x, keep a h ∙ e, d))

pub newsym-Inner :
    {t0 t : Table} {ks : List ℕ} (ns : ℕ) (name : Option (List ℕ))
    → ((ns == cpp) ≡ false) × ((ns == label) ≡ false)
    → Inner t0 t ks
    → Inner t0 (newsym ns name t).1 (t.fresh ∷ ks)
unfolding newsym
newsym-Inner {t = t} ns name h i =
    let made : Option Sym = some (record {
      name = name;
      id = 0;
      ctx = t.curctx;
      ns = ns;
      declared = false;
      typedef = false;
    }) in
    let keep : (j : ℕ) → j < t.fresh → set_store t.store t.fresh made j ≡ t.store j =
      λ j l. set_store-other t.store t.fresh j made l in
    record {
      curctx_eq = i.curctx_eq;
      head_eq = rw (h.0, h.1) (ap (λ l. t.fresh ∷ l) i.head_eq);
      stacked =
          loose _ (omega arith) i.fresh_le (set_store-same t.store t.fresh made) refl refl
            (Stacked-store keep i.stacked);
      outer = Outer-store (λ j l. keep j (omega (arith, i.fresh_le))) i.outer;
      chained = λ k.
          All-map (t.chains idents k) (λ a. IsLinked-keep t.store _ t.fresh a keep) (i.chained k);
      fresh_le = omega (arith, i.fresh_le);
      labels_eq = rw h.1 i.labels_eq;
      kept = λ a l. keep a (omega (arith, i.fresh_le)) ∙ i.kept a l;
    }

pub update_same : (c : ℕ → List ℕ) (h : ℕ) (r : List ℕ) → update c h r h ≡ r
update_same c h r = rw ((==_iff h h).1 refl)

pub update_back : (c : ℕ → List ℕ) (h x : ℕ) (l : List ℕ) → c x ≡ update (update c h l) h (c h) x
update_back c h x l = elim (Bool-cases (h == x)) [
  | inl e ↦ rw e (ap c (sym ((==_iff h x).0 e)))
  | inr e ↦ rw e
]

pub update-All :
    (P : ℕ → Type 0) (c : ℕ → List ℕ) (h x a : ℕ)
    → P a
    → ((k : ℕ) → All P (c k))
    → All P (update c h (a ∷ c h) x)
update-All P c h x a p all = elim (Bool-cases (h == x)) [
  | inl e ↦ rw e (p, all h)
  | inr e ↦ rw e (all x)
]

pub linkhash-Inner :
    {t0 t : Table} {ks : List ℕ} (ns b : ℕ) (name : List ℕ) (t' : Table)
    → space_of ns ≡ idents
    → Inner t0 t ks
    → linkhash t.fresh (newsym ns (some name) t).1 ≡ ok (b, t')
    → Inner t0 t' (t.fresh ∷ ks)
unfolding newsym set_store set_chain
linkhash-Inner {t0 = t0} {t = t} {ks = ks} ns b name t' h i e =
    let s : Sym = record {
      name = some name;
      id = 0;
      ctx = t.curctx;
      ns = ns;
      declared = false;
      typedef = false;
    } in
    let u : Table = (newsym ns (some name) t).1 in
    let r =
      linkhash-fields t.fresh b s name u t' (set_store-same t.store t.fresh (some s)) refl h e in
    rw (r.curctx_eq, r.head_eq, r.labels_eq, r.fresh_eq, r.chains_eq, r.store_eq)
      (record {
        curctx_eq = i.curctx_eq;
        head_eq =
            rw ((space_idents ns h).0, (space_idents ns h).1) (ap (λ l. t.fresh ∷ l) i.head_eq);
        stacked =
            linked r.now name (t.chains idents (hash name ns)) (omega arith) i.fresh_le
              (set_store-same u.store t.fresh (some r.now)) r.same_ctx r.now_declared
              (rw r.same_ns h) r.same_name
              (rw r.same_ns (
                set_chain-idents t.chains (hash name ns) (hash name ns) _
                ∙ update_same (t.chains idents) (hash name ns) _))
              (rw r.same_ns (
                Stacked-store (keep r.now) (
                  Stacked-ext
                    (λ x.
                      update_back (t.chains idents) (hash name ns) x
                        (t.fresh ∷ t.chains idents (hash name ns)))
                    i.stacked)));
        outer = Outer-store (λ j l. keep r.now j (omega (arith, i.fresh_le))) i.outer;
        chained = λ x.
            update-All _ (t.chains idents) (hash name ns) x t.fresh
              (omega arith, (r.now, set_store-same u.store t.fresh (some r.now), r.now_declared))
              (λ k.
                All-map (t.chains idents k) (λ a. IsLinked-keep t.store _ t.fresh a (keep r.now))
                  (i.chained k));
        fresh_le = omega (arith, i.fresh_le);
        labels_eq = rw (space_idents ns h).1 i.labels_eq;
        kept = λ a l. keep r.now a (omega (arith, i.fresh_le)) ∙ i.kept a l;
      })
  where
    keep :
        (v : Sym) (j : ℕ)
        → j < t.fresh
        → set_store (newsym ns (some name) t).1.store t.fresh (some v) j ≡ t.store j
    keep v j l =
        set_store-other (newsym ns (some name) t).1.store t.fresh j (some v) l
        ∙ set_store-other t.store t.fresh j _ l
