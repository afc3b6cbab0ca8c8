-- ===== src/Cc1/Symbols/Context.antt =====
-- A context of symbol.c from `pushctx` to `popctx`.
use simple_scc.Common.{
  ℕ, suc, ◌+◌, ◌-◌, ◌<◌, ◌≡◌, refl, sym, ap, ◌∙◌, arith, Bool, true, false, List, [], ◌∷◌, Option,
  none, some, All, ◌==◌, if◌then◌else◌, Bool-cases, inl, inr, ==_iff,
}
use mathlib.Core.Path.{subst}
use simple_scc.Common.Ub.{ok, bind_ok, ok-inj}
use simple_scc.Cc1.Symbols.{
  answer, Sym, Table, idents, space_of, hash, pushctx, kill_context, kill_labels, pop, popctx, find,
  answer, lookup,
}
use simple_scc.Cc1.Symbols.Scope.{bottom, Outer, kill_context-Stacked}
use simple_scc.Cc1.Symbols.Linked.{IsLinked, Inner}
use simple_scc.Cc1.Symbols.Actions.{Action, run, OfIdents, run-Inner}

-- The newest symbol is not of a context that is still to come, and the symbols in the chains are
-- declared.
pub record IsTable (t : Table) : Type 0 where
  pub outer : Outer t.store (suc t.curctx) t.fresh t.head
  pub chained : (h : ℕ) → All (IsLinked t.store t.fresh) (t.chains idents h)

pushctx-Inner : (t t' : Table) → IsTable t → pushctx t ≡ ok t' → Inner t t' []
unfolding pushctx
pushctx-Inner t t' w e = elim (Bool-cases (t.curctx == 127)) [
  | inl full ↦ cc (rw full at e)
  | inr room ↦
      subst (λ (x : Table). Inner t x []) (ok-inj (rw room at e))
        (record {
          curctx_eq = omega arith;
          head_eq = refl;
          stacked = bottom (λ h. refl);
          outer = let e' : t.curctx + 1 ≡ suc t.curctx = omega arith in rw e' w.outer;
          chained = w.chained;
          fresh_le = omega arith;
          labels_eq = refl;
          kept = λ a h. refl;
        })
]

-- The table of before, but for what the context has used up: the counters, and freed symbols.
pub record IsRestored (t t' : Table) : Type 0 where
  pub curctx_eq : t'.curctx ≡ t.curctx
  pub head_eq : t'.head ≡ t.head
  pub labels_eq : t'.labels ≡ t.labels
  pub chains_eq : (h : ℕ) → t'.chains idents h ≡ t.chains idents h
  pub store_eq : (a : ℕ) → a < t.fresh → t'.store a ≡ t.store a

kill_labels-nil :
    (l : List ℕ) (t : Table) → l ≡ [] → kill_labels l t ≡ ok (record t { labels = [] })
unfolding kill_labels
kill_labels-nil l t e = rw e

pop-by :
    (t t1 : Table) (b : Bool)
    → kill_context t.head t ≡ ok t1
    → (t1.curctx - 1 == 0) ≡ b
    → pop t ≡ (
        let out = record t1 { curctx = t1.curctx - 1 } in
        if b then kill_labels t1.labels out else ok out)
unfolding pop
pop-by t t1 b e z = rw (e, z)

pop-Inner :
    (t0 t : Table) (ks : List ℕ)
    → (t0.curctx ≡ 0 → t0.labels ≡ [])
    → Inner t0 t ks
    → (t' : Table) × (pop t ≡ ok t') × IsRestored t0 t'
pop-Inner t0 t ks no_labels i =
    let (t1, e, p) = kill_context-Stacked ks t0.head t i.stacked i.outer in
    let killed = ap (λ l. kill_context l t) i.head_eq ∙ e in
    let back : t1.curctx - 1 ≡ t0.curctx = omega (arith, p.curctx_eq, i.curctx_eq) in
    let kept = λ (a : ℕ) (h : a < t0.fresh). p.store_eq a h ∙ i.kept a h in
    let same = p.labels_eq ∙ i.labels_eq in
    elim (Bool-cases (t1.curctx - 1 == 0)) [
      | inl z ↦
          let none_left = no_labels (sym back ∙ (==_iff (t1.curctx - 1) 0).0 z) in
          (
            record t1 { curctx = t1.curctx - 1; labels = [] },
            pop-by t t1 true killed z ∙ kill_labels-nil t1.labels _ (same ∙ none_left),
            record {
              curctx_eq = back;
              head_eq = p.head_eq;
              labels_eq = sym none_left;
              chains_eq = p.chains_eq;
              store_eq = kept;
            },
          )
      | inr z ↦ (
        record t1 { curctx = t1.curctx - 1 },
        pop-by t t1 false killed z,
        record {
          curctx_eq = back;
          head_eq = p.head_eq;
          labels_eq = same;
          chains_eq = p.chains_eq;
          store_eq = kept;
        },
      )
    ]

-- A context that is opened, in which identifiers are looked up and declared, and that is popped
-- leaves the chains of htab, the list of symbols, and all symbols of before as they were; the next
-- token is no identifier. At the outermost level there are no labels.
pub popctx-pushctx :
    (t0 t1 t : Table) (xs : List Action)
    → IsTable t0
    → (t0.curctx ≡ 0 → t0.labels ≡ [])
    → All OfIdents xs
    → pushctx t0 ≡ ok t1
    → run xs t1 ≡ ok t
    → (t' : Table) × (popctx none t ≡ ok (none, t')) × IsRestored t0 t'
unfolding popctx
popctx-pushctx t0 t1 t xs w no_labels h e e' =
    let (ks, i) = run-Inner xs t h (pushctx-Inner t0 t1 w e) e' in
    let (t', e2, r) = pop-Inner t0 t ks no_labels i in (t', rw e2 refl, r)

find-kept :
    (name : List ℕ) (ns fresh : ℕ) (store store' : ℕ → Option Sym) (l : List ℕ)
    → ((a : ℕ) → a < fresh → store' a ≡ store a)
    → All (IsLinked store fresh) l
    → find name ns store' l ≡ find name ns store l
unfolding find
find-kept name ns fresh store store' [] keep h = refl
find-kept name ns fresh store store' (a ∷ l) keep h =
    rw (keep a h.0.0, find-kept name ns fresh store store' l keep h.1)

answer-false :
    (ns : ℕ) (name : List ℕ) (t : Table) (f : Option ℕ) → answer ns name false t f ≡ (f, t)
unfolding answer
answer-false ns name t none = refl
answer-false ns name t (some a) = refl

lookup-found :
    (t : Table) (ns : ℕ) (name : List ℕ) (found : Option ℕ)
    → find name ns t.store (t.chains (space_of ns) (hash name ns)) ≡ ok found
    → lookup ns name false t ≡ ok (found, t)
unfolding lookup
lookup-found t ns name found e = rw e (ap ok (answer-false ns name t found))

found-lookup :
    (t : Table) (ns : ℕ) (name : List ℕ) (found : Option ℕ)
    → lookup ns name false t ≡ ok (found, t)
    → find name ns t.store (t.chains (space_of ns) (hash name ns)) ≡ ok found
unfolding lookup
found-lookup t ns name found e =
    let (f, ef, e2) = bind_ok (find name ns t.store (t.chains (space_of ns) (hash name ns))) _ e in
    ef ∙ ap ok (ap (λ p. p.0) (sym (answer-false ns name t f) ∙ ok-inj e2))

-- A lookup in htab, without allocation, that finds a symbol or none before a context is opened, finds
-- the same after it is popped, if identifiers are looked up and declared in the context: what hid
-- others is gone. The next token is no identifier; at the outermost level there are no labels.
pub lookup-popctx :
    (t0 t1 t : Table) (xs : List Action) (ns : ℕ) (name : List ℕ) (found : Option ℕ)
    → IsTable t0
    → (t0.curctx ≡ 0 → t0.labels ≡ [])
    → All OfIdents xs
    → pushctx t0 ≡ ok t1
    → run xs t1 ≡ ok t
    → space_of ns ≡ idents
    → lookup ns name false t0 ≡ ok (found, t0)
    → (t' : Table) × (popctx none t ≡ ok (none, t')) × (lookup ns name false t' ≡ ok (found, t'))
lookup-popctx t0 t1 t xs ns name found w no_labels h e e' sp l =
    let (t', popped, r) = popctx-pushctx t0 t1 t xs w no_labels h e e' in
    let chain : t'.chains (space_of ns) (hash name ns) ≡ t0.chains (space_of ns) (hash name ns) =
      rw sp (r.chains_eq (hash name ns)) in
    let links : All (IsLinked t0.store t0.fresh) (t0.chains (space_of ns) (hash name ns)) =
      rw sp (w.chained (hash name ns)) in
    (
      t',
      popped,
      lookup-found t' ns name found (
          ap (λ c. find name ns t'.store c) chain
          ∙ find-kept name ns t0.fresh t0.store t'.store _ r.store_eq links
          ∙ found-lookup t0 ns name found l),
    )
