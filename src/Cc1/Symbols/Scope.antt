-- ===== src/Cc1/Symbols/Scope.antt =====
-- The loop of `popctx` in symbol.c over the symbols of a context.
use simple_scc.Common.{
  ℕ, ◌<◌, ◌≤◌, ◌≡◌, refl, sym, ◌∙◌, arith, true, false, List, [], ◌∷◌, ◌++◌, Option, none, some,
  ◌==◌, if◌then◌else◌, Bool-cases, inl, inr, ==_iff,
}
use simple_scc.Common.Ub.{ok, the}
use simple_scc.Cc1.Symbols.Ns.{label, cpp}
use simple_scc.Cc1.Symbols.{
  Sym, Space, Table, idents, space_of, hash, set_chain, set_store, remove, is_first, unlinkhash,
  killsym, kill_context,
}

abbrev pub update : (ℕ → List ℕ) → ℕ → List ℕ → ℕ → List ℕ
update c h r h' = if h == h' then r else c h'

-- The symbols `ks` of the context, newest first, as `popctx` meets them: each one that is declared
-- is the first of its chain when its turn comes, and in the end the chains are `c0` again.
pub data Stacked (store : ℕ → Option Sym) (ctx base : ℕ) (c0 : ℕ → List ℕ)
    : ℕ → List ℕ → (ℕ → List ℕ) → Type 0 where
  bottom : {n : ℕ} {c : ℕ → List ℕ} → ((h : ℕ) → c h ≡ c0 h) → Stacked store ctx base c0 n [] c
  loose :
      {n a : ℕ} {ks : List ℕ} {c : ℕ → List ℕ} (s : Sym)
      → a < n
      → base ≤ a
      → store a ≡ some s
      → s.ctx ≡ ctx
      → s.declared ≡ false
      → Stacked store ctx base c0 a ks c
      → Stacked store ctx base c0 n (a ∷ ks) c
  linked :
      {n a : ℕ} {ks : List ℕ} {c : ℕ → List ℕ} (s : Sym) (name r : List ℕ)
      → a < n
      → base ≤ a
      → store a ≡ some s
      → s.ctx ≡ ctx
      → s.declared ≡ true
      → space_of s.ns ≡ idents
      → s.name ≡ some name
      → c (hash name s.ns) ≡ a ∷ r
      → Stacked store ctx base c0 a ks (update c (hash name s.ns) r)
      → Stacked store ctx base c0 n (a ∷ ks) c

update_ext :
    (c c' : ℕ → List ℕ) (h : ℕ) (r : List ℕ) (x : ℕ) → c x ≡ c' x → update c h r x ≡ update c' h r x
update_ext c c' h r x e = rw e

pub Stacked-ext :
    {store : ℕ → Option Sym} {ctx base : ℕ} {c0 : ℕ → List ℕ} {n : ℕ} {ks : List ℕ}
    {c c' : ℕ → List ℕ}
    → ((h : ℕ) → c h ≡ c' h)
    → Stacked store ctx base c0 n ks c
    → Stacked store ctx base c0 n ks c'
Stacked-ext e (bottom b) = bottom (λ h. sym (e h) ∙ b h)
Stacked-ext e (loose s a b c d f k) = loose s a b c d f (Stacked-ext e k)
Stacked-ext {c = c} {c' = c'} e (linked s name r a b st ctx d sp nm ch k) =
    linked s name r a b st ctx d sp nm (sym (e (hash name s.ns)) ∙ ch)
      (Stacked-ext (λ h. update_ext c c' (hash name s.ns) r h (e h)) k)

pub Stacked-store :
    {store store' : ℕ → Option Sym} {ctx base : ℕ} {c0 : ℕ → List ℕ} {n : ℕ} {ks : List ℕ}
    {c : ℕ → List ℕ}
    → ((k : ℕ) → k < n → store' k ≡ store k)
    → Stacked store ctx base c0 n ks c
    → Stacked store' ctx base c0 n ks c
Stacked-store e (bottom b) = bottom b
Stacked-store e (loose {a = a} s h b st x d k) =
    loose s h b (e a h ∙ st) x d (Stacked-store (λ j l. e j (omega arith)) k)
Stacked-store e (linked {a = a} s name r h b st x d sp nm ch k) =
    linked s name r h b (e a h ∙ st) x d sp nm ch (Stacked-store (λ j l. e j (omega arith)) k)

pub space_idents : (ns : ℕ) → space_of ns ≡ idents → ((ns == cpp) ≡ false) × ((ns == label) ≡ false)
unfolding space_of
space_idents ns e = elim (Bool-cases (ns == cpp)) [
  | inl c ↦ cc (rw c at e)
  | inr c ↦ elim (Bool-cases (ns == label)) [ inl l ↦ cc (rw (c, l) at e) | inr l ↦ (c, l) ]
]

pub set_store-other :
    (store : ℕ → Option Sym) (a k : ℕ) (s : Option Sym) → k < a → set_store store a s k ≡ store k
unfolding set_store
set_store-other store a k s h = ground arith

pub set_store-same : (store : ℕ → Option Sym) (a : ℕ) (s : Option Sym) → set_store store a s a ≡ s
unfolding set_store
set_store-same store a s = ground arith

pub set_chain-idents :
    (chains : Space → ℕ → List ℕ) (h x : ℕ) (r : List ℕ)
    → set_chain chains idents h r idents x ≡ update (chains idents) h r x
unfolding set_chain
set_chain-idents chains h x r = refl

-- `unlinkhash` of a declared symbol that is the first of its chain.
killsym-first :
    (a : ℕ) (s : Sym) (name r : List ℕ) (t : Table)
    → t.store a ≡ some s
    → s.declared ≡ true
    → space_of s.ns ≡ idents
    → s.name ≡ some name
    → t.chains idents (hash name s.ns) ≡ a ∷ r
    → killsym a t
      ≡ ok (record t {
        chains = set_chain t.chains idents (hash name s.ns) r;
        store = set_store t.store a none;
      })
unfolding killsym unlinkhash the is_first remove
killsym-first a s name r t st d sp nm ch =
    rw (st, d, nm, sp, ch, (space_idents s.ns sp).0, (==_iff a a).1 refl) refl

killsym-loose :
    (a : ℕ) (s : Sym) (t : Table)
    → t.store a ≡ some s
    → s.declared ≡ false
    → killsym a t ≡ ok (record t { store = set_store t.store a none })
unfolding killsym unlinkhash the
killsym-loose a s t st d = rw (st, d)

-- What the loop of `popctx` leaves: the chains and the list of before the context.
pub record Popped (base : ℕ) (c0 : ℕ → List ℕ) (head : List ℕ) (t t' : Table) : Type 0 where
  pub head_eq : t'.head ≡ head
  pub chains_eq : (h : ℕ) → t'.chains idents h ≡ c0 h
  pub curctx_eq : t'.curctx ≡ t.curctx
  pub labels_eq : t'.labels ≡ t.labels
  pub store_eq : (a : ℕ) → a < base → t'.store a ≡ t.store a

-- The list of before: its first symbol is of an outer context.
pub data Outer (store : ℕ → Option Sym) (ctx base : ℕ) : List ℕ → Type 0 where
  empty : Outer store ctx base []
  first :
      {a : ℕ} {l : List ℕ} (s : Sym)
      → a < base
      → store a ≡ some s
      → s.ctx < ctx
      → Outer store ctx base (a ∷ l)

pub Outer-store :
    {store store' : ℕ → Option Sym} {ctx base : ℕ} {l : List ℕ}
    → ((a : ℕ) → a < base → store' a ≡ store a)
    → Outer store ctx base l
    → Outer store' ctx base l
Outer-store e empty = empty
Outer-store e (first {a = a} s h st x) = first s h (e a h ∙ st) x

kill_context-Outer :
    {base : ℕ} {l : List ℕ} (t : Table)
    → Outer t.store t.curctx base l
    → kill_context l t ≡ ok (record t { head = l })
unfolding kill_context the
kill_context-Outer t empty = refl
kill_context-Outer t (first s h st x) = rw (st, other s.ctx t.curctx x)
  where
    other : (a b : ℕ) → a < b → (a == b) ≡ false
    other a b h = ground arith

kill_context-cons :
    (a : ℕ) (l : List ℕ) (s : Sym) (t t' : Table)
    → t.store a ≡ some s
    → s.ctx ≡ t.curctx
    → killsym a t ≡ ok t'
    → kill_context (a ∷ l) t ≡ kill_context l t'
unfolding kill_context the
kill_context-cons a l s t t' st x k = rw (st, k, x, (==_iff t.curctx t.curctx).1 refl)

pub kill_context-Stacked :
    {base : ℕ} {c0 : ℕ → List ℕ} {n : ℕ} (ks head : List ℕ) (t : Table)
    → Stacked t.store t.curctx base c0 n ks (t.chains idents)
    → Outer t.store t.curctx base head
    → (t' : Table) × (kill_context (ks ++ head) t ≡ ok t') × Popped base c0 head t t'
kill_context-Stacked [] head t (bottom b) o = (
  record t { head = head },
  kill_context-Outer t o,
  record {
    head_eq = refl;
    chains_eq = b;
    curctx_eq = refl;
    labels_eq = refl;
    store_eq = λ a h. refl;
  },
)
kill_context-Stacked (a ∷ ks) head t (loose s h b st x d k) o =
    let t1 = record t { store = set_store t.store a none } in
    let keep = λ (j : ℕ) (l : j < a). set_store-other t.store a j none l in
    let (t', e, p) =
      kill_context-Stacked ks head t1 (Stacked-store keep k)
        (Outer-store (λ j l. keep j (omega arith)) o) in
    (
      t',
      kill_context-cons a (ks ++ head) s t t1 st x (killsym-loose a s t st d) ∙ e,
      record {
        head_eq = p.head_eq;
        chains_eq = p.chains_eq;
        curctx_eq = p.curctx_eq;
        labels_eq = p.labels_eq;
        store_eq = λ j l. p.store_eq j l ∙ keep j (omega arith);
      },
    )
kill_context-Stacked (a ∷ ks) head t (linked s name r h b st x d sp nm ch k) o =
    let t1 = record t {
      chains = set_chain t.chains idents (hash name s.ns) r;
      store = set_store t.store a none;
    } in
    let keep = λ (j : ℕ) (l : j < a). set_store-other t.store a j none l in
    let chained = λ (j : ℕ). sym (set_chain-idents t.chains (hash name s.ns) j r) in
    let (t', e, p) =
      kill_context-Stacked ks head t1 (Stacked-store keep (Stacked-ext chained k))
        (Outer-store (λ j l. keep j (omega arith)) o) in
    (
      t',
      kill_context-cons a (ks ++ head) s t t1 st x (killsym-first a s name r t st d sp nm ch) ∙ e,
      record {
        head_eq = p.head_eq;
        chains_eq = p.chains_eq;
        curctx_eq = p.curctx_eq;
        labels_eq = p.labels_eq;
        store_eq = λ j l. p.store_eq j l ∙ keep j (omega arith);
      },
    )
