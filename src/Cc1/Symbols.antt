-- ===== src/Cc1/Symbols.antt =====
-- The symbol table of the front end, src/cmd/cc/cc1/symbol.c, with `genhash` of
-- src/libscc/genhash.c. A symbol is an address in a store. The chains of the three hash tables and
-- the lists `head` and `labels`, which run through fields of the symbols, are lists of addresses.
use simple_scc.Common.{
  ℕ, zero, suc, ◌+◌, ◌-◌, ◌*◌, ◌/◌, ◌%◌, ◌^◌, bit_xor, Bool, true, false, not, ◌&&◌, ◌||◌, List, [],
  ◌∷◌, Option, none, some, ltb, leb, ◌==◌, if◌then◌else◌,
}
use simple_scc.Libscc.{genhash, same_name}
use simple_scc.Common.Ub.{Ub, ok, undefined, ◌>>=◌, the}
-- The enum `namespaces`; each structure has a number from `structs` on.
pub mod Ns
pub mod Scope
pub mod Linked
pub mod Actions
pub mod Context
mod Tests
use Ns.{iden, label, cpp, keyword, cppclauses, structs}

-- The fields that symbol.c reads or sets. `declared` and `typedef` are the flags SDECLARED and
-- STYPEDEF; the other flags choose warnings only. A name is the list of its characters.
pub record Sym : Type 0 where
  pub name : Option (List ℕ)
  pub id : ℕ
  pub ctx : ℕ
  pub ns : ℕ
  pub declared : Bool
  pub typedef : Bool

-- htab, htabcpp or htablbl.
pub data Space : Type 0 where
  idents macros gotos : Space

-- `store` holds the symbols, `fresh` is the next address that xmalloc gives. `cppmode` is
-- lexmode == CPPMODE.
pub record Table : Type 0 where
  pub curctx : ℕ
  pub counterid : ℕ
  pub cppmode : Bool
  pub head : List ℕ
  pub labels : List ℕ
  pub chains : Space → ℕ → List ℕ
  pub store : ℕ → Option Sym
  pub fresh : ℕ

unfoldable pub space_of : ℕ → Space
space_of ns = if ns == cpp then macros else if ns == label then gotos else idents

-- NR_SYM_HASH, NR_CPP_HASH and NR_LBL_HASH.
unfoldable pub nr_hash : Space → ℕ
nr_hash idents = 64
nr_hash macros = 32
nr_hash gotos = 16

-- The chain that `hash` points to. The sizes are powers of two, and `& (size - 1)` is a remainder.
unfoldable pub hash : List ℕ → ℕ → ℕ
hash name ns = genhash name % nr_hash (space_of ns)

same_space : Space → Space → Bool
same_space idents idents = true
same_space macros macros = true
same_space gotos gotos = true
same_space _ _ = false

unfoldable pub set_chain : (Space → ℕ → List ℕ) → Space → ℕ → List ℕ → Space → ℕ → List ℕ
unfolding same_space
set_chain chains sp h l sp' h' = if same_space sp sp' && h == h' then l else chains sp' h'

unfoldable pub set_store : (ℕ → Option Sym) → ℕ → Option Sym → ℕ → Option Sym
set_store store a s b = if a == b then s else store b

unfoldable pub remove : ℕ → List ℕ → Ub (List ℕ)
remove a [] = undefined
remove a (b ∷ l) = let rest = remove a l >>= λ r. ok (b ∷ r) in if a == b then ok l else rest

-- assert(sym->ns == NS_CPP || *h == sym)
unfoldable pub is_first : ℕ → List ℕ → Bool
is_first a [] = false
is_first a (b ∷ l) = a == b

unfoldable pub unlinkhash : ℕ → Sym → Table → Ub Table
unfolding the remove is_first
unlinkhash a sym t =
    if sym.declared
    then (do
      name ← the sym.name
      let h = hash name sym.ns
      let chain = t.chains (space_of sym.ns) h
      rest ← (if sym.ns == cpp || is_first a chain then remove a chain else undefined)
      ok (record t { chains = set_chain t.chains (space_of sym.ns) h rest }))
    else ok t

-- NR_BLOCK; beyond it the compiler stops with an error.
abbrev pub nr_block : ℕ
nr_block = 127

unfoldable pub pushctx : Table → Ub Table
pushctx t = if t.curctx == nr_block then undefined else ok (record t { curctx = t.curctx + 1 })

unfoldable pub killsym : ℕ → Table → Ub Table
unfolding unlinkhash the
killsym a t = do
  sym ← the (t.store a)
  t' ← unlinkhash a sym t
  ok (record t' { store = set_store t'.store a none })

-- The loop of `popctx` over `head`: it ends at a symbol of another context.
unfoldable pub kill_context : List ℕ → Table → Ub Table
unfolding the
kill_context [] t = ok (record t { head = [] })
kill_context (a ∷ l) t = do
  sym ← the (t.store a)
  let rest = killsym a t >>= kill_context l
  if sym.ctx == t.curctx then rest else ok (record t { head = a ∷ l })

unfoldable pub kill_labels : List ℕ → Table → Ub Table
kill_labels [] t = ok (record t { labels = [] })
kill_labels (a ∷ l) t = do t' ← killsym a t; kill_labels l t'

-- `popctx` where the next token is no identifier of the context that ends; see `popctx`.
unfoldable pub pop : Table → Ub Table
pop t = do
  t' ← kill_context t.head t
  let out = record t' { curctx = t'.curctx - 1 }
  if out.curctx == 0 then kill_labels out.labels out else ok out

-- By lexmode == CPPMODE, and whether `++counterid` wraps around at 16 bits, where the compiler stops.
unfoldable pub newid_by : Bool → Bool → Table → Ub (ℕ × Table)
newid_by true last t = ok (0, t)
newid_by false true t = undefined
newid_by false false t = ok (t.counterid + 1, record t { counterid = t.counterid + 1 })

unfoldable pub newid : Table → Ub (ℕ × Table)
unfolding newid_by
newid t = newid_by t.cppmode (t.counterid == 2 ^ 16 - 1) t

unfoldable pub newsym : ℕ → Option (List ℕ) → Table → ℕ × Table
newsym ns name t =
    let sym : Sym = record {
      name = name;
      id = 0;
      ctx = t.curctx;
      ns = ns;
      declared = false;
      typedef = false;
    } in
    (
      t.fresh,
      record t {
        store = set_store t.store t.fresh (some sym);
        fresh = t.fresh + 1;
        labels = if ns == label then t.fresh ∷ t.labels else t.labels;
        head = if ns == label || ns == cpp then t.head else t.fresh ∷ t.head;
      },
    )

unfoldable pub linkhash : ℕ → Table → Ub (ℕ × Table)
unfolding the
linkhash a t = do
  sym ← the (t.store a)
  name ← the sym.name
  let h = hash name sym.ns
  let chains = set_chain t.chains (space_of sym.ns) h (a ∷ t.chains (space_of sym.ns) h)
  let linked = record t { chains = chains }
  p ← (if sym.ns == cpp then ok (sym.id, linked) else newid linked)
  ok (
    a,
    record p.1 { store = set_store p.1.store a (some (record sym { id = p.0; declared = true })) },
  )

unfoldable pub newstring : Table → Ub (ℕ × Table)
unfolding newsym the
newstring t = do
  let (a, t') = newsym iden none t
  p ← newid t'
  sym ← the (p.1.store a)
  ok (a, record p.1 { store = set_store p.1.store a (some (record sym { id = p.0 })) })

unfoldable pub newlabel : Table → Ub (ℕ × Table)
unfolding newsym the
newlabel t = do
  let (a, t') = newsym label none t
  p ← newid t'
  sym ← the (p.1.store a)
  ok (a, record p.1 { store = set_store p.1.store a (some (record sym { id = p.0 })) })

-- Whether the lookup in the namespace `ns` ends at a symbol of that name.
unfoldable pub serves : ℕ → Sym → Bool
serves ns sym = sym.ns == ns || sym.ns == keyword || sym.typedef && leb structs ns

-- The loop over a chain.
unfoldable pub find : List ℕ → ℕ → (ℕ → Option Sym) → List ℕ → Ub (Option ℕ)
unfolding the same_name serves
find name ns store [] = ok none
find name ns store (a ∷ l) = do
  sym ← the (store a)
  s ← the sym.name
  let rest = find name ns store l
  if same_name s name && serves ns sym then ok (some a) else rest

-- What is returned for the symbol that the loop has found; `alloc` is ALLOC.
unfoldable pub answer : ℕ → List ℕ → Bool → Table → Option ℕ → Option ℕ × Table
answer ns name alloc t (some a) = (some a, t)
answer ns name true t none = let (a, t') = newsym ns (some name) t in (some a, t')
answer ns name false t none = (none, t)

unfoldable pub lookup : ℕ → List ℕ → Bool → Table → Ub (Option ℕ × Table)
unfolding answer
lookup ns name alloc t = do
  found ← find name ns t.store (t.chains (space_of ns) (hash name ns))
  ok (answer ns name alloc t found)

-- By whether the symbol cannot be linked itself, and whether it is a redeclaration.
unfoldable pub install_by : Bool → Bool → ℕ → ℕ → Sym → Table → Ub (Option ℕ × Table)
install_by false again ns a sym t = do p ← linkhash a t; ok (some p.0, p.1)
install_by true true ns a sym t = ok (none, t)
install_by true false ns a sym t = do
  p ← linkhash (newsym ns sym.name t).0 (newsym ns sym.name t).1
  ok (some p.0, p.1)

unfoldable pub install : ℕ → ℕ → Table → Ub (Option ℕ × Table)
unfolding install_by the
install ns a t = do
  sym ← the (t.store a)
  install_by (sym.declared || not (sym.ctx == t.curctx)) (sym.ctx == t.curctx && ns == sym.ns) ns a
      sym t

-- `popctx`. `token` is yylval.sym with yytext, where the next token is an identifier; the answer is
-- what yylval.sym becomes.
unfoldable pub popctx : Option (ℕ × List ℕ) → Table → Ub (Option ℕ × Table)
unfolding the
popctx none t = do t' ← pop t; ok (none, t')
popctx (some (a, text)) t = do
  sym ← the (t.store a)
  t' ← pop t
  if sym.ctx == t.curctx then lookup sym.ns text true t' else ok (some a, t')
