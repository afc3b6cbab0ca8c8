-- ===== src/Ld/Symtab.antt =====
-- The symbol table of the linker, src/cmd/ld/symbol.c. A structure is a number: 0, 1 and 2 are the
-- heads `undef`, `def` and `common`, and from 3 on there are the symbols.
pub mod Types
pub mod Refs
mod Tests
use simple_scc.Common.{
  ℕ, ◌+◌, ◌%◌, Bool, true, false, not, List, [], ◌∷◌, Option, none, some, ltb, ◌==◌, if◌then◌else◌,
}
use simple_scc.Common.Ub.{Ub, ok, undefined, ◌>>=◌, the}
use simple_scc.Libscc.{genhash, same_name}
use simple_scc.Ld.Links.{Links, linksym, unlinksym}

-- `type` is a letter, and `file` the object in `where`. The index is left out: it is set to 0 and not
-- read.
pub record Symbol : Type 0 where
  pub name : List ℕ
  pub size : ℕ
  pub value : ℕ
  pub type : ℕ
  pub file : Option ℕ

pub record Table : Type 0 where
  pub symtab : ℕ → List ℕ
  pub syms : ℕ → Option Symbol
  pub fresh : ℕ
  pub links : Links

abbrev pub undef : ℕ
undef = 0

abbrev pub def : ℕ
def = 1

abbrev pub common : ℕ
common = 2

abbrev pub nr_symbol : ℕ
nr_symbol = 128

unfoldable pub put : (ℕ → Option Symbol) → ℕ → Symbol → ℕ → Option Symbol
put syms a s b = if a == b then some s else syms b

-- The loop of `hasref` and `lookupsym` over a chain.
unfoldable pub search_chain : List ℕ → (ℕ → Option Symbol) → List ℕ → Ub (Option (ℕ × Symbol))
unfolding the
search_chain name syms [] = ok none
search_chain name syms (a ∷ l) = do
  s ← the (syms a)
  let rest = search_chain name syms l
  if same_name name s.name then ok (some (a, s)) else rest

unfoldable pub has_type : ℕ → Option (ℕ × Symbol) → Bool
has_type c none = false
has_type c (some (a, s)) = s.type == c

unfoldable pub hasref : List ℕ → Table → Ub Bool
unfolding search_chain has_type
hasref name t = do
  found ← search_chain name t.syms (t.symtab (genhash name % nr_symbol))
  ok (has_type b'U' found)

unfoldable pub set_chain : (ℕ → List ℕ) → ℕ → List ℕ → ℕ → List ℕ
set_chain tab h l h' = if h == h' then l else tab h'

-- A symbol that `lookupsym` makes.
unfoldable pub insert : List ℕ → Table → ℕ × Table
unfolding set_chain put
insert name t =
    let h = genhash name % nr_symbol in
    (
      t.fresh,
      record {
        symtab = set_chain t.symtab h (t.fresh ∷ t.symtab h);
        syms =
            put t.syms t.fresh
              (record { name = name; size = 0; value = 0; type = b'U'; file = none });
        fresh = t.fresh + 1;
        links = linksym undef t.fresh t.links;
      },
    )

unfoldable pub found_or_new : List ℕ → Table → Option (ℕ × Symbol) → ℕ × Table
unfolding insert
found_or_new name t none = insert name t
found_or_new name t (some (a, s)) = (a, t)

unfoldable pub lookupsym : List ℕ → Table → Ub (ℕ × Table)
unfolding search_chain found_or_new
lookupsym name t = do
  found ← search_chain name t.syms (t.symtab (genhash name % nr_symbol))
  ok (found_or_new name t found)

unfoldable pub moreundef : Table → Bool
moreundef t = not (t.links.next undef == undef)

-- linksym(lst, unlinksym(sym))
unfoldable pub move : ℕ → ℕ → Table → Table
unfolding linksym unlinksym
move lst a t = record t { links = linksym lst a (unlinksym a t.links) }

-- The switch of `define`; `a` is the structure and `sym` what it holds. What follows `defaul:` is
-- never reached.
unfoldable pub take_definition : Symbol → ℕ → Symbol → Table → Table
unfolding put move
take_definition osym a sym t =
    let set =
      λ (v : ℕ) (n : ℕ). record t { syms = put t.syms a (record sym { value = v; size = n }) } in
    if sym.type == b'U'
    then move (if osym.type == b'C' then common else def) a (set osym.value osym.size)
    else if sym.type == b'C'
    then (if not (osym.type == b'C')
        then move def a (set osym.size osym.size)
        else if ltb sym.size osym.size
        then set osym.value osym.size
        else t)
    else t

-- The assertion that `osym` has a definition comes after the lookup.
unfoldable pub define : Symbol → ℕ → Table → Ub (ℕ × Table)
unfolding lookupsym take_definition put
define osym obj t = do
  (a, t1) ← lookupsym osym.name t
  s ← the (t1.syms a)
  let sym = record s { file = some obj }
  let t2 = record t1 { syms = put t1.syms a sym }
  if osym.type == b'U' then undefined else ok (a, take_definition osym a sym t2)
