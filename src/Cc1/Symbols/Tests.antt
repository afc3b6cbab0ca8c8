-- ===== src/Cc1/Symbols/Tests.antt =====
-- A context that declares an identifier x and a tag x, and mentions y, in a table with no symbols.
use simple_scc.Common.{◌≡◌, refl, false, List, [], ◌∷◌, none, All}
use simple_scc.Common.Ub.{Ub, ok, undefined}
use simple_scc.Cc1.Symbols.Ns.{iden, tag}
use simple_scc.Libscc.{genhash}
use simple_scc.Cc1.Symbols.{
  Table, pushctx, popctx, hash, space_of, nr_hash, set_chain, set_store, find, lookup, install,
  newsym, linkhash, newid,
}
use simple_scc.Cc1.Symbols.Scope.{empty}
use simple_scc.Cc1.Symbols.Actions.{OfIdents, Action, mention, declare, run}
use simple_scc.Cc1.Symbols.Context.{IsTable, IsRestored, popctx-pushctx, lookup-popctx}

abbrev before : Table
before = record {
  curctx = 1;
  counterid = 7;
  cppmode = false;
  head = [];
  labels = [];
  chains = λ sp h. [];
  store = λ a. none;
  fresh = 0;
}

abbrev opened : Table
opened = record before { curctx = 2 }

abbrev actions : List Action
actions = declare iden (b'x' ∷ []) ∷ declare tag (b'x' ∷ []) ∷ mention iden (b'y' ∷ []) ∷ []

result : Ub Table → Table
result (ok t) = t
result undefined = opened

before-IsTable : IsTable before
before-IsTable = record { outer = empty; chained = λ h. tt }

actions-OfIdents : All OfIdents actions
unfolding space_of
actions-OfIdents = (refl, (refl, (refl, tt)))

run-opened : run actions opened ≡ ok (result (run actions opened))
unfolding run result lookup find install newsym set_store linkhash newid set_chain space_of hash
    genhash nr_hash
run-opened = refl

popctx-pushctx_example :
    (t' : Table) × (popctx none (result (run actions opened)) ≡ ok (none, t'))
    × IsRestored before t'
popctx-pushctx_example =
    popctx-pushctx before opened (result (run actions opened)) actions before-IsTable (λ e. refl)
      actions-OfIdents (unfold pushctx in refl) run-opened

lookup-popctx_example :
    (t' : Table) × (popctx none (result (run actions opened)) ≡ ok (none, t'))
    × (lookup iden (b'x' ∷ []) false t' ≡ ok (none, t'))
unfolding space_of find
lookup-popctx_example =
    lookup-popctx before opened (result (run actions opened)) actions iden (b'x' ∷ []) none
      before-IsTable (λ e. refl) actions-OfIdents (unfold pushctx in refl) run-opened refl
      (unfold lookup in refl)
