-- ===== src/Ld/Symtab/Tests.antt =====
-- A linker that looks for `f`, and meets an object that defines it.
use simple_scc.Common.{ℕ, ◌≡◌, refl, arith, List, [], ◌∷◌, none, true, false}
use simple_scc.Common.Ub.{Ub, ok, undefined}
use simple_scc.Libscc.{genhash, same_name}
use simple_scc.Ld.Links.{Links, linksym, unlinksym, set, set_next, set_prev}
use simple_scc.Ld.Links.Ring.{Ring}
use simple_scc.Ld.Links.Moves.{linksym-unlinksym}
use simple_scc.Ld.Symtab.{Symbol, Table, lookupsym, define, hasref, moreundef, undef, def}
use simple_scc.Ld.Symtab.Types.{
  AllUndefined, Reachable, start, looked_up, defined, Reachable-AllUndefined,
}
use simple_scc.Ld.Symtab.Refs.{define-hasref}

abbrev f : List ℕ
f = b'f' ∷ []

abbrev no_links : Links
no_links = record { next = λ a. a; prev = λ a. a }

abbrev no_symbols : Table
no_symbols = record { symtab = λ h. []; syms = λ a. none; fresh = 3; links = no_links }

abbrev function : Symbol
function = record { name = f; size = 0; value = 64; type = b'T'; file = none }

-- The result of a call, or the table before it.
result : Table → Ub (ℕ × Table) → Table
result t (ok p) = p.1
result t undefined = t

abbrev wanted : Table
wanted = result no_symbols (lookupsym f no_symbols)

abbrev linked : Table
linked = result wanted (define function 0 wanted)

wanted_lem : lookupsym f no_symbols ≡ ok (3, wanted)
unfolding lookupsym result
wanted_lem = refl

linked_lem : define function 0 wanted ≡ ok (3, linked)
unfolding define lookupsym result genhash same_name
linked_lem = refl

still_wanted : moreundef wanted ≡ true
unfolding moreundef lookupsym result linksym set
still_wanted = refl

all_defined : moreundef linked ≡ false
unfolding moreundef define lookupsym result genhash same_name set
all_defined = refl

linked-Reachable : Reachable linked
linked-Reachable = defined function 0 (looked_up f (start (λ a. refl)) wanted_lem) linked_lem

Reachable-AllUndefined_example : AllUndefined linked
Reachable-AllUndefined_example = Reachable-AllUndefined linked linked-Reachable

define-hasref_example : hasref f linked ≡ ok true
define-hasref_example =
    define-hasref function 0 3 wanted linked (looked_up f (start (λ a. refl)) wanted_lem) linked_lem

-- The symbols 3 and 4 in `undef`, 5 in `def`.
abbrev three : Links
three = linksym def 5 (linksym undef 4 (linksym undef 3 no_links))

three-undef : Ring three undef (3 ∷ 4 ∷ [])
unfolding linksym set set_next set_prev
three-undef = (
  (refl, refl, (refl, refl, (refl, refl))),
  ((omega arith, (omega arith, tt)), ((omega arith, tt), (tt, tt))),
)

three-def : Ring three def (5 ∷ [])
unfolding linksym set set_next set_prev
three-def = ((refl, refl, (refl, refl)), ((omega arith, tt), (tt, tt)))

linksym-unlinksym_example :
    Ring (linksym def 3 (unlinksym 3 three)) undef (4 ∷ [])
    × Ring (linksym def 3 (unlinksym 3 three)) def (5 ∷ 3 ∷ [])
linksym-unlinksym_example =
    linksym-unlinksym three undef def 3 [] (4 ∷ []) (5 ∷ []) three-undef three-def (
      (omega arith, (omega arith, (omega arith, tt))),
      ((omega arith, (omega arith, (omega arith, tt))), tt),
    )
