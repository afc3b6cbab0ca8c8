-- ===== src/Ld/Symtab/Types.antt =====
-- The types of the symbols in the linker's table: none but 'U' is ever set.
use mathlib.Core.Path.{subst}
use simple_scc.Common.{ℕ, ◌%◌, ◌≡◌, ◌≢◌, refl, sym, ap, ◌∙◌, arith, List, Option, none, some, ◌==◌}
use simple_scc.Common.Ub.{ok, the, bind_ok, ok-inj, the_ok, guarded}
use simple_scc.Libscc.{genhash}
use simple_scc.Ld.Symtab.{
  Symbol, Table, nr_symbol, put, search_chain, insert, found_or_new, lookupsym, move,
  take_definition, define,
}

-- Every symbol has the type 'U'.
abbrev pub AllUndefined : Table → Type 0
AllUndefined t = (a : ℕ) (s : Symbol) → t.syms a ≡ some s → s.type ≡ b'U'

-- The tables that calls of `lookupsym` and `define` make of one with no symbols.
pub data Reachable : Table → Type 0 where
  start : {t : Table} → ((a : ℕ) → t.syms a ≡ none) → Reachable t
  looked_up :
      {t t' : Table} {a : ℕ} (name : List ℕ)
      → Reachable t
      → lookupsym name t ≡ ok (a, t')
      → Reachable t'
  defined :
      {t t' : Table} {a : ℕ} (osym : Symbol) (obj : ℕ)
      → Reachable t
      → define osym obj t ≡ ok (a, t')
      → Reachable t'

put-U :
    (syms : ℕ → Option Symbol) (a : ℕ) (s : Symbol)
    → ((b : ℕ) (r : Symbol) → syms b ≡ some r → r.type ≡ b'U')
    → s.type ≡ b'U'
    → (b : ℕ) (r : Symbol) → put syms a s b ≡ some r
    → r.type ≡ b'U'
unfolding put
put-U syms a s k u b r e = ground (arith, k b r)

insert-U : (name : List ℕ) (t : Table) → AllUndefined t → AllUndefined (insert name t).1
unfolding insert
insert-U name t k = put-U t.syms t.fresh _ k refl

found-U :
    (name : List ℕ) (t : Table) (f : Option (ℕ × Symbol))
    → AllUndefined t
    → AllUndefined (found_or_new name t f).1
unfolding found_or_new
found-U name t none k = insert-U name t k
found-U name t (some p) k = k

-- A symbol of type 'U' takes the value and the size of the definition.
pub take_definition-syms :
    (osym : Symbol) (a : ℕ) (sym : Symbol) (t : Table)
    → sym.type ≡ b'U'
    → (take_definition osym a sym t).syms
      ≡ put t.syms a (record sym { value = osym.value; size = osym.size })
unfolding take_definition move
take_definition-syms osym a sym t u = rw u refl

take-U :
    (osym : Symbol) (a : ℕ) (sym : Symbol) (t : Table)
    → AllUndefined t
    → sym.type ≡ b'U'
    → AllUndefined (take_definition osym a sym t)
take-U osym a sym t k u b r e =
    put-U t.syms a _ k u b r (subst (λ x. x b ≡ some r) (take_definition-syms osym a sym t u) e)

lookupsym-U :
    (name : List ℕ) (t t' : Table) (a : ℕ)
    → AllUndefined t
    → lookupsym name t ≡ ok (a, t')
    → AllUndefined t'
unfolding lookupsym
lookupsym-U name t t' a k e =
    let (f, ef, er) =
      bind_ok (search_chain name t.syms (t.symtab (genhash name % nr_symbol))) _ e in
    subst AllUndefined (ap (λ p. p.1) (ok-inj er)) (found-U name t f k)

some-none {ℓ} : {A : Type ℓ} {x : A} → some x ≢ none
some-none e = cc

-- What `define` returns where it returns.
pub record Defined (osym : Symbol) (obj a : ℕ) (t t' : Table) : Type 0 where
  pub found : Table
  pub old : Symbol
  pub look : lookupsym osym.name t ≡ ok (a, found)
  pub old_eq : found.syms a ≡ some old
  pub result :
      t'
      ≡ take_definition osym a
          (record old { file = some obj })
          (record found { syms = put found.syms a (record old { file = some obj }) })

pub define-Defined :
    (osym : Symbol) (obj a : ℕ) (t t' : Table)
    → define osym obj t ≡ ok (a, t')
    → Defined osym obj a t t'
unfolding define
define-Defined osym obj a t t' e =
    let (p, e1, r1) = bind_ok (lookupsym osym.name t) _ e in
    let (s, e2, r2) = bind_ok (the (p.1.syms p.0)) _ r1 in
    subst (λ (y : ℕ × Table). Defined osym obj y.0 t y.1) (guarded (osym.type == b'U') r2).1
      (record { found = p.1; old = s; look = e1; old_eq = the_ok _ e2; result = refl })

define-U :
    (osym : Symbol) (obj a : ℕ) (t t' : Table)
    → AllUndefined t
    → Defined osym obj a t t'
    → AllUndefined t'
define-U osym obj a t t' k d =
    let kf = lookupsym-U osym.name t d.found a k d.look in
    let u = kf a d.old d.old_eq in
    subst AllUndefined (sym d.result) (take-U osym a _ _ (put-U d.found.syms a _ kf u) u)

-- In every table that calls of `lookupsym` and `define` make of an empty one, all symbols have the type
-- 'U', the ones that are defined too.
pub Reachable-AllUndefined : (t : Table) → Reachable t → AllUndefined t
Reachable-AllUndefined t (start k) = λ a s e. absurd (some-none (sym e ∙ k a))
Reachable-AllUndefined t (looked_up {t = t1} {a = a} name r e) =
    lookupsym-U name t1 t a (Reachable-AllUndefined t1 r) e
Reachable-AllUndefined t (defined {t = t1} {a = a} osym obj r e) =
    define-U osym obj a t1 t (Reachable-AllUndefined t1 r) (define-Defined osym obj a t1 t e)
