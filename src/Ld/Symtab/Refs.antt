-- ===== src/Ld/Symtab/Refs.antt =====
-- `hasref` behind `define`: a name that is defined still counts as a reference.
use mathlib.Core.Path.{subst}
use simple_scc.Common.{
  ℕ, ◌%◌, ◌≡◌, ◌≢◌, refl, sym, ap, ◌∙◌, arith, Bool, true, false, List, [], ◌∷◌, Option, none, some,
  if◌then◌else◌, Bool-cases, inl, inr, ◌⊎◌,
}
use simple_scc.Common.Ub.{ok, the, bind_ok, ok-inj, the_ok, some-inj}
use simple_scc.Libscc.{genhash, same_name}
use simple_scc.Ld.Symtab.{
  Symbol, Table, nr_symbol, put, search_chain, has_type, hasref, set_chain, insert, found_or_new,
  lookupsym, move, take_definition, define,
}
use simple_scc.Ld.Symtab.Types.{
  Reachable, looked_up, define-Defined, Reachable-AllUndefined, take_definition-syms,
}

abbrev pub slot : List ℕ → ℕ
slot name = genhash name % nr_symbol

same_name_self : (s : List ℕ) → same_name s s ≡ true
unfolding same_name
same_name_self [] = refl
same_name_self (a ∷ s) = ground (arith, same_name_self s)

nothing_found :
    (name : List ℕ) (syms : ℕ → Option Symbol) (a : ℕ) (s : Symbol)
    → search_chain name syms [] ≢ ok (some (a, s))
unfolding search_chain
nothing_found name syms a s e = cc

put-same : (syms : ℕ → Option Symbol) (a : ℕ) (s : Symbol) → put syms a s a ≡ some s
unfolding put
put-same syms a s = ground arith

search_chain-hit :
    (name : List ℕ) (syms : ℕ → Option Symbol) (b : ℕ) (l : List ℕ) (r : Symbol)
    → syms b ≡ some r
    → same_name name r.name ≡ true
    → search_chain name syms (b ∷ l) ≡ ok (some (b, r))
unfolding search_chain the
search_chain-hit name syms b l r e h = rw (e, h) refl

search_chain-miss :
    (name : List ℕ) (syms : ℕ → Option Symbol) (b : ℕ) (l : List ℕ) (r : Symbol)
    → syms b ≡ some r
    → same_name name r.name ≡ false
    → search_chain name syms (b ∷ l) ≡ search_chain name syms l
unfolding search_chain the
search_chain-miss name syms b l r e h = rw (e, h) refl

-- A search that finds something ends at the first member or goes on behind it.
search_chain-cases :
    (name : List ℕ) (syms : ℕ → Option Symbol) (b : ℕ) (l : List ℕ) (a : ℕ) (s : Symbol)
    → search_chain name syms (b ∷ l) ≡ ok (some (a, s))
    → (r : Symbol) × (syms b ≡ some r)
      × (((same_name name r.name ≡ true) × (b ≡ a) × (r ≡ s))
          ⊎ ((same_name name r.name ≡ false) × (search_chain name syms l ≡ ok (some (a, s)))))
unfolding search_chain
search_chain-cases name syms b l a s e =
    let (r, e1, e2) = bind_ok (the (syms b)) _ e in
    (
      r,
      the_ok _ e1,
      elim (Bool-cases (same_name name r.name)) [
        | inl h ↦
            let e3 : ok (some (b, r)) ≡ ok (some (a, s)) =
              subst
                (λ (c : Bool).
                  (if c then ok (some (b, r)) else search_chain name syms l) ≡ ok (some (a, s)))
                h e2 in
            let p = some-inj (ok-inj e3) in inl (h, ap (λ q. q.0) p, ap (λ q. q.1) p)
        | inr h ↦ inr (
          h,
          subst
              (λ (c : Bool).
                (if c then ok (some (b, r)) else search_chain name syms l) ≡ ok (some (a, s)))
              h e2,
        )
      ],
    )

-- What the search finds is at its address, and has the name.
search_chain-found :
    (name : List ℕ) (syms : ℕ → Option Symbol) (l : List ℕ) (a : ℕ) (s : Symbol)
    → search_chain name syms l ≡ ok (some (a, s))
    → (syms a ≡ some s) × (same_name name s.name ≡ true)
search_chain-found name syms [] a s e = absurd (nothing_found name syms a s e)
search_chain-found name syms (b ∷ l) a s e =
    let (r, k, c) = search_chain-cases name syms b l a s e in
    elim c [
      | inl (h, p, q) ↦
          (ap syms (sym p) ∙ k ∙ ap some q, ap (λ x. same_name name (x.name)) (sym q) ∙ h)
      | inr (h, m) ↦ search_chain-found name syms l a s m
    ]

put-other :
    (syms : ℕ → Option Symbol) (a : ℕ) (s : Symbol) (b : ℕ) → a ≢ b → put syms a s b ≡ syms b
unfolding put
put-other syms a s b n = ground arith

true-false : true ≢ false
true-false e = cc

two_names :
    (name : List ℕ) (syms : ℕ → Option Symbol) (a b : ℕ) (r s : Symbol)
    → a ≡ b
    → syms b ≡ some r
    → same_name name r.name ≡ false
    → ¬ ((syms a ≡ some s) × (same_name name s.name ≡ true))
two_names name syms a b r s g k h (m, t) =
    let q = some-inj (sym k ∙ ap syms (sym g) ∙ m) in
    true-false (sym t ∙ ap (λ x. same_name name (x.name)) (sym q) ∙ h)

-- The search does not depend on other fields than the name.
search_chain-put :
    (name : List ℕ) (syms : ℕ → Option Symbol) (l : List ℕ) (a : ℕ) (s s' : Symbol)
    → search_chain name syms l ≡ ok (some (a, s))
    → s'.name ≡ s.name
    → search_chain name (put syms a s') l ≡ ok (some (a, s'))
search_chain-put name syms [] a s s' e n = absurd (nothing_found name syms a s e)
search_chain-put name syms (b ∷ l) a s s' e n =
    let (r, k, c) = search_chain-cases name syms b l a s e in
    elim c [
      | inl (h, p, q) ↦
          search_chain-hit name (put syms a s') b l s' (ap (put syms a s') p ∙ put-same syms a s')
            (ap (same_name name) (n ∙ ap (λ x. x.name) (sym q)) ∙ h)
          ∙ ap (λ x. ok (some (x, s'))) p
      | inr (h, m) ↦
          search_chain-miss name (put syms a s') b l r
            (put-other syms a s' b
                (λ g. two_names name syms a b r s g k h (search_chain-found name syms l a s m))
              ∙ k)
            h
          ∙ search_chain-put name syms l a s s' m n
    ]

set_chain-same : (tab : ℕ → List ℕ) (h : ℕ) (l : List ℕ) → set_chain tab h l h ≡ l
unfolding set_chain
set_chain-same tab h l = ground arith

-- A name that `lookupsym` returns a symbol for is found in the table that it leaves.
insert-search :
    (name : List ℕ) (t : Table)
    → (s : Symbol) × (search_chain name
          (insert name t).1.syms
          ((insert name t).1.symtab (slot name))
        ≡ ok (some ((insert name t).0, s)))
unfolding insert
insert-search name t = (
  _,
  ap (search_chain name _) (set_chain-same t.symtab (slot name) (t.fresh ∷ t.symtab (slot name)))
      ∙ search_chain-hit name _ t.fresh (t.symtab (slot name)) _ (put-same t.syms t.fresh _)
          (same_name_self name),
)

found-search :
    (name : List ℕ) (t : Table) (f : Option (ℕ × Symbol))
    → search_chain name t.syms (t.symtab (slot name)) ≡ ok f
    → (s : Symbol) × (search_chain name
          (found_or_new name t f).1.syms
          ((found_or_new name t f).1.symtab (slot name))
        ≡ ok (some ((found_or_new name t f).0, s)))
unfolding found_or_new
found-search name t none e = insert-search name t
found-search name t (some (a, s)) e = (s, e)

lookupsym-search :
    (name : List ℕ) (t t' : Table) (a : ℕ)
    → lookupsym name t ≡ ok (a, t')
    → (s : Symbol) × (search_chain name t'.syms (t'.symtab (slot name)) ≡ ok (some (a, s)))
unfolding lookupsym
lookupsym-search name t t' a e =
    let (f, ef, er) = bind_ok (search_chain name t.syms (t.symtab (slot name))) _ e in
    subst
      (λ (y : ℕ × Table).
        (s : Symbol) × (search_chain name y.1.syms (y.1.symtab (slot name)) ≡ ok (some (y.0, s))))
      (ok-inj er) (found-search name t f ef)

take_definition-symtab :
    (osym : Symbol) (a : ℕ) (sym : Symbol) (t : Table)
    → sym.type ≡ b'U'
    → (take_definition osym a sym t).symtab ≡ t.symtab
unfolding take_definition move
take_definition-symtab osym a sym t u = rw u refl

hasref-search :
    (name : List ℕ) (t : Table) (a : ℕ) (s : Symbol)
    → search_chain name t.syms (t.symtab (slot name)) ≡ ok (some (a, s))
    → s.type ≡ b'U'
    → hasref name t ≡ ok true
unfolding hasref has_type
hasref-search name t a s e u = ground (arith, e)

take_definition-search :
    (osym : Symbol) (a : ℕ) (s r : Symbol) (t : Table)
    → search_chain osym.name t.syms (t.symtab (slot osym.name)) ≡ ok (some (a, s))
    → r.name ≡ s.name
    → r.type ≡ b'U'
    → search_chain osym.name
        (take_definition osym a r t).syms
        ((take_definition osym a r t).symtab (slot osym.name))
      ≡ ok (some (a, record r { value = osym.value; size = osym.size }))
take_definition-search osym a s r t e n u =
    let name = osym.name in
    ap (λ (f : ℕ → List ℕ). search_chain name (take_definition osym a r t).syms (f (slot name)))
      (take_definition-symtab osym a r t u)
    ∙ ap (λ (f : ℕ → Option Symbol). search_chain name f (t.symtab (slot name)))
        (take_definition-syms osym a r t u)
    ∙ search_chain-put name t.syms (t.symtab (slot name)) a s _ e n

-- In a table that calls of `lookupsym` and `define` make of an empty one, a name that `define` has
-- just given a definition is still a reference for `hasref`.
pub define-hasref :
    (osym : Symbol) (obj a : ℕ) (t t' : Table)
    → Reachable t
    → define osym obj t ≡ ok (a, t')
    → hasref osym.name t' ≡ ok true
define-hasref osym obj a t t' r e =
    let d = define-Defined osym obj a t t' e in
    let (s, look) = lookupsym-search osym.name t d.found a d.look in
    let u = Reachable-AllUndefined d.found (looked_up osym.name r d.look) a d.old d.old_eq in
    let old_s =
      some-inj (sym d.old_eq ∙ (search_chain-found osym.name d.found.syms _ a s look).0) in
    let new = record d.old { file = some obj } in
    let filed = search_chain-put osym.name d.found.syms _ a s new look (ap (λ x. x.name) old_s) in
    subst (λ (x : Table). hasref osym.name x ≡ ok true) (sym d.result)
      (hasref-search osym.name _ a _ (take_definition-search osym a new new _ filed refl u) u)
