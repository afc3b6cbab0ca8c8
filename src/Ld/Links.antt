-- ===== src/Ld/Links.antt =====
-- The lists of symbols of src/cmd/ld/symbol.c. They are rings through the fields `next` and `prev` of
-- a structure whose other fields do not matter here; a structure is a number.
pub mod Ring
pub mod Moves
use simple_scc.Common.{ℕ, ◌==◌, if◌then◌else◌}

pub record Links : Type 0 where
  pub next : ℕ → ℕ
  pub prev : ℕ → ℕ

unfoldable pub set : (ℕ → ℕ) → ℕ → ℕ → ℕ → ℕ
set f a v x = if a == x then v else f x

-- p->next = v and p->prev = v.
unfoldable pub set_next : ℕ → ℕ → Links → Links
set_next p v l = record l { next = set l.next p v }

unfoldable pub set_prev : ℕ → ℕ → Links → Links
set_prev p v l = record l { prev = set l.prev p v }

unfoldable pub unlinksym : ℕ → Links → Links
unfolding set_next set_prev
unlinksym sp l0 =
    let l1 = set_prev (l0.next sp) (l0.prev sp) l0 in set_next (l1.prev sp) (l1.next sp) l1

unfoldable pub linksym : ℕ → ℕ → Links → Links
unfolding set_next set_prev
linksym lst sp l0 =
    let l1 = set_next sp lst l0 in
    let l2 = set_prev sp (l1.prev lst) l1 in
    let l3 = set_next (l2.prev lst) sp l2 in set_prev lst sp l3
