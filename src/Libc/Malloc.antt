-- ===== src/Libc/Malloc.antt =====
-- The free list of the allocator, `_prevchunk` and `free` of src/libc/stdlib/malloc.c. Addresses count in
-- units of the union Header. The loop of `_prevchunk` has fuel.
pub mod Ring
pub mod Free
pub mod Units
mod Tests
use simple_scc.Common.{
  ℕ, zero, suc, ◌+◌, Bool, ◌&&◌, ◌||◌, ◌==◌, Option, none, some, ltb, leb, if◌then◌else◌,
}

-- `next` and `size` of the headers, and `_freep`.
pub record Heap : Type 0 where
  pub next : ℕ → ℕ
  pub size : ℕ → ℕ
  pub freep : ℕ

unfoldable pub is_prev : ℕ → ℕ → ℕ → Bool
is_prev hp p q = (ltb p hp && ltb hp q) || (leb q p && (ltb hp q || ltb p hp))

unfoldable pub prevchunk_from : ℕ → (ℕ → ℕ) → ℕ → ℕ → Option ℕ
unfolding is_prev
prevchunk_from zero next hp p = none
prevchunk_from (suc n) next hp p =
    let rest = prevchunk_from n next hp (next p) in if is_prev hp p (next p) then some p else rest

unfoldable pub prevchunk : ℕ → Heap → ℕ → Option ℕ
prevchunk fuel s hp = prevchunk_from fuel s.next hp s.freep

unfoldable pub set : ℕ → ℕ → (ℕ → ℕ) → ℕ → ℕ
set a x f i = if a == i then x else f i

-- Where the chunk ends at the next one, it takes it in.
unfoldable pub join_next : ℕ → ℕ → Heap → Heap
unfolding set
join_next hp next s =
    if hp + s.size hp == next
    then record s {
      size = set hp (s.size hp + s.size next) s.size;
      next = set hp (s.next next) s.next;
    }
    else record s { next = set hp next s.next }

-- Where the one before ends at the chunk, it takes the chunk in.
unfoldable pub join_prev : ℕ → ℕ → Heap → Heap
unfolding set
join_prev hp prev s =
    if prev + s.size prev == hp
    then record s {
      size = set prev (s.size prev + s.size hp) s.size;
      next = set prev (s.next hp) s.next;
    }
    else record s { next = set prev hp s.next }

-- `free` behind the search for the chunk before.
unfoldable pub merge : ℕ → Heap → Option ℕ → Option Heap
unfolding join_next join_prev
merge hp s none = none
merge hp s (some prev) =
    some (record (join_prev hp prev (join_next hp (s.next prev) s)) { freep = prev })

-- `free` of the header `hp`; a null pointer is `none`.
unfoldable pub free : ℕ → Option ℕ → Heap → Option Heap
unfolding merge
free fuel none s = some s
free fuel (some hp) s = merge hp s (prevchunk fuel s hp)
