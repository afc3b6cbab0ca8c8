-- ===== src/Libscc/Alloc.antt =====
-- The pool allocator, src/libscc/alloc.c: `alloc`, `newarena`, `new` and `delete`. An address counts
-- in units of the union `hdr`, whose size in bytes is `hdr`.
pub mod Apart
pub mod Run
pub mod Total
mod Tests
use simple_scc.Common.{
  ℕ, zero, suc, ◌+◌, ◌-◌, ◌*◌, ◌/◌, ◌%◌, ◌^◌, Bool, true, false, ◌||◌, List, [], ◌∷◌, Option, none,
  some, leb, ◌==◌, if◌then◌else◌,
}
use simple_scc.Common.Ub.{Ub, ok, undefined, ◌>>=◌, the}

-- `arena` has the field `array` of each arena, the newest first. `next` is the memory: what the field
-- `next` of the union at an address holds.
pub record Alloc : Type 0 where
  pub size : ℕ
  pub nmemb : ℕ
  pub arena : List ℕ
  pub freep : Option ℕ
  pub next : ℕ → Option ℕ

unfoldable pub write : ℕ → Option ℕ → (ℕ → Option ℕ) → ℕ → Option ℕ
write p v next q = if p == q then v else next q

unfoldable pub alloc : ℕ → ℕ → (ℕ → Option ℕ) → Alloc
alloc size nmemb memory = record {
  size = size;
  nmemb = nmemb;
  arena = [];
  freep = none;
  next = memory;
}

-- The loop of `newarena`, `n` rounds of it, and the null pointer behind it.
unfoldable pub link_blocks : ℕ → ℕ → ℕ → (ℕ → Option ℕ) → ℕ → Option ℕ
unfolding write
link_blocks zero unit bp next = write bp none next
link_blocks (suc n) unit bp next = link_blocks n unit (bp + unit) (write bp (some (bp + unit)) next)

module _ (hdr : ℕ) where
  -- (size-1) / sizeof(union hdr) + 1, in a size_t.
  unfoldable pub unit_of : ℕ → ℕ
  unit_of size = (size + 2 ^ 64 - 1) % 2 ^ 64 / hdr + 1

  -- `array` is what `xmalloc` returns. The size that is asked for is too small if the product
  -- overflows, and without members `lim` is a pointer out of the array.
  unfoldable pub newarena : ℕ → Alloc → Ub Alloc
  unfolding unit_of link_blocks
  newarena array a =
      let unit = unit_of a.size in
      if a.nmemb == 0 || leb (2 ^ 64) (unit * hdr * a.nmemb)
      then undefined
      else ok (record a {
        arena = array ∷ a.arena;
        freep = some array;
        next = link_blocks (a.nmemb - 1) unit array a.next;
      })

  unfoldable pub refill : ℕ → Option ℕ → Alloc → Ub Alloc
  unfolding newarena
  refill array none a = newarena array a
  refill array (some p) a = ok a

  unfoldable pub new : ℕ → Alloc → Ub (ℕ × Alloc)
  unfolding refill the
  new array a = do
    b ← refill array a.freep a
    bp ← the b.freep
    ok (bp, record b { freep = b.next bp })

unfoldable pub delete : ℕ → Alloc → Alloc
unfolding write
delete p a = record a { next = write p a.freep a.next; freep = some p }
