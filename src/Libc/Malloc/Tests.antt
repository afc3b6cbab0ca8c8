-- ===== src/Libc/Malloc/Tests.antt =====
-- Two free chunks and one in use that lies between them, and the place where `_prevchunk` finds it.
use simple_scc.Common.{
  ℕ, ◌≡◌, refl, arith, List, [], ◌∷◌, Option, none, some, inl, inr, ◌==◌, ◌||◌, if◌then◌else◌,
}
use simple_scc.Libc.Malloc.{Heap, prevchunk, prevchunk_from, free}
use simple_scc.Libc.Malloc.Ring.{Ring, Ascending, Member}
use simple_scc.Libc.Malloc.Free.{within, covers, first_of}
use simple_scc.Libc.Malloc.Units.{free_lem}

-- The base at 0, and free chunks at 10 and 20.
abbrev small_heap : Heap
small_heap = record {
  next = λ i. if i == 0 then 10 else if i == 10 then 20 else 0;
  size = λ i. if i == 0 then 0 else if i == 10 then 4 else if i == 14 then 6 else 5;
  freep = 20;
}

-- The chunk at 14 ends where the one at 20 starts, and starts where the one at 10 ends.
free_lem_example :
    (s' : Heap) × (cs : List ℕ) × (free 6 (some 14) small_heap ≡ some s')
    × (first_of 0 cs ≡ 0)
    × Ring s'.next 0 cs
    × Ascending cs
    × Member s'.freep cs
    × ((u : ℕ)
        → covers s'.size cs u
          ≡ (covers small_heap.size (0 ∷ 10 ∷ 20 ∷ []) u || within 14 (small_heap.size 14) u))
free_lem_example =
    free_lem small_heap 0 14 6 (10 ∷ 20 ∷ []) (refl, (refl, refl)) (omega arith)
      (inr (inr (inl refl))) (omega arith) (omega arith) (omega arith)

abbrev chunk_at : ℕ → Option Heap → List ℕ
chunk_at a none = []
chunk_at a (some s) = s.next a ∷ s.size a ∷ s.freep ∷ []

-- The chunk between joins both.
free_between : chunk_at 10 (free 6 (some 14) small_heap) ≡ 0 ∷ 15 ∷ 10 ∷ []
unfolding free prevchunk prevchunk_from
free_between = refl
