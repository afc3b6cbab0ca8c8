-- ===== src/Libscc/Alloc/Tests.antt =====
-- A pool of blocks of 8 bytes, two in an arena.
use simple_scc.Common.{ℕ, ◌≡◌, refl, arith, [], ◌∷◌, none, some, All, inl, inr}
use simple_scc.Common.Ub.{Ub, ok, undefined}
use simple_scc.Libscc.Alloc.{Alloc, alloc, new, delete, write, unit_of}
use simple_scc.Libscc.Alloc.Total.{arenas, new-total}
use simple_scc.Libscc.Alloc.Apart.{Apart, Off}
use simple_scc.Libscc.Alloc.Run.{Run, created, got, gave, wrote, IsInside, Run-Apart}

abbrev empty : Alloc
empty = alloc 8 2 (λ p. none)

second : Alloc → Ub (ℕ × Alloc) → Alloc
second a (ok p) = p.1
second a undefined = a

abbrev one : Alloc
one = second empty (new 16 100 empty)

-- The program writes in the block that it has.
abbrev dirty : Alloc
dirty = record one { next = write 100 (some 7) one.next }

abbrev two : Alloc
two = second dirty (new 16 0 dirty)

abbrev given_back : Alloc
given_back = delete 100 two

abbrev again : Alloc
again = second given_back (new 16 0 given_back)

abbrev three : Alloc
three = second again (new 16 200 again)

one_lem : new 16 100 empty ≡ ok (100, one)
unfolding new alloc second
one_lem = refl

two_lem : new 16 0 dirty ≡ ok (101, two)
unfolding new alloc second
two_lem = refl

again_lem : new 16 0 given_back ≡ ok (100, again)
unfolding new alloc second delete
again_lem = refl

three_lem : new 16 200 again ≡ ok (200, three)
unfolding new alloc second delete
three_lem = refl

one-Run : Run 16 one (100 ∷ [])
unfolding alloc
one-Run = got 100 100 (created 8 2 (λ p. none)) tt one_lem

dirty-Run : Run 16 dirty (100 ∷ [])
unfolding unit_of new alloc second
dirty-Run = wrote [] [] 100 100 (some 7) one-Run (omega arith) (omega arith)

two-Run : Run 16 two (101 ∷ 100 ∷ [])
unfolding unit_of new alloc second
two-Run = got 0 101 dirty-Run (inl (omega arith), tt) two_lem

given_back-Run : Run 16 given_back (101 ∷ [])
given_back-Run = gave (101 ∷ []) [] 100 two-Run

again-Run : Run 16 again (100 ∷ 101 ∷ [])
unfolding unit_of new alloc second delete
again-Run = got 0 100 given_back-Run (inl (omega arith), tt) again_lem

three-Run : Run 16 three (200 ∷ 100 ∷ 101 ∷ [])
unfolding unit_of new alloc second delete
three-Run = got 200 200 again-Run (inr (omega arith), tt) three_lem

Run-Apart_example :
    Apart (unit_of 16 three.size) (200 ∷ 100 ∷ 101 ∷ [])
    × All (λ x. IsInside (unit_of 16 three.size) three.nmemb x three.arena) (200 ∷ 100 ∷ 101 ∷ [])
Run-Apart_example = Run-Apart 16 three (200 ∷ 100 ∷ 101 ∷ []) three-Run

new-total_example :
    (p : ℕ) × (a : Alloc) × (new 16 200 again ≡ ok (p, a))
    × All (Off (unit_of 16 again.size) p) (100 ∷ 101 ∷ [])
    × IsInside (unit_of 16 again.size) again.nmemb p (arenas 200 again.arena again.freep)
unfolding new alloc second delete unit_of
new-total_example =
    new-total 16 200 again (100 ∷ 101 ∷ []) again-Run (inr (omega arith), tt) (omega arith)
      (omega arith)
