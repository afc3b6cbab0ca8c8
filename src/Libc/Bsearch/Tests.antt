-- ===== src/Libc/Bsearch/Tests.antt =====
-- The even numbers from 0 to 8.
use simple_scc.Common.{ℕ, ◌*◌, ◌≡◌, refl, arith, none, some, ltb, ◌==◌, if◌then◌else◌}
use simple_scc.Common.Ub.{ok, undefined}
use simple_scc.Libc.Bsearch.{Sign, equal, above, below, bsearch}
use simple_scc.Libc.Bsearch.Sorted.{IsSorted, IsAnswer, bsearch-IsAnswer}

abbrev evens : ℕ → ℕ → Sign
evens key i = if key == 2 * i then equal else if ltb (2 * i) key then above else below

six : bsearch (evens 6) 5 ≡ ok (some 3)
unfolding bsearch
six = refl

no_seven : bsearch (evens 7) 5 ≡ ok none
unfolding bsearch
no_seven = refl

nothing_above : bsearch (evens 20) 5 ≡ ok none
unfolding bsearch
nothing_above = refl

evens-IsSorted : (key : ℕ) → IsSorted (evens key) 5
evens-IsSorted key = record {
  before = λ i j l m e. ground arith;
  behind = λ i j l m e. ground arith;
}

bsearch-IsAnswer_example : IsAnswer (evens 6) 5 (bsearch (evens 6) 5)
bsearch-IsAnswer_example =
    bsearch-IsAnswer (evens 6) 5 (evens-IsSorted 6) (omega arith) (omega arith)

-- With no members `n - 1` wraps around, and a member past the end is compared.
no_members : bsearch (evens 6) 0 ≡ undefined
unfolding bsearch
no_members = refl
