-- ===== src/Libc/Bsearch.antt =====
-- `bsearch` of src/libc/stdlib/bsearch.c. The array and the function that compares are one function:
-- what a comparison of the key with the member at a position answers. A member past the end is
-- undefined.
pub mod Sorted
mod Tests
use simple_scc.Common.{
  ℕ, zero, suc, ◌+◌, ◌-◌, ◌/◌, ◌%◌, ◌^◌, Bool, true, false, Option, none, some, leb, ◌==◌,
  if◌then◌else◌,
}
use simple_scc.Common.Ub.{Ub, ok, undefined}

-- The answer of `cmp` by its sign: 0, positive where the key is above the member, negative below it.
pub data Sign : Type 0 where
  equal above below : Sign

-- A round behind the comparison: the position that is returned, or what the next rounds return.
unfoldable pub turn : Sign → ℕ → Ub (Option ℕ) → Ub (Option ℕ) → Ub (Option ℕ)
turn equal mid right left = ok (some mid)
turn above mid right left = if mid == 2 ^ 64 - 1 then ok none else right
turn below mid right left = if mid == 0 then ok none else left

-- The loop, on fuel.
unfoldable pub search : (ℕ → Sign) → ℕ → ℕ → ℕ → ℕ → Ub (Option ℕ)
unfolding turn
search cmp n zero low high = undefined
search cmp n (suc fuel) low high =
    let mid = low + (high - low) / 2 in
    let right = search cmp n fuel (mid + 1) high in
    let left = search cmp n fuel low (mid - 1) in
    if leb low high
    then (if leb n mid then undefined else turn (cmp mid) mid right left)
    else ok none

-- `n - 1` wraps around in a size_t. A round makes the range smaller.
unfoldable pub bsearch : (ℕ → Sign) → ℕ → Ub (Option ℕ)
unfolding search
bsearch cmp n = let high = (n + 2 ^ 64 - 1) % 2 ^ 64 in search cmp n (suc (suc high)) 0 high
