-- ===== src/Libc/Bsearch/Sorted.antt =====
-- `bsearch` on a sorted array.
use simple_scc.Common.{
  ℕ, zero, suc, ◌+◌, ◌-◌, ◌/◌, ◌%◌, ◌^◌, ◌≤◌, ◌<◌, ◌≡◌, ◌≢◌, refl, sym, ◌∙◌, arith, true, false,
  Option, none, some, leb, ◌==◌, if◌then◌else◌, Bool-cases, inl, inr,
}
use mathlib.Core.Path.{subst}
use simple_scc.Common.Ub.{Ub, ok}
use simple_scc.Libc.Bsearch.{Sign, equal, above, below, turn, search, bsearch}

-- The key is above all members before one that it is above, and below all behind one that it is below.
pub record IsSorted (cmp : ℕ → Sign) (n : ℕ) : Type 0 where
  pub before : (i j : ℕ) → i ≤ j → j < n → cmp j ≡ above → cmp i ≡ above
  pub behind : (i j : ℕ) → i ≤ j → j < n → cmp i ≡ below → cmp j ≡ below

-- The position of a member that is equal to the key, or none if no member is.
pub data IsAnswer (cmp : ℕ → Sign) (n : ℕ) : Ub (Option ℕ) → Type 0 where
  found : {i : ℕ} → i < n → cmp i ≡ equal → IsAnswer cmp n (ok (some i))
  absent : ((i : ℕ) → i < n → cmp i ≢ equal) → IsAnswer cmp n (ok none)

above_equal : above ≢ equal
above_equal e = cc

below_equal : below ≢ equal
below_equal e = cc

search-outside :
    (cmp : ℕ → Sign) (n fuel low high : ℕ)
    → leb low high ≡ false
    → search cmp n (suc fuel) low high ≡ ok none
unfolding search
search-outside cmp n fuel low high z = rw z refl

search-round :
    (cmp : ℕ → Sign) (n fuel low high mid : ℕ)
    → mid ≡ low + (high - low) / 2
    → leb low high ≡ true
    → leb n mid ≡ false
    → search cmp n (suc fuel) low high
      ≡ turn (cmp mid) mid (search cmp n fuel (mid + 1) high) (search cmp n fuel low (mid - 1))
unfolding search
search-round cmp n fuel low high mid m z y = rw (z, sym m, y) refl

module _ (cmp : ℕ → Sign) (n : ℕ) (sorted : IsSorted cmp n) where
  -- The members left of `low` and right of `high` are no answer.
  record Window (low high : ℕ) : Type 0 where
    left : (i : ℕ) → i < low → i < n → cmp i ≢ equal
    right : (i : ℕ) → high < i → i < n → cmp i ≢ equal
    bound : high < n
    ordered : low ≤ high + 1

  -- The goal of a round from the results of the next.
  turn-IsAnswer :
      (s : Sign) (low high mid : ℕ) (r l : Ub (Option ℕ))
      → cmp mid ≡ s
      → mid < n
      → n < 2 ^ 64
      → low ≤ mid
      → mid ≤ high
      → Window low high
      → (s ≡ above → Window (mid + 1) high → IsAnswer cmp n r)
      → (s ≡ below → 0 < mid → Window low (mid - 1) → IsAnswer cmp n l)
      → IsAnswer cmp n (turn s mid r l)
  unfolding turn
  turn-IsAnswer equal low high mid r l e h b j k g p q = found h e
  turn-IsAnswer above low high mid r l e h b j k g p q =
      let inner : (mid == 2 ^ 64 - 1) ≡ false = ground arith in
      subst (λ c. IsAnswer cmp n (if c then ok none else r)) (sym inner)
        (p refl (record {
          left = λ i m m' d. above_equal (sym (sorted.before i mid (omega arith) h e) ∙ d);
          right = g.right;
          bound = g.bound;
          ordered = omega arith;
        }))
  turn-IsAnswer below low high mid r l e h b j k g p q =
      let later = λ (i : ℕ) (m : mid ≤ i) (m' : i < n) (d : cmp i ≡ equal).
        below_equal (sym (sorted.behind mid i m m' e) ∙ d) in
      elim (Bool-cases (mid == 0)) [
        | inl z ↦
            subst (λ c. IsAnswer cmp n (if c then ok none else l)) (sym z)
              (absent (λ i m. later i (ground arith) m))
        | inr z ↦
            let positive : 0 < mid = ground arith in
            subst (λ c. IsAnswer cmp n (if c then ok none else l)) (sym z)
              (q refl positive (record {
                left = g.left;
                right = λ i m m'. later i (omega arith) m';
                bound = omega (arith, g.bound);
                ordered = omega arith;
              }))
      ]

  search-IsAnswer :
      (fuel low high : ℕ)
      → n < 2 ^ 64
      → high + 2 ≤ low + fuel
      → Window low high
      → IsAnswer cmp n (search cmp n fuel low high)
  unfolding search
  search-IsAnswer zero low high b f g = absurd (omega (arith, g.ordered))
  search-IsAnswer (suc fuel) low high b f g =
      let mid = low + (high - low) / 2 in
      elim (Bool-cases (leb low high)) [
        | inl z ↦
            let lo : low ≤ high = ground arith in
            let inside : leb n mid ≡ false = ground (arith, g.bound) in
            subst (IsAnswer cmp n) (sym (search-round cmp n fuel low high mid refl z inside)) (
              turn-IsAnswer (cmp mid) low high mid _ _ refl (omega (arith, g.bound)) b (omega arith)
                (omega arith) g (λ e. search-IsAnswer fuel (mid + 1) high b (omega arith))
                (λ e positive. search-IsAnswer fuel low (mid - 1) b (omega arith)))
        | inr z ↦ subst (IsAnswer cmp n) (sym (search-outside cmp n fuel low high z)) (
            absent (λ i m. elim (Bool-cases (leb low i)) [
              | inl y ↦ g.right i (ground arith) m
              | inr y ↦ g.left i (ground arith) m
            ]))
      ]

-- On a sorted array that is not empty, `bsearch` returns the position of a member that is equal to the
-- key, or none where no member is.
pub bsearch-IsAnswer :
    (cmp : ℕ → Sign) (n : ℕ) → IsSorted cmp n → 0 < n → n < 2 ^ 64 → IsAnswer cmp n (bsearch cmp n)
unfolding bsearch
bsearch-IsAnswer cmp n sorted h b =
    let last : (n + 2 ^ 64 - 1) % 2 ^ 64 ≡ n - 1 = omega arith in
    let high = (n + 2 ^ 64 - 1) % 2 ^ 64 in
    let whole : Window cmp n sorted 0 high = record {
      left = λ i m m' d. omega arith;
      right = λ i m m' d. omega arith;
      bound = omega arith;
      ordered = omega arith;
    } in
    search-IsAnswer cmp n sorted (suc (suc high)) 0 high b (omega arith) whole
