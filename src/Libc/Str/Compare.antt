-- ===== src/Libc/Str/Compare.antt =====
-- `strcmp` on terminated strings.
use simple_scc.Common.{
  ℕ, ◌<◌, ◌≡◌, ◌↔◌, inl, inr, Bool-cases, refl, arith, List, [], ◌∷◌, ◌++◌, All, ◌==◌,
}
use simple_scc.Common.Int.{ℤ, pos, negate, sub_ℕ}
use simple_scc.Common.Ub.{ok}
use simple_scc.Libc.Str.{strcmp}

-- The characters of a string.
abbrev pub IsText : List ℕ → Type 0
IsText s = All (λ c. 0 < c) s

-- On strings with their terminators, whatever follows these, `strcmp` is defined; it returns zero
-- exactly for equal strings, and the negation with its arguments exchanged.
pub strcmp_lem :
    (s t u v : List ℕ)
    → IsText s
    → IsText t
    → (z : ℤ) × (strcmp (s ++ 0 ∷ u) (t ++ 0 ∷ v) ≡ ok z)
      × (strcmp (t ++ 0 ∷ v) (s ++ 0 ∷ u) ≡ ok (negate z))
      × ((z ≡ pos 0) ↔ (s ≡ t))
unfolding strcmp
strcmp_lem [] [] u v hs ht = (pos 0, refl, refl, (λ _. refl, λ _. refl))
strcmp_lem [] (b ∷ t) u v hs ht = (sub_ℕ 0 b, ground arith, ground arith, ground arith)
strcmp_lem (a ∷ s) [] u v hs ht = (sub_ℕ a 0, ground arith, ground arith, ground arith)
strcmp_lem (a ∷ s) (b ∷ t) u v hs ht =
    let (z, there, back, (same, equal)) = strcmp_lem s t u v hs.1 ht.1 in
    elim (Bool-cases (a == b)) [
      | inl e ↦ (z, ground arith, ground arith, ground arith)
      | inr e ↦ (sub_ℕ a b, ground arith, ground arith, ground arith)
    ]
