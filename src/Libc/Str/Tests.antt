-- ===== src/Libc/Str/Tests.antt =====
-- The theorems on strings at concrete inputs.
use simple_scc.Common.{ℕ, ◌*◌, ◌≡◌, ◌↔◌, refl, arith, List, [], ◌∷◌, not}
use simple_scc.Common.Int.{ℤ, pos, negate}
use simple_scc.Common.Ub.{ok, undefined}
use simple_scc.Libc.Str.{strcmp, strspn, strcspn, memmove, strcat, strlen}
use simple_scc.Libc.Str.Compare.{strcmp_lem}
use simple_scc.Libc.Str.Span.{IsSpan, is_in, strspn_lem}
use simple_scc.Libc.Str.Move.{memmove_lem}
use simple_scc.Libc.Str.Copy.{strcat_lem}

strcmp_lem_example :
    (z : ℤ) × (strcmp (1 ∷ 2 ∷ 0 ∷ []) (1 ∷ 3 ∷ 0 ∷ []) ≡ ok z)
    × (strcmp (1 ∷ 3 ∷ 0 ∷ []) (1 ∷ 2 ∷ 0 ∷ []) ≡ ok (negate z))
    × ((z ≡ pos 0) ↔ (◌≡◌ {A = List ℕ} (1 ∷ 2 ∷ []) (1 ∷ 3 ∷ [])))
strcmp_lem_example = strcmp_lem (1 ∷ 2 ∷ []) (1 ∷ 3 ∷ []) [] [] (omega arith) (omega arith)

strspn_lem_example :
    (n k : ℕ) × (strspn (1 ∷ 2 ∷ 5 ∷ 0 ∷ []) (2 ∷ 1 ∷ 0 ∷ []) ≡ ok n)
    × IsSpan (λ c. is_in c (2 ∷ 1 ∷ [])) (1 ∷ 2 ∷ 5 ∷ []) n
    × (strcspn (1 ∷ 2 ∷ 5 ∷ 0 ∷ []) (2 ∷ 1 ∷ 0 ∷ []) ≡ ok k)
    × IsSpan (λ c. not (is_in c (2 ∷ 1 ∷ []))) (1 ∷ 2 ∷ 5 ∷ []) k
strspn_lem_example = strspn_lem (1 ∷ 2 ∷ 5 ∷ []) [] (2 ∷ 1 ∷ []) [] (omega arith) (omega arith)

-- A character from 128 on is read out of the map.
strspn_outside : strspn (200 ∷ 0 ∷ []) (1 ∷ 0 ∷ []) ≡ undefined
unfolding strspn
strspn_outside = refl

-- Five bytes one place up.
memmove_lem_example : memmove 11 10 5 (λ a. a * a) 14 ≡ 169
memmove_lem_example = memmove_lem 11 10 5 (λ a. a * a) 14

strcat_lem_example :
    (strcat (7 ∷ 0 ∷ 9 ∷ 9 ∷ 9 ∷ []) (8 ∷ 6 ∷ 0 ∷ []) ≡ ok (7 ∷ 8 ∷ 6 ∷ 0 ∷ 9 ∷ []))
    × (strlen (7 ∷ 8 ∷ 6 ∷ 0 ∷ 9 ∷ []) ≡ ok 3)
strcat_lem_example =
    strcat_lem (7 ∷ []) (9 ∷ 9 ∷ 9 ∷ []) (8 ∷ 6 ∷ []) [] (omega arith) (omega arith) (omega arith)
