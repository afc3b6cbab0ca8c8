-- ===== src/Libscc.antt =====
-- The functions of src/libscc that several programs share: `genhash`, and the comparison of names that
-- they make by strcmp.
pub mod Alloc
use simple_scc.Common.{ℕ, ◌*◌, ◌%◌, ◌^◌, bit_xor, Bool, true, false, ◌&&◌, List, [], ◌∷◌, ◌==◌}

unfoldable pub genhash_from : ℕ → List ℕ → ℕ
genhash_from h [] = h
genhash_from h (c ∷ s) = genhash_from (bit_xor (h * 33 % 2 ^ 32) c) s

unfoldable pub genhash : List ℕ → ℕ
unfolding genhash_from
genhash s = genhash_from 5381 s

-- !strcmp(s, t), for strings without their terminators.
unfoldable pub same_name : List ℕ → List ℕ → Bool
same_name [] [] = true
same_name (a ∷ s) (b ∷ t) = a == b && same_name s t
same_name _ _ = false
