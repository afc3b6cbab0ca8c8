-- ===== src/Libc/Strto/Tests.antt =====
-- Runs of `strtol` and `strtoul`, and the theorems at them.
use simple_scc.Common.{ℕ, ◌-◌, ◌^◌, ◌≡◌, refl, arith, true, false, List, [], ◌∷◌, ◌++◌}
use simple_scc.Common.Int.{pos, negsuc}
use simple_scc.Common.Ub.{ok}
use simple_scc.Libc.Strto.{read_prefix, Prefix, stop_at, strtol, strtoul, signed_loop, dtoi}
use simple_scc.Libc.Strto.Exact.{number}
use simple_scc.Libc.Strto.Value.{strtol_lem, strtoul_lem}

-- " -0x1F" with its terminator.
abbrev text : List ℕ
text = 0x20 ∷ b'-' ∷ b'0' ∷ b'x' ∷ b'1' ∷ b'F' ∷ 0 ∷ []

abbrev text_prefix : Prefix
text_prefix = record { skipped = 4; negative = true; base = 16; digits = b'1' ∷ b'F' ∷ 0 ∷ [] }

read-text : read_prefix 0 text ≡ ok text_prefix
unfolding read_prefix
read-text = refl

strtol_text : strtol 0 text ≡ ok (record { value = negsuc 30; stop = 6; erange = false })
unfolding strtol dtoi read_prefix signed_loop
strtol_text = refl

-- A one and sixteen zeros in base 16.
abbrev zeros : List ℕ
zeros =
    b'0' ∷ b'0' ∷ b'0' ∷ b'0' ∷ b'0' ∷ b'0' ∷ b'0' ∷ b'0' ∷ b'0' ∷ b'0' ∷ b'0' ∷ b'0' ∷ b'0' ∷ b'0'
    ∷ b'0' ∷ b'0' ∷ []

abbrev long_text : List ℕ
long_text = b'1' ∷ (zeros ++ 0 ∷ [])

abbrev long_prefix : Prefix
long_prefix = record { skipped = 0; negative = false; base = 16; digits = long_text }

read-long_text : read_prefix 16 long_text ≡ ok long_prefix
unfolding read_prefix
read-long_text = refl

strtol_lem_example :
    (j : ℕ) × (strtol 16 long_text
      ≡ ok (record { value = pos (2 ^ 63 - 1); stop = j; erange = true }))
unfolding number dtoi
strtol_lem_example =
    strtol_lem 16 long_text long_prefix (b'1' ∷ zeros) (0 ∷ []) read-long_text refl (omega arith)
      (omega arith) (omega arith)

strtoul_lem_example :
    (j : ℕ) × (strtoul 0 text ≡ ok (record { value = 2 ^ 64 - 31; stop = 6; erange = false }))
unfolding number dtoi stop_at
strtoul_lem_example =
    strtoul_lem 0 text text_prefix (b'1' ∷ b'F' ∷ []) (0 ∷ []) read-text refl (omega arith)
      (omega arith) (omega arith)
