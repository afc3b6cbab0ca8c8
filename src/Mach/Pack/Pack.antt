-- ===== src/Mach/Pack/Pack.antt =====
-- src/libmach/pack.c: the loop of `lpack` (little) and `bpack` (big). A format is the list of its
-- characters, the variable arguments are a list, and a buffer is the list of the bytes written.
use simple_scc.Common.{
  ℕ, Bool, true, false, ◌&&◌, List, [], ◌∷◌, ◌++◌, length, take, leb, ◌==◌, if◌then◌else◌,
}
use simple_scc.Common.Int.{ℤ, pos, negsuc}
use simple_scc.Common.Ub.{Ub, ok, undefined, ◌>>=◌}
use simple_scc.Mach.Pack.Format.{is_digit, atoi}
use simple_scc.Mach.Pack.Word.{Order, short_bytes, long_bytes, quad_bytes, byte}

-- A variable argument of `pack`: a number, or a pointer to bytes. Also what `unpack` stores
-- through a pointer argument.
pub data Arg : Type 0 where
  num : ℕ → Arg
  raw : List ℕ → Arg

-- What one character of the format does: the bytes it writes, the arguments left, and whether the
-- digits that follow are to be skipped; or the `default` case.
pub data Step : Type 0 where
  emit : List ℕ → List Arg → Bool → Step
  reject : Step

-- `va_arg` with no argument left, or one of another type, is undefined.
with_num : List Arg → (ℕ → List ℕ) → Ub Step
with_num (num n ∷ args) f = ok (emit (f n) args false)
with_num _ f = undefined

-- `while (n--) *bp++ = *cp++;` a negative count does not stop, and the bytes must be there.
with_raw : ℤ → List Arg → Ub Step
with_raw (pos n) (raw bs ∷ args) =
    if leb n (length bs) then ok (emit (take n bs) args true) else undefined
with_raw _ _ = undefined

-- One round of the loop of `lpack` (little) and `bpack` (big).
unfoldable pub pack_char : Order → Bool → ℕ → List ℕ → List Arg → Ub Step
unfolding with_num with_raw
pack_char o skipping c fmt args =
    if skipping && is_digit c
    then ok (emit [] args true)
    else if c == 0x27
    then (do n ← atoi fmt; with_raw n args)
    else if c == b'c'
    then with_num args (λ n. byte n ∷ [])
    else if c == b's'
    then with_num args (short_bytes o)
    else if c == b'l'
    then with_num args (long_bytes o)
    else if c == b'q'
    then with_num args (quad_bytes o)
    else ok reject

-- The bytes written, and whether the format was read to its end.
pub record Packed : Type 0 where
  pub written : List ℕ
  pub complete : Bool

unfoldable pub prepend : List ℕ → Packed → Packed
prepend bs p = record p { written = bs ++ p.written }

after : Step → (List Arg → Bool → Ub Packed) → Ub Packed
unfolding prepend
after (emit bs args skipping) rest = do p ← rest args skipping; ok (prepend bs p)
after reject rest = ok (record { written = []; complete = false })

unfoldable pub pack_from : Order → Bool → List ℕ → List Arg → Ub Packed
unfolding after
pack_from o skipping [] args = ok (record { written = []; complete = true })
pack_from o skipping (c ∷ fmt) args = do
  step ← pack_char o skipping c fmt args
  after step (λ args' skipping'. pack_from o skipping' fmt args')

-- `bp - dst`, or -1.
unfoldable pub result_of : Packed → ℤ
result_of p = if p.complete then pos (length p.written) else negsuc 0

-- The bytes written to `dst` and the value returned.
unfoldable pub pack : Order → List ℕ → List Arg → Ub (List ℕ × ℤ)
unfolding pack_from result_of
pack o fmt args = do p ← pack_from o false fmt args; ok (p.written, result_of p)
