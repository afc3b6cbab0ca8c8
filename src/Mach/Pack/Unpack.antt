-- ===== src/Mach/Pack/Unpack.antt =====
-- src/libmach/unpack.c: the loop of `lunpack` (little) and `bunpack` (big). The pointer arguments
-- are taken to be there and of the right types; what is stored through them is listed in order.
use simple_scc.Common.{
  ℕ, ◌-◌, Bool, true, false, ◌&&◌, List, [], ◌∷◌, ◌++◌, length, take, drop, leb, ◌==◌,
  if◌then◌else◌,
}
use simple_scc.Common.Int.{ℤ, pos, negsuc}
use simple_scc.Common.Ub.{Ub, ok, undefined, ◌>>=◌}
use simple_scc.Mach.Pack.Format.{is_digit, atoi}
use simple_scc.Mach.Pack.Word.{Order, Read, get_short, get_long, get_quad}
use simple_scc.Mach.Pack.Pack.{Arg, num, raw}

-- What one character of the format does: the values it stores, the bytes left, and whether the
-- digits that follow are to be skipped; or the `default` case.
pub data Step : Type 0 where
  store : List Arg → List ℕ → Bool → Step
  reject : Step

store_num : Read → Step
store_num r = store (num r.value ∷ []) r.rest false

-- The bytes must be there.
get_char : List ℕ → Ub Read
get_char (a ∷ r) = ok (record { value = a; rest = r })
get_char [] = undefined

get_raw : ℤ → List ℕ → Ub Step
get_raw (pos n) src =
    if leb n (length src) then ok (store (raw (take n src) ∷ []) (drop n src) true) else undefined
get_raw (negsuc n) src = undefined

unfoldable pub unpack_char : Order → Bool → ℕ → List ℕ → List ℕ → Ub Step
unfolding store_num get_char get_raw
unpack_char o skipping c fmt src =
    if skipping && is_digit c
    then ok (store [] src true)
    else if c == 0x27
    then (do n ← atoi fmt; get_raw n src)
    else if c == b'c'
    then (do r ← get_char src; ok (store_num r))
    else if c == b's'
    then (do r ← get_short o src; ok (store_num r))
    else if c == b'l'
    then (do r ← get_long o src; ok (store_num r))
    else if c == b'q'
    then (do r ← get_quad o src; ok (store_num r))
    else ok reject

-- The values stored, the bytes left, and whether the format was read to its end.
pub record Unpacked : Type 0 where
  pub stored : List Arg
  pub left : List ℕ
  pub complete : Bool

unfoldable pub prepend : List Arg → Unpacked → Unpacked
prepend vs u = record u { stored = vs ++ u.stored }

after : List ℕ → Step → (List ℕ → Bool → Ub Unpacked) → Ub Unpacked
unfolding prepend
after src (store vs left skipping) rest = do u ← rest left skipping; ok (prepend vs u)
after src reject rest = ok (record { stored = []; left = src; complete = false })

unfoldable pub unpack_from : Order → Bool → List ℕ → List ℕ → Ub Unpacked
unfolding after
unpack_from o skipping [] src = ok (record { stored = []; left = src; complete = true })
unpack_from o skipping (c ∷ fmt) src = do
  step ← unpack_char o skipping c fmt src
  after src step (λ src' skipping'. unpack_from o skipping' fmt src')

-- `bp - src`, or -1.
unfoldable pub result_of : List ℕ → Unpacked → ℤ
result_of src u = if u.complete then pos (length src - length u.left) else negsuc 0

-- The values stored and the value returned.
unfoldable pub unpack : Order → List ℕ → List ℕ → Ub (List Arg × ℤ)
unfolding unpack_from result_of
unpack o src fmt = do u ← unpack_from o false fmt src; ok (u.stored, result_of src u)
