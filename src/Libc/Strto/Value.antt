-- ===== src/Libc/Strto/Value.antt =====
-- What `strtol` and `strtoul` return for a text that a number begins.
use simple_scc.Common.{
  ℕ, ◌+◌, ◌-◌, ◌%◌, ◌^◌, ◌<◌, ◌≤◌, ◌≡◌, Bool, true, false, List, ◌++◌, length, arith, if◌then◌else◌,
  ltb, ltb→lt, Bool-cases, inl, inr,
}
use native.Mathlib.Nat.{zero-add}
use simple_scc.Common.Int.{pos, neg}
use simple_scc.Common.Ub.{ok}
use simple_scc.Libc.Strto.{read_prefix, Prefix, stop_at, strtol, strtoul}
use simple_scc.Libc.Strto.Exact.{
  number, limit, DigitsOf, EndsNumber, unsigned_loop-number, unsigned_loop-overflow,
  signed_loop-number, signed_loop-overflow,
}

limit-pos : (b : Bool) → 0 < limit b
limit-pos true = omega arith
limit-pos false = omega arith

module _ (base : ℕ) (s : List ℕ) (p : Prefix) (ds rest : List ℕ)
    (prefix : read_prefix base s ≡ ok p) (text : p.digits ≡ ds ++ rest) (positive : 0 < p.base)
    (digits : DigitsOf p.base ds) (ends : EndsNumber p.base rest) where
  -- Behind the white space, the sign and the prefix of the base, let `ds` be all the digits of the
  -- base. If their number fits a long with the sign that was read, `strtol` returns it, leaves
  -- `errno` alone, and ends behind the digits (at the start of the text, if there are none).
  strtol-number :
      number p.base 0 ds < limit p.negative
      → strtol base s
        ≡ ok (record {
          value = if p.negative then neg (number p.base 0 ds) else pos (number p.base 0 ds);
          stop = stop_at p.skipped (length ds);
          erange = false;
        })
  unfolding strtol
  strtol-number fits = rw (
    prefix,
    text,
    signed_loop-number p.base rest positive ends p.negative 0 0 ds digits fits,
    zero-add,
  )

  -- Behind the white space, the sign and the prefix of the base, let `ds` be all the digits of the
  -- base. If their number does not fit a long with the sign that was read, `strtol` returns LONG_MIN
  -- behind a minus sign and LONG_MAX without one, and sets `errno`.
  strtol-overflow :
      limit p.negative ≤ number p.base 0 ds
      → (j : ℕ) × (strtol base s
          ≡ ok (record {
            value = if p.negative then neg (2 ^ 63) else pos (2 ^ 63 - 1);
            stop = j;
            erange = true;
          }))
  unfolding strtol
  strtol-overflow big =
      let (j, e) =
        signed_loop-overflow p.base rest positive ends p.negative 0 0 ds (limit-pos p.negative)
          digits big in
      (p.skipped + j, rw (prefix, text, e))

  -- Behind the white space, the sign and the prefix of the base, let `ds` be all the digits of the
  -- base. If their number fits an unsigned long, `strtoul` returns it, negated modulo 2 ^ 64 behind a
  -- minus sign, leaves `errno` alone, and ends behind the digits (at the start of the text, if there
  -- are none).
  strtoul-number :
      number p.base 0 ds < 2 ^ 64
      → strtoul base s
        ≡ ok (record {
          value = if p.negative then (2 ^ 64 - number p.base 0 ds) % 2 ^ 64 else number p.base 0 ds;
          stop = stop_at p.skipped (length ds);
          erange = false;
        })
  unfolding strtoul
  strtoul-number fits =
      rw (prefix, text, unsigned_loop-number p.base rest positive ends 0 0 ds digits fits, zero-add)

  -- Behind the white space, the sign and the prefix of the base, let `ds` be all the digits of the
  -- base. If their number does not fit an unsigned long, `strtoul` returns ULONG_MAX and sets `errno`.
  strtoul-overflow :
      2 ^ 64 ≤ number p.base 0 ds
      → (j : ℕ) × (strtoul base s ≡ ok (record { value = 2 ^ 64 - 1; stop = j; erange = true }))
  unfolding strtoul
  strtoul-overflow big =
      let (j, e) =
        unsigned_loop-overflow p.base rest positive ends 0 0 ds (omega arith) digits big in
      (p.skipped + j, rw (prefix, text, e))

  -- Behind the white space, the sign and the prefix of the base, let `ds` be all the digits of the
  -- base. If their number fits a long with the sign that was read, `strtol` returns it, leaves
  -- `errno` alone, and ends behind the digits (at the start of the text, if there are none); if it
  -- does not, `strtol` returns LONG_MIN behind a minus sign and LONG_MAX without one, and sets `errno`.
  pub strtol_lem :
      (j : ℕ) × (strtol base s
        ≡ ok (
            if ltb (number p.base 0 ds) (limit p.negative)
            then record {
              value = if p.negative then neg (number p.base 0 ds) else pos (number p.base 0 ds);
              stop = stop_at p.skipped (length ds);
              erange = false;
            }
            else record {
              value = if p.negative then neg (2 ^ 63) else pos (2 ^ 63 - 1);
              stop = j;
              erange = true;
            }))
  strtol_lem = elim (Bool-cases (ltb (number p.base 0 ds) (limit p.negative))) [
    | inl e ↦ (0, rw e (strtol-number (ltb→lt (number p.base 0 ds) (limit p.negative) e)))
    | inr e ↦ let (j, q) = strtol-overflow (ground arith) in (j, rw e q)
  ]

  -- Behind the white space, the sign and the prefix of the base, let `ds` be all the digits of the
  -- base. If their number fits an unsigned long, `strtoul` returns it, negated modulo 2 ^ 64 behind a
  -- minus sign, leaves `errno` alone, and ends behind the digits (at the start of the text, if there
  -- are none); if it does not, `strtoul` returns ULONG_MAX and sets `errno`.
  pub strtoul_lem :
      (j : ℕ) × (strtoul base s
        ≡ ok (
            if ltb (number p.base 0 ds) (2 ^ 64)
            then record {
              value =
                  if p.negative then (2 ^ 64 - number p.base 0 ds) % 2 ^ 64 else number p.base 0 ds;
              stop = stop_at p.skipped (length ds);
              erange = false;
            }
            else record { value = 2 ^ 64 - 1; stop = j; erange = true }))
  strtoul_lem = elim (Bool-cases (ltb (number p.base 0 ds) (2 ^ 64))) [
    | inl e ↦ (0, rw e (strtoul-number (ltb→lt (number p.base 0 ds) (2 ^ 64) e)))
    | inr e ↦ let (j, q) = strtoul-overflow (ground arith) in (j, rw e q)
  ]
