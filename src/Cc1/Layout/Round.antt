-- ===== src/Cc1/Layout/Round.antt =====
-- `(x + a) & ~a` where a + 1 is a power of two.
use simple_scc.Common.{
  ℕ, ◌+◌, ◌-◌, ◌*◌, ◌/◌, ◌%◌, ◌^◌, ◌≤◌, ◌<◌, ◌≡◌, sym, ap, arith, Bool-cases, inl, inr, ltb, ◌==◌,
  if◌then◌else◌,
}
use mathlib.Core.Path.{subst}
use native.Mathlib.Nat.{one-le-pow, lt-div-mul-add, div-mul-le_self}
use simple_scc.Common.Bits.{bit_and-clear}
use simple_scc.Cc1.Layout.{round_up}

abbrev pub IsPower : ℕ → Type 0
IsPower a = (k : ℕ) × (k < 64) × (a ≡ 2 ^ k)

-- The next multiple of a power of two.
pub round_up-multiple :
    (k x : ℕ)
    → k ≤ 64
    → x + 2 ^ k ≤ 2 ^ 64
    → (q : ℕ) × (round_up x (2 ^ k - 1) ≡ q * 2 ^ k) × (x ≤ q * 2 ^ k) × (q * 2 ^ k < x + 2 ^ k)
unfolding round_up
round_up-multiple k x h b =
    let low : 0 < 2 ^ k = one-le-pow k 2 (omega arith) in
    let width : (64 - k) + k ≡ 64 = omega arith in
    let y = x + (2 ^ k - 1) in
    let fits : y < 2 ^ ((64 - k) + k) = rw width (omega (arith, low)) in
    let mask : 2 ^ 64 - 1 - (2 ^ k - 1) ≡ 2 ^ ((64 - k) + k) - 2 ^ k =
      rw width (omega (arith, low)) in
    let whole : y % 2 ^ 64 ≡ y = omega (arith, low) in
    (
      y / 2 ^ k,
      rw (whole, mask) (bit_and-clear k (64 - k) y fits),
      omega (arith, low, lt-div-mul-add {a = y} low, div-mul-le_self y (2 ^ k)),
      omega (arith, low, lt-div-mul-add {a = y} low, div-mul-le_self y (2 ^ k)),
    )

next_power :
    (k x : ℕ)
    → k ≤ 64
    → x + 2 ^ k ≤ 2 ^ 64
    → let a = (2 ^ k + 2 ^ 64 - 1) % 2 ^ 64 in
      let o = if a == 0 then x else round_up x a in
      (q : ℕ) × (o ≡ q * 2 ^ k) × (x ≤ o) × (o < x + 2 ^ k)
next_power k x h b =
    let low : 0 < 2 ^ k = one-le-pow k 2 (omega arith) in
    let a : (2 ^ k + 2 ^ 64 - 1) % 2 ^ 64 ≡ 2 ^ k - 1 = omega (arith, low) in
    let (q, e, lo, hi) = round_up-multiple k x h b in
    elim (Bool-cases (2 ^ k - 1 == 0)) [
      | inl z ↦
          let one : 2 ^ k ≡ 1 = ground (arith, low) in
          (
            x,
            rw (a, z) (omega (arith, ap (λ (t : ℕ). x * t) one)),
            rw (a, z) (omega arith),
            rw (a, z) (omega (arith, low)),
          )
      | inr z ↦ (q, rw (a, z) e, rw (a, z) (omega (arith, e)), rw (a, z) (omega (arith, e)))
    ]

-- The offset of a member whose alignment is a power of two.
pub next_multiple :
    (al x : ℕ)
    → IsPower al
    → x + al ≤ 2 ^ 64
    → let a = (al + 2 ^ 64 - 1) % 2 ^ 64 in
      let o = if a == 0 then x else round_up x a in (q : ℕ) × (o ≡ q * al) × (x ≤ o) × (o < x + al)
next_multiple al x (k, b, e) h =
    subst
      (λ (t : ℕ).
        let a = (t + 2 ^ 64 - 1) % 2 ^ 64 in
        let o = if a == 0 then x else round_up x a in (q : ℕ) × (o ≡ q * t) × (x ≤ o) × (o < x + t))
      (sym e) (next_power k x (omega arith) (omega (arith, e)))

-- And the padding at the end of a struct.
pub last_multiple :
    (al x : ℕ)
    → IsPower al
    → x + al ≤ 2 ^ 64
    → let o = if ltb 1 al then round_up x (al - 1) else x in
      (q : ℕ) × (o ≡ q * al) × (x ≤ o) × (o < x + al)
last_multiple al x (k, b, e) h =
    let low : 0 < al = omega (arith, e, one-le-pow k 2 (omega arith)) in
    let (q, m, lo, hi) = round_up-multiple k x (omega arith) (omega (arith, e)) in
    let at_al = λ (t : ℕ). (round_up x (t - 1) ≡ q * t) × (x ≤ q * t) × (q * t < x + t) in
    let (m', lo', hi') = subst at_al (sym e) (m, lo, hi) in
    elim (Bool-cases (ltb 1 al)) [
      | inl z ↦ (q, rw z m', rw z (omega (arith, m')), rw z (omega (arith, m')))
      | inr z ↦
          let one : al ≡ 1 = ground (arith, low) in
          (
            x,
            rw z (omega (arith, ap (λ (t : ℕ). x * t) one)),
            rw z (omega arith),
            rw z (omega (arith, low)),
          )
    ]
