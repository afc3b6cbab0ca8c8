-- ===== src/Libc/Str/Move.antt =====
-- `memmove` of memmove.c, where source and destination may overlap.
use simple_scc.Common.{
  ℕ, zero, suc, ◌+◌, ◌-◌, ◌≤◌, ◌<◌, ◌≡◌, ◌⊎◌, inl, inr, refl, sym, ap, ◌∙◌, arith, ◌&&◌,
  if◌then◌else◌, leb, ltb, ltb→lt, Bool-cases,
}
use native.Mathlib.Decide.{ℕ_discrete}
use simple_scc.Libc.Str.{Memory, write, copy_up, copy_down, memmove}

copy_up-outside : (n d s : ℕ) (m : Memory) (a : ℕ) → (a < d) ⊎ (d + n ≤ a) → copy_up n d s m a ≡ m a
unfolding copy_up
copy_up-outside zero d s m a h = refl
copy_up-outside (suc n) d s m a h =
    ground (arith, copy_up-outside n (suc d) (suc s) (write m d (m s)) a)

copy_down-outside :
    (n d s : ℕ) (m : Memory) (a : ℕ) → (a < d) ⊎ (d + n ≤ a) → copy_down n d s m a ≡ m a
unfolding copy_down
copy_down-outside zero d s m a h = refl
copy_down-outside (suc n) d s m a h =
    ground (arith, copy_down-outside n d s (write m (d + n) (m (s + n))) a)

-- Upwards, a source above the destination is read before it is written over.
copy_up-inside :
    (n d s : ℕ) (m : Memory) (i : ℕ) → i < n → d < s → copy_up n d s m (d + i) ≡ m (s + i)
unfolding copy_up
copy_up-inside zero d s m i h k = absurd (omega arith)
copy_up-inside (suc n) d s m zero h k =
    ground (arith, copy_up-outside n (suc d) (suc s) (write m d (m s)) (d + 0))
copy_up-inside (suc n) d s m (suc i) h k =
    ground (arith, copy_up-inside n (suc d) (suc s) (write m d (m s)) i)

-- Downwards, a source at or below the destination is.
copy_down-inside :
    (n d s : ℕ) (m : Memory) (i : ℕ) → i < n → s ≤ d → copy_down n d s m (d + i) ≡ m (s + i)
unfolding copy_down
copy_down-inside zero d s m i h k = absurd (omega arith)
copy_down-inside (suc n) d s m i h k = elim (ℕ_discrete i n) [
  | yes e ↦ ground (arith, copy_down-outside n d s (write m (d + n) (m (s + n))) (d + i))
  | no e ↦ ground (arith, copy_down-inside n d s (write m (d + n) (m (s + n))) i)
]

-- Whether or not the objects overlap, after `memmove` the destination holds what the source held
-- before.
memmove-inside : (d s n : ℕ) (m : Memory) (i : ℕ) → i < n → memmove d s n m (d + i) ≡ m (s + i)
unfolding memmove
memmove-inside d s n m i h = elim (Bool-cases (ltb d s)) [
  | inl e ↦ rw e (copy_up-inside n d s m i h (ltb→lt d s e))
  | inr e ↦ rw e (copy_down-inside n d s m i h (ground arith))
]

-- `memmove` leaves every address outside of the destination as it was.
memmove-outside : (d s n : ℕ) (m : Memory) (a : ℕ) → (a < d) ⊎ (d + n ≤ a) → memmove d s n m a ≡ m a
unfolding memmove
memmove-outside d s n m a h = elim (Bool-cases (ltb d s)) [
  | inl e ↦ rw e (copy_up-outside n d s m a h)
  | inr e ↦ rw e (copy_down-outside n d s m a h)
]

-- Whether or not the objects overlap, after `memmove` the destination holds what the source held
-- before, and every other address holds what it held.
pub memmove_lem :
    (d s n : ℕ) (m : Memory) (a : ℕ)
    → memmove d s n m a ≡ (if leb d a && ltb a (d + n) then m (s + (a - d)) else m a)
memmove_lem d s n m a = elim (Bool-cases (leb d a && ltb a (d + n))) [
  | inl e ↦
      let lo : d ≤ a = ground arith in
      let hi : a < d + n = ground arith in
      let at : d + (a - d) ≡ a = omega arith in
      rw e (ap (memmove d s n m) (sym at) ∙ memmove-inside d s n m (a - d) (omega arith))
  | inr e ↦ let out : (a < d) ⊎ (d + n ≤ a) = ground arith in rw e (memmove-outside d s n m a out)
]
