-- ===== src/Cc1/Layout/Struct.antt =====
-- The layout of a struct whose members have alignments that are powers of two.
use simple_scc.Common.{
  ℕ, ◌+◌, ◌*◌, ◌^◌, ◌≤◌, ◌<◌, ◌≡◌, refl, sym, ◌∙◌, arith, List, [], ◌∷◌, All, ltb, if◌then◌else◌,
  Bool-cases, inl, inr, ◌⊎◌,
}
use native.Mathlib.Nat.{one-le-pow}
use mathlib.Core.Path.{subst}
use simple_scc.Cc1.Layout.{Extent, Loop, start, place, members, padded, struct_size}
use simple_scc.Cc1.Layout.Round.{IsPower, next_multiple, last_multiple}

abbrev pub IsMultiple : ℕ → ℕ → Type 0
IsMultiple a x = (q : ℕ) × (x ≡ q * a)

-- The members lie one behind the other from `from` to `end`, each at the next multiple of its alignment.
abbrev pub Laid : ℕ → List Extent → List ℕ → ℕ → Type 0
Laid from [] [] end = from ≡ end
Laid from [] (o ∷ os) end = ⊥
Laid from (f ∷ fs) [] end = ⊥
Laid from (f ∷ fs) (o ∷ os) end =
    (from ≤ o) × (o < from + f.align) × IsMultiple f.align o × Laid (o + f.size) fs os end

-- Room enough for the members, however they are padded.
abbrev pub room : List Extent → ℕ
room [] = 0
room (f ∷ fs) = f.size + f.align + room fs

record Placed (f : Extent) (l : Loop) (o : ℕ) (l' : Loop) : Type 0 where
  behind : l.offset ≤ o
  near : o < l.offset + f.align
  aligned : IsMultiple f.align o
  offset_eq : l'.offset ≡ o + f.size
  size_eq : l'.size ≡ o + f.size
  align_eq : l'.align ≡ (if ltb l.align f.align then f.align else l.align)

place-Placed :
    (f : Extent) (l : Loop)
    → IsPower f.align
    → l.offset + f.size + f.align < 2 ^ 63
    → Placed f l (place f l).0 (place f l).1
unfolding place
place-Placed f l p h =
    let (q, e, lo, hi) = next_multiple f.align l.offset p (omega arith) in
    record {
      behind = lo;
      near = hi;
      aligned = (q, e);
      offset_eq = omega arith;
      size_eq = omega arith;
      align_eq = refl;
    }

abbrev IsAlign : ℕ → Type 0
IsAlign a = IsPower a ⊎ (a ≡ 0)

larger-IsAlign : (a b : ℕ) → IsPower a → IsAlign b → IsAlign (if ltb b a then a else b)
larger-IsAlign a b p q = elim (Bool-cases (ltb b a)) [ inl z ↦ rw z (inl p) | inr z ↦ rw z q ]

-- Where the loop ends, and the alignment that it finds: that of a member, and no smaller than any.
record Ended (fs : List Extent) (l : Loop) (os : List ℕ) (l' : Loop) : Type 0 where
  laid : Laid l.offset fs os l'.offset
  bound : l'.offset ≤ l.offset + room fs
  size_eq : l.size ≡ l.offset → l'.size ≡ l'.offset
  power : IsAlign l.align → IsAlign l'.align
  above : All (λ f. f.align ≤ l'.align) fs
  grows : l.align ≤ l'.align
  align_bound : l'.align ≤ l.align + room fs

power_pos : (a : ℕ) → IsPower a → 0 < a
power_pos a (k, b, e) = omega (arith, e, one-le-pow k 2 (omega arith))

no_zero : (a b : ℕ) → 0 < b → b ≤ a → IsAlign a → IsPower a
no_zero a b h l (inl p) = p
no_zero a b h l (inr z) = absurd (omega arith)

larger_lem : (a b c : ℕ) → c ≡ (if ltb a b then b else a) → (b ≤ c) × (a ≤ c) × (c ≤ a + b)
larger_lem a b c e = ground arith

members-Ended :
    (fs : List Extent) (l : Loop)
    → All (λ f. IsPower f.align) fs
    → l.offset + room fs < 2 ^ 63
    → Ended fs l (members place fs l).0 (members place fs l).1
unfolding members
members-Ended [] l p h = record {
  laid = refl;
  bound = omega arith;
  size_eq = λ e. e;
  power = λ q. q;
  above = tt;
  grows = omega arith;
  align_bound = omega arith;
}
members-Ended (f ∷ fs) l (p, ps) h =
    let k = place-Placed f l p (omega arith) in
    let i = members-Ended fs (place f l).1 ps (omega (arith, k.offset_eq, k.near)) in
    let larger : (f.align ≤ (place f l).1.align)
        × (l.align ≤ (place f l).1.align)
        × ((place f l).1.align ≤ l.align + f.align) =
      larger_lem l.align f.align (place f l).1.align k.align_eq in
    record {
      laid = (
        k.behind,
        k.near,
        k.aligned,
        subst
            (λ (x : ℕ).
              Laid x fs (members place fs (place f l).1).0
                (members place fs (place f l).1).1.offset)
            k.offset_eq i.laid,
      );
      bound = omega (arith, i.bound, k.offset_eq, k.near);
      size_eq = λ e. i.size_eq (k.size_eq ∙ sym k.offset_eq);
      power = λ q. i.power (subst IsAlign (sym k.align_eq) (larger-IsAlign f.align l.align p q));
      above = (omega (arith, larger, i.grows), i.above);
      grows = omega (arith, larger, i.grows);
      align_bound = omega (arith, larger, i.align_bound);
    }

-- `typesize` lays a struct out: each member is at the next multiple of its alignment behind the one
-- before it, no alignment is above the one of the struct, and the size is the next multiple of that
-- alignment. The alignments of the members are powers of two, and the sizes do not overflow.
pub struct_size-Laid :
    (f : Extent) (fs : List Extent)
    → All (λ g. IsPower g.align) (f ∷ fs)
    → room (f ∷ fs) < 2 ^ 63
    → let (tp, offsets) = struct_size (f ∷ fs) in
      (end : ℕ) × Laid 0 (f ∷ fs) offsets end
      × All (λ g. g.align ≤ tp.align) (f ∷ fs)
      × IsPower tp.align
      × IsMultiple tp.align tp.size
      × (end ≤ tp.size)
      × (tp.size < end + tp.align)
unfolding struct_size padded
struct_size-Laid f fs p h =
    let (os, l) = members place (f ∷ fs) start in
    let i = members-Ended (f ∷ fs) start p (omega arith) in
    let positive : 0 < f.align = power_pos f.align p.0 in
    let power = no_zero l.align f.align positive (i.above.0) (i.power (inr refl)) in
    let size : l.size ≡ l.offset = i.size_eq refl in
    let (q, e, lo, hi) =
      last_multiple l.align l.size power (omega (arith, size, i.bound, i.align_bound)) in
    (l.offset, i.laid, i.above, power, (q, e), omega (arith, size), omega (arith, size))
