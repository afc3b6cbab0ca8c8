-- ===== src/Cc1/Cpp/Levels.antt =====
-- The levels of conditional inclusion: what #if, #else and #endif do to the innermost one.
use simple_scc.Common.{
  ℕ, zero, suc, ◌+◌, ◌-◌, ◌<◌, ◌≡◌, ◌≢◌, refl, sym, ap, ◌∙◌, arith, Bool, true, false, not, ◌&&◌,
  ◌==◌, if◌then◌else◌,
}
use simple_scc.Common.Int.{ℤ, pos, ◌+ℤ◌, ◌-ℤ◌}
use simple_scc.Cc1.Cpp.{
  Level, State, done, holds, nr_cond, set_level, is_on, enter, decide, ifclause, elseclause,
  misplaced, cppelse, endif, or_else, end_if, direct,
}

-- The level and the count are as before, and so are the outer levels.
pub record Same (s s' : State) : Type 0 where
  pub ctx_eq : s'.ctx ≡ s.ctx
  pub off_eq : s'.off ≡ s.off
  pub below : (i : ℕ) → i < s.ctx → s'.ifstate i ≡ s.ifstate i

-- A level that is open inside of `s`.
pub record Inside (s s' : State) (l : Level) (m : ℕ) : Type 0 where
  pub ctx_eq : s'.ctx ≡ suc s.ctx
  pub off_eq : s'.off ≡ pos m
  pub level_eq : s'.ifstate s.ctx ≡ l
  pub below : (i : ℕ) → i < s.ctx → s'.ifstate i ≡ s.ifstate i

abbrev pub status : ℕ → Bool → Bool
status zero b = b
status (suc m) b = false

abbrev pub level : Bool → Bool → Level
level e i = record { enabled = e; iselse = i }

abbrev pub count : Bool → ℕ → ℕ
count b m = if b then m else suc m

pub ifclause_lem :
    (negate c : Bool) (s : State) (m : ℕ)
    → s.off ≡ pos m
    → s.ctx < nr_cond - 1
    → ifclause negate (holds c) s
      ≡ done (enter s.ctx (status m (if negate then not c else c)) (record s { ctx = s.ctx + 1 }))
unfolding ifclause decide is_on
ifclause_lem negate c s zero e h =
    let inner : (s.ctx == nr_cond - 1) ≡ false = ground arith in rw (inner, e) refl
ifclause_lem negate c s (suc m) e h =
    let inner : (s.ctx == nr_cond - 1) ≡ false = ground arith in rw (inner, e) refl

count-enter :
    (st : Bool) (m : ℕ) (o : ℤ) → o ≡ pos m → (if st then o else o +ℤ pos 1) ≡ pos (count st m)
unfolding ◌+ℤ◌
count-enter true m o e = e
count-enter false m o e = rw e (ground arith)

count-leave :
    (st : Bool) (m : ℕ) (o : ℤ) → o ≡ pos (count st m) → (if st then o else o -ℤ pos 1) ≡ pos m
unfolding ◌-ℤ◌
count-leave true m o e = e
count-leave false m o e = rw e (ground arith)

-- #else: the other part is on where the first was not.
count-else :
    (st : Bool) (m : ℕ) (o : ℤ)
    → o ≡ pos (count st m)
    → (if st then o +ℤ pos 1 else o -ℤ pos 1) ≡ pos (count (not st) m)
count-else true m o e = count-enter false m o e
count-else false m o e = count-leave false m o e

pub enter-Inside :
    (st : Bool) (s : State) (m : ℕ)
    → s.off ≡ pos m
    → Inside s (enter s.ctx st (record s { ctx = s.ctx + 1 })) (level st false) (count st m)
unfolding enter set_level ◌+ℤ◌
enter-Inside st s m e = record {
  ctx_eq = omega arith;
  off_eq = count-enter st m s.off e;
  level_eq = ground arith;
  below = λ i h. ground arith;
}

pub end_lem :
    (s s' : State) (e i : Bool) (m : ℕ)
    → s.off ≡ pos m
    → Inside s s' (level e i) (count e m)
    → (t : State) × (direct end_if s' ≡ done t) × Same s t
unfolding direct endif
end_lem s s' e i m o k =
    let inner : (s'.ctx == 0) ≡ false = ground (arith, k.ctx_eq) in
    let last : s'.ctx - 1 ≡ s.ctx = omega (arith, k.ctx_eq) in
    let same : (s'.ifstate (s'.ctx - 1)).enabled ≡ e =
      ap (λ n. (s'.ifstate n).enabled) last ∙ ap (λ l. l.enabled) k.level_eq in
    (
      record s' {
        ctx = s'.ctx - 1;
        off = if (s'.ifstate (s'.ctx - 1)).enabled then s'.off else s'.off -ℤ pos 1;
      },
      rw inner refl,
      record {
        ctx_eq = last;
        off_eq =
            ap (λ (b : Bool). if b then s'.off else s'.off -ℤ pos 1) same
            ∙ count-leave e m s'.off k.off_eq
            ∙ sym o;
        below = k.below;
      },
    )

set_level-same : (n : ℕ) (l : Level) (s : State) (i : ℕ) → n ≡ i → set_level n l s i ≡ l
unfolding set_level
set_level-same n l s i e = ground arith

set_level-other : (n : ℕ) (l : Level) (s : State) (i : ℕ) → n ≢ i → set_level n l s i ≡ s.ifstate i
unfolding set_level
set_level-other n l s i e = ground arith

-- A change of the innermost level.
relevel :
    (s s' : State) (old new : Level) (c d : ℕ) (f : Level → Level) (o : ℤ)
    → Inside s s' old c
    → f old ≡ new
    → o ≡ pos d
    → Inside s
        (record s' { ifstate = set_level (s'.ctx - 1) (f (s'.ifstate (s'.ctx - 1))) s'; off = o })
        new
        d
relevel s s' old new c d f o k e p =
    let last : s'.ctx - 1 ≡ s.ctx = omega (arith, k.ctx_eq) in
    record {
      ctx_eq = k.ctx_eq;
      off_eq = p;
      level_eq =
          set_level-same (s'.ctx - 1) _ s' s.ctx last ∙ ap f (ap s'.ifstate last ∙ k.level_eq) ∙ e;
      below =
          λ i h. set_level-other (s'.ctx - 1) _ s' i (λ q. omega (arith, q, last)) ∙ k.below i h;
    }

pub elseclause-Inside :
    (s s' : State) (e i : Bool) (m : ℕ)
    → Inside s s' (level e i) (count e m)
    → Inside s (elseclause s') (level (not e) i) (count (not e) m)
unfolding elseclause
elseclause-Inside s s' e i m k =
    let last : s'.ctx - 1 ≡ s.ctx = omega (arith, k.ctx_eq) in
    let same : (s'.ifstate (s'.ctx - 1)).enabled ≡ e =
      ap (λ n. (s'.ifstate n).enabled) last ∙ ap (λ l. l.enabled) k.level_eq in
    relevel s s' (level e i) (level (not e) i) (count e m) (count (not e) m)
      (λ l. record l { enabled = not l.enabled }) _ k refl
      (ap (λ (b : Bool). if b then s'.off +ℤ pos 1 else s'.off -ℤ pos 1) same
        ∙ count-else e m s'.off k.off_eq)

pub misplaced_lem :
    (s s' : State) (e i : Bool) (c : ℕ) → Inside s s' (level e i) c → misplaced s' ≡ i
unfolding misplaced
misplaced_lem s s' e i c k =
    let inner : (s'.ctx == 0) ≡ false = ground (arith, k.ctx_eq) in
    let last : s'.ctx - 1 ≡ s.ctx = omega (arith, k.ctx_eq) in
    rw inner (ap (λ n. (s'.ifstate n).iselse) last ∙ ap (λ l. l.iselse) k.level_eq)

pub else_lem :
    (s s' : State) (e : Bool) (m : ℕ)
    → Inside s s' (level e false) (count e m)
    → (t : State) × (direct or_else s' ≡ done t) × Inside s t (level (not e) true) (count (not e) m)
unfolding direct cppelse
else_lem s s' e m k =
    let right = misplaced_lem s s' e false (count e m) k in
    let marked =
      relevel s s' (level e false) (level e true) (count e m) (count e m)
        (λ l. record l { iselse = true }) s'.off k refl k.off_eq in
    (_, rw right refl, elseclause-Inside s _ e true m marked)

-- What is on in the first part, and in the part behind #else.
pub count-first : (m : ℕ) (b : Bool) → (count (status m b) m == 0) ≡ ((m == 0) && b)
count-first zero true = refl
count-first zero false = refl
count-first (suc m) b = ground arith

pub count-second : (m : ℕ) (b : Bool) → (count (not (status m b)) m == 0) ≡ ((m == 0) && not b)
count-second zero true = refl
count-second zero false = refl
count-second (suc m) b = ground arith

pub Inside-Same :
    {s s1 s2 : State} {l : Level} {m : ℕ} → Inside s s1 l m → Same s1 s2 → Inside s s2 l m
Inside-Same {s = s} k w = record {
  ctx_eq = w.ctx_eq ∙ k.ctx_eq;
  off_eq = w.off_eq ∙ k.off_eq;
  level_eq = w.below s.ctx (omega (arith, k.ctx_eq)) ∙ k.level_eq;
  below = λ i h. w.below i (omega (arith, k.ctx_eq)) ∙ k.below i h;
}

pub Same-Same : {s s1 s2 : State} → Same s s1 → Same s1 s2 → Same s s2
Same-Same k w = record {
  ctx_eq = w.ctx_eq ∙ k.ctx_eq;
  off_eq = w.off_eq ∙ k.off_eq;
  below = λ i h. w.below i (omega (arith, k.ctx_eq)) ∙ k.below i h;
}
