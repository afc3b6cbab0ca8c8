-- ===== src/Cc1/Cpp/Elif.antt =====
-- A conditional with #elif and #else, cpp.c `elif`.
use Prim.Native.Nat.{max}
use simple_scc.Common.{
  ℕ, zero, suc, ◌+◌, ◌-◌, ◌<◌, ◌≡◌, refl, sym, ap, ◌∙◌, arith, Bool, true, false, not, ◌&&◌, ◌||◌,
  List, ◌∷◌, ◌++◌, ◌==◌, if◌then◌else◌,
}
use simple_scc.Common.Int.{pos}
use simple_scc.Cc1.Cpp.{
  Level, State, enter, done, holds, nr_cond, elif, elseclause, direct, or_elif, or_else, end_if,
  Line, directive, run,
}
use simple_scc.Cc1.Cpp.Levels.{
  Same, Inside, status, level, count, ifclause_lem, enter-Inside, else_lem, elseclause-Inside,
  misplaced_lem, end_lem, count-first, count-second,
}
use simple_scc.Cc1.Cpp.Groups.{
  Test, opening, says, Group, flatten, keep, depth, open_lem, before, after_directive,
  pass_directive, first_directive, Reads-part, run-flatten,
}

-- What `#elif` sets the part behind it to.
abbrev turned : Bool → ℕ → Bool → Bool
turned e m c = if e then false else status m c

-- What is enabled in an open level.
enabled_lem :
    (s s' : State) (e i : Bool) (c : ℕ)
    → Inside s s' (level e i) c
    → (s'.ifstate (s'.ctx - 1)).enabled ≡ e
enabled_lem s s' e i c k =
    let last : s'.ctx - 1 ≡ s.ctx = omega (arith, k.ctx_eq) in
    ap (λ n. (s'.ifstate n).enabled) last ∙ ap (λ l. l.enabled) k.level_eq

elif-on :
    (s s' : State) (c : Bool) (m : ℕ)
    → Inside s s' (level true false) m
    → direct (or_elif (holds c)) s' ≡ done (elseclause s')
unfolding direct elif
elif-on s s' c m k =
    let right = misplaced_lem s s' true false m k in
    let turned = elseclause-Inside s s' true false m k in
    let disabled = enabled_lem s (elseclause s') false false (suc m) turned in
    rw (right, disabled) refl

-- The level is left, and entered again.
abbrev left : State → State
left s = record s { ctx = s.ctx - 1 }

left-Same : (s s' : State) (l : Level) (m : ℕ) → s.off ≡ pos m → Inside s s' l m → Same s (left s')
left-Same s s' l m o k = record {
  ctx_eq = omega (arith, k.ctx_eq);
  off_eq = k.off_eq ∙ sym o;
  below = k.below;
}

Same-Inside : (s u v : State) (l : Level) (m : ℕ) → Same s u → Inside u v l m → Inside s v l m
Same-Inside s u v l m w k = record {
  ctx_eq = k.ctx_eq ∙ ap suc w.ctx_eq;
  off_eq = k.off_eq;
  level_eq = ap v.ifstate (sym w.ctx_eq) ∙ k.level_eq;
  below = λ i h. k.below i (omega (arith, w.ctx_eq)) ∙ w.below i h;
}

elif-off :
    (s s' : State) (c : Bool) (m : ℕ)
    → s.off ≡ pos m
    → s.ctx < nr_cond - 1
    → Inside s s' (level false false) (suc m)
    → (t : State) × (direct (or_elif (holds c)) s' ≡ done t)
      × Inside s t (level (status m c) false) (count (status m c) m)
unfolding direct elif
elif-off s s' c m o h k =
    let right = misplaced_lem s s' false false (suc m) k in
    let turned = elseclause-Inside s s' false false m k in
    let on = enabled_lem s (elseclause s') true false m turned in
    let u = left (elseclause s') in
    let w = left-Same s (elseclause s') (level true false) m o turned in
    let st = status m c in
    let v = enter u.ctx st (record u { ctx = u.ctx + 1 }) in
    (
      v,
      rw (right, on) (ifclause_lem false c u m (w.off_eq ∙ o) (omega (arith, w.ctx_eq))),
      Same-Inside s u v (level st false) (count st m) w (enter-Inside st u m (w.off_eq ∙ o)),
    )

elif_lem :
    (s s' : State) (e c : Bool) (m : ℕ)
    → s.off ≡ pos m
    → s.ctx < nr_cond - 1
    → Inside s s' (level e false) (count e m)
    → (t : State) × (direct (or_elif (holds c)) s' ≡ done t)
      × Inside s t (level (turned e m c) false) (count (turned e m c) m)
elif_lem s s' true c m o h k =
    (elseclause s', elif-on s s' c m k, elseclause-Inside s s' true false m k)
elif_lem s s' false c m o h k = elif-off s s' c m o h k

-- Which parts are kept.
count-turned :
    (m : ℕ) (b c : Bool) → (count (turned (status m b) m c) m == 0) ≡ ((m == 0) && (not b && c))
count-turned zero true c = refl
count-turned zero false c = count-first zero c
count-turned (suc m) b c = ground arith

count-last :
    (m : ℕ) (b c : Bool)
    → (count (not (turned (status m b) m c)) m == 0) ≡ ((m == 0) && (b || not c))
count-last zero true c = refl
count-last zero false c = count-second zero c
count-last (suc m) b c = ground arith

-- The text of a conditional of three parts, with the text behind it.
abbrev pub chain : Test → Bool → Group → Group → Group → List Line → List Line
chain t c first second third ls =
    directive (opening t)
    ∷ flatten first (
        directive (or_elif (holds c))
        ∷ flatten second (directive or_else ∷ flatten third (directive end_if ∷ ls)))

abbrev pub kept : Bool → Test → Bool → Group → Group → Group → List ℕ
kept on t c first second third =
    keep (on && says t) first
    ++ (keep (on && (not (says t) && c)) second ++ keep (on && (says t || not c)) third)

-- In a conditional with an #elif and an #else, the part behind #if is kept if the first condition holds,
-- the part behind #elif if the first does not and the second does, and the part behind #else if the second
-- does not hold or if the first does, so that the first and the last part are kept together. All three are
-- left out in a part that is left out. Then the rest is read with the levels of before. There is room for
-- the levels.
pub run-chain :
    (t : Test) (c : Bool) (first second third : Group) (ls : List Line) (s : State) (m : ℕ)
    → s.off ≡ pos m
    → s.ctx + suc (max (depth first) (max (depth second) (depth third))) < nr_cond
    → (s' : State) × Same s s'
      × (run (chain t c first second third ls) s
          ≡ before (kept (m == 0) t c first second third) (run ls s'))
run-chain t c first second third ls s m o h =
    let on = m == 0 in
    let st = status m (says t) in
    let st' = turned st m c in
    let part3 = flatten third (directive end_if ∷ ls) in
    let part2 = flatten second (directive or_else ∷ part3) in
    let part1 = flatten first (directive (or_elif (holds c)) ∷ part2) in
    let ks1 = keep (on && says t) first in
    let ks2 = keep (on && (not (says t) && c)) second in
    let ks3 = keep (on && (says t || not c)) third in
    let (s1, e1, k1) = open_lem t s m o (omega arith) in
    let (s2, k2, e2) =
      Reads-part first (run-flatten first) s s1 (level st false) (count st m) (on && says t)
        (directive (or_elif (holds c)) ∷ part2) k1 (count-first m (says t)) (omega arith) in
    let (s3, e3, k3) = elif_lem s s2 st c m o (omega arith) k2 in
    let (s4, k4, e4) =
      Reads-part second (run-flatten second) s s3 (level st' false) (count st' m)
        (on && (not (says t) && c)) (directive or_else ∷ part3) k3 (count-turned m (says t) c)
        (omega arith) in
    let (s5, e5, k5) = else_lem s s4 st' m k4 in
    let (s6, k6, e6) =
      Reads-part third (run-flatten third) s s5 (level (not st') true) (count (not st') m)
        (on && (says t || not c)) (directive end_if ∷ ls) k5 (count-last m (says t) c)
        (omega arith) in
    let (s7, e7, w) = end_lem s s6 (not st') true m o k6 in
    (
      s7,
      w,
      first_directive (opening t) part1 s s1 (before (ks1 ++ (ks2 ++ ks3)) (run ls s7)) e1 (
          after_directive (or_elif (holds c)) part1 part2 s1 s2 s3 ks1 (ks2 ++ ks3) (run ls s7) e2
            e3
            (after_directive or_else part2 part3 s3 s4 s5 ks2 ks3 (run ls s7) e4 e5
              (pass_directive end_if part3 ls s5 s6 s7 ks3 e6 e7))),
    )
