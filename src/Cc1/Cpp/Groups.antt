-- ===== src/Cc1/Cpp/Groups.antt =====
-- Nested groups of lines, and the lines that the C standard keeps of them: an abstract view of the
-- conditional directives but #elif.
use Prim.Native.Nat.{max}
use simple_scc.Common.{
  ℕ, zero, suc, ◌+◌, ◌-◌, ◌<◌, ◌≡◌, refl, sym, ap, ◌∙◌, arith, Bool, true, false, not, ◌&&◌, List,
  [], ◌∷◌, ◌++◌, Option, none, some, append_assoc, ◌==◌, if◌then◌else◌,
}
use simple_scc.Common.Int.{ℤ, pos}
use simple_scc.Cc1.Cpp.Levels.{
  status, level, count, ifclause_lem, enter-Inside, end_lem, else_lem, count-first, count-second,
  Inside-Same, Same-Same, Same, Inside,
}
use simple_scc.Cc1.Cpp.{
  Level, State, done, holds, nr_cond, is_on, Directive, cppif, ifdef, ifndef, or_else, end_if,
  direct, Line, text, directive, with_line, onward, run,
}

-- #if, #ifdef or #ifndef, and what the expression or the definition of the macro says.
pub data Test : Type 0 where
  if_true if_defined if_undefined : Bool → Test

abbrev pub opening : Test → Directive
opening (if_true b) = cppif (holds b)
opening (if_defined b) = ifdef (holds b)
opening (if_undefined b) = ifndef (holds b)

abbrev pub says : Test → Bool
says (if_true b) = b
says (if_defined b) = b
says (if_undefined b) = not b

-- Lines with conditional parts, which have an #else or not.
pub data Group : Type 0 where
  end : Group
  line : ℕ → Group → Group
  block : Test → Group → Group → Group
  block_else : Test → Group → Group → Group → Group

-- The text of a group, with the text behind it.
abbrev pub flatten : Group → List Line → List Line
flatten end ls = ls
flatten (line n g) ls = text n ∷ flatten g ls
flatten (block t body g) ls = directive (opening t) ∷ flatten body (directive end_if ∷ flatten g ls)
flatten (block_else t body alt g) ls =
    directive (opening t)
    ∷ flatten body (directive or_else ∷ flatten alt (directive end_if ∷ flatten g ls))

-- The lines that are kept, if the group itself is in a part that is kept or is not.
abbrev pub keep : Bool → Group → List ℕ
keep on end = []
keep on (line n g) = if on then n ∷ keep on g else keep on g
keep on (block t body g) = keep (on && says t) body ++ keep on g
keep on (block_else t body alt g) =
    keep (on && says t) body ++ (keep (on && not (says t)) alt ++ keep on g)

abbrev pub depth : Group → ℕ
depth end = 0
depth (line n g) = depth g
depth (block t body g) = max (suc (depth body)) (depth g)
depth (block_else t body alt g) = max (suc (max (depth body) (depth alt))) (depth g)

pub open_lem :
    (t : Test) (s : State) (m : ℕ)
    → s.off ≡ pos m
    → s.ctx < nr_cond - 1
    → (s' : State) × (direct (opening t) s ≡ done s')
      × Inside s s' (level (status m (says t)) false) (count (status m (says t)) m)
unfolding direct
open_lem (if_true b) s m e h = (_, ifclause_lem false b s m e h, enter-Inside _ s m e)
open_lem (if_defined b) s m e h = (_, ifclause_lem false b s m e h, enter-Inside _ s m e)
open_lem (if_undefined b) s m e h = (_, ifclause_lem true b s m e h, enter-Inside _ s m e)

-- The lines `ks` before what the rest of a run keeps.
abbrev pub before : List ℕ → Option (List ℕ × State) → Option (List ℕ × State)
before ks none = none
before ks (some (kept, s)) = some (ks ++ kept, s)

before-nil : (r : Option (List ℕ × State)) → before [] r ≡ r
before-nil none = refl
before-nil (some p) = refl

before-before :
    (js ks : List ℕ) (r : Option (List ℕ × State)) → before js (before ks r) ≡ before (js ++ ks) r
before-before js ks none = refl
before-before js ks (some (l, s)) = ap (λ x. some (x, s)) (sym (append_assoc js ks l))

is_on_lem : (m : ℕ) (o : ℤ) → o ≡ pos m → is_on o ≡ (m == 0)
unfolding is_on
is_on_lem zero o e = rw e refl
is_on_lem (suc m) o e = rw e (ground arith)

with_line-before :
    (b : Bool) (n : ℕ) (ks : List ℕ) (r : Option (List ℕ × State))
    → with_line b n (before ks r) ≡ before (if b then n ∷ ks else ks) r
with_line-before true n ks none = refl
with_line-before false n ks none = refl
with_line-before true n ks (some p) = refl
with_line-before false n ks (some p) = refl

-- A directive behind lines of which `ks` are kept, and what stands behind it.
pub pass_directive :
    (d : Directive) (ls ls' : List Line) (s s1 s2 : State) (ks : List ℕ)
    → run ls s ≡ before ks (run (directive d ∷ ls') s1)
    → direct d s1 ≡ done s2
    → run ls s ≡ before ks (run ls' s2)
unfolding run
pass_directive d ls ls' s s1 s2 ks e1 e2 = e1 ∙ ap (λ x. before ks (onward x (run ls'))) e2

pub after_directive :
    (d : Directive) (ls ls' : List Line) (s s1 s2 : State) (ks js : List ℕ)
    (r : Option (List ℕ × State))
    → run ls s ≡ before ks (run (directive d ∷ ls') s1)
    → direct d s1 ≡ done s2
    → run ls' s2 ≡ before js r
    → run ls s ≡ before (ks ++ js) r
after_directive d ls ls' s s1 s2 ks js r e1 e2 e3 =
    pass_directive d ls ls' s s1 s2 ks e1 e2 ∙ ap (before ks) e3 ∙ before-before ks js r

pub first_directive :
    (d : Directive) (ls : List Line) (s s1 : State) (r : Option (List ℕ × State))
    → direct d s ≡ done s1
    → run ls s1 ≡ r
    → run (directive d ∷ ls) s ≡ r
unfolding run
first_directive d ls s s1 r e1 e2 = ap (λ x. onward x (run ls)) e1 ∙ e2

-- What `run-flatten` says of a group.
abbrev pub Reads : Group → Type 0
Reads g =
    (ls : List Line) (s : State) (m : ℕ)
    → s.off ≡ pos m
    → s.ctx + depth g < nr_cond
    → (s' : State) × Same s s' × (run (flatten g ls) s ≡ before (keep (m == 0) g) (run ls s'))

-- A part of a conditional, whose level is `l` and which is kept if `b`.
pub Reads-part :
    (g : Group)
    → Reads g
    → (s s1 : State) (l : Level) (c : ℕ) (b : Bool) (ls : List Line) → Inside s s1 l c
    → (c == 0) ≡ b
    → s.ctx + suc (depth g) < nr_cond
    → (s2 : State) × Inside s s2 l c × (run (flatten g ls) s1 ≡ before (keep b g) (run ls s2))
Reads-part g r s s1 l c b ls k e h =
    let (s2, w, q) = r ls s1 c k.off_eq (omega (arith, k.ctx_eq)) in
    (s2, Inside-Same k w, q ∙ ap (λ x. before (keep x g) (run ls s2)) e)

-- #endif, and the group behind it.
pub Reads-end :
    (g : Group)
    → Reads g
    → (s s1 : State) (e i : Bool) (m : ℕ) (ls : List Line) → s.off ≡ pos m
    → Inside s s1 (level e i) (count e m)
    → s.ctx + depth g < nr_cond
    → (s2 s3 : State) × (direct end_if s1 ≡ done s2)
      × Same s s3
      × (run (flatten g ls) s2 ≡ before (keep (m == 0) g) (run ls s3))
Reads-end g r s s1 e i m ls o k h =
    let (s2, q, w) = end_lem s s1 e i m o k in
    let (s3, v, p) = r ls s2 m (w.off_eq ∙ o) (omega (arith, w.ctx_eq)) in
    (s2, s3, q, Same-Same w v, p)

-- A group is read as the standard says: the lines that are kept are kept, and then the rest is read
-- with the levels of before. There is room for its levels.
pub run-flatten :
    (g : Group) (ls : List Line) (s : State) (m : ℕ)
    → s.off ≡ pos m
    → s.ctx + depth g < nr_cond
    → (s' : State) × Same s s' × (run (flatten g ls) s ≡ before (keep (m == 0) g) (run ls s'))
unfolding run
run-flatten end ls s m o h =
    (s, record { ctx_eq = refl; off_eq = refl; below = λ i l. refl }, sym (before-nil (run ls s)))
run-flatten (line n g) ls s m o h =
    let (s', w, e) = run-flatten g ls s m o h in
    (
      s',
      w,
      ap (with_line (is_on s.off) n) e
          ∙ ap (λ b. with_line b n (before (keep (m == 0) g) (run ls s'))) (is_on_lem m s.off o)
          ∙ with_line-before (m == 0) n (keep (m == 0) g) (run ls s'),
    )
run-flatten (block t body g) ls s m o h =
    let st = status m (says t) in
    let more = directive end_if ∷ flatten g ls in
    let (s1, e1, k1) = open_lem t s m o (omega arith) in
    let (s2, k2, e2) =
      Reads-part body (run-flatten body) s s1 (level st false) (count st m) ((m == 0) && says t)
        more k1 (count-first m (says t)) (omega arith) in
    let (s3, s4, e3, w, e4) = Reads-end g (run-flatten g) s s2 st false m ls o k2 (omega arith) in
    let ks = keep ((m == 0) && says t) body in
    (
      s4,
      w,
      first_directive (opening t) (flatten body more) s s1
          (before (ks ++ keep (m == 0) g) (run ls s4)) e1
          (after_directive end_if (flatten body more) (flatten g ls) s1 s2 s3 ks (keep (m == 0) g)
            (run ls s4) e2 e3 e4),
    )
run-flatten (block_else t body alt g) ls s m o h =
    let st = status m (says t) in
    let more = directive end_if ∷ flatten g ls in
    let (s1, e1, k1) = open_lem t s m o (omega arith) in
    let (s2, k2, e2) =
      Reads-part body (run-flatten body) s s1 (level st false) (count st m) ((m == 0) && says t)
        (directive or_else ∷ flatten alt more) k1 (count-first m (says t)) (omega arith) in
    let (s3, e3, k3) = else_lem s s2 st m k2 in
    let (s4, k4, e4) =
      Reads-part alt (run-flatten alt) s s3 (level (not st) true) (count (not st) m)
        ((m == 0) && not (says t)) more k3 (count-second m (says t)) (omega arith) in
    let (s5, s6, e5, w, e6) =
      Reads-end g (run-flatten g) s s4 (not st) true m ls o k4 (omega arith) in
    let ks = keep ((m == 0) && says t) body in
    let js = keep ((m == 0) && not (says t)) alt in
    let is = js ++ keep (m == 0) g in
    let all = directive or_else ∷ flatten alt more in
    (
      s6,
      w,
      first_directive (opening t) (flatten body all) s s1 (before (ks ++ is) (run ls s6)) e1 (
          after_directive or_else (flatten body all) (flatten alt more) s1 s2 s3 ks is (run ls s6)
            e2 e3
            (after_directive end_if (flatten alt more) (flatten g ls) s3 s4 s5 js (keep (m == 0) g)
              (run ls s6) e4 e5 e6)),
    )
