-- ===== src/Cc1/Cpp.antt =====
-- Conditional inclusion, src/cmd/cc/cc1/cpp.c: `ifclause`, `elseclause` and the directives #if, #ifdef,
-- #ifndef, #elif, #else and #endif. What a condition says is given with the directive.
pub mod Levels
pub mod Groups
pub mod Elif
mod Tests
use simple_scc.Common.{
  ℕ, zero, suc, ◌+◌, ◌-◌, Bool, true, false, not, List, [], ◌∷◌, Option, none, some, ltb, ◌==◌,
  if◌then◌else◌,
}
use simple_scc.Common.Int.{ℤ, pos, negsuc, ◌+ℤ◌, ◌-ℤ◌}

-- struct ifstate
pub record Level : Type 0 where
  pub enabled : Bool
  pub iselse : Bool

-- `ctx` is cppctx and `off` is cppoff. An entry of `ifstate` stays when its level ends.
pub record State : Type 0 where
  pub ifstate : ℕ → Level
  pub ctx : ℕ
  pub off : ℤ

-- Where the compilation goes on, with or without a complaint, and where `error` ends it.
pub data Outcome : Type 0 where
  done complained : State → Outcome
  stopped : Outcome

-- The value of a condition, or none: no macro name, or no constant expression.
pub data Condition : Type 0 where
  holds : Bool → Condition
  bad : Condition

-- NR_COND of cstd-c99.h.
abbrev pub nr_cond : ℕ
nr_cond = 63

unfoldable pub set_level : ℕ → Level → State → ℕ → Level
set_level n l s i = if n == i then l else s.ifstate i

unfoldable pub is_on : ℤ → Bool
is_on (pos zero) = true
is_on (pos (suc n)) = false
is_on (negsuc n) = false

-- The end of `ifclause`, from `disabled` on.
unfoldable pub enter : ℕ → Bool → State → State
unfolding set_level
enter n status s = record s {
  off = if status then s.off else s.off +ℤ pos 1;
  ifstate = set_level n (record { enabled = status; iselse = false }) s;
}

unfoldable pub decide : ℕ → Bool → Condition → State → Outcome
unfolding enter
decide n negate (holds b) s = done (enter n (if negate then not b else b) s)
decide n negate bad s = complained s

unfoldable pub ifclause : Bool → Condition → State → Outcome
unfolding decide enter is_on
ifclause negate c s =
    let inner = record s { ctx = s.ctx + 1 } in
    if s.ctx == nr_cond - 1
    then stopped
    else if is_on s.off
    then decide s.ctx negate c inner
    else done (enter s.ctx false inner)

unfoldable pub elseclause : State → State
unfolding set_level
elseclause s =
    let l = s.ifstate (s.ctx - 1) in
    record s {
      ifstate = set_level (s.ctx - 1) (record l { enabled = not l.enabled }) s;
      off = if l.enabled then s.off +ℤ pos 1 else s.off -ℤ pos 1;
    }

unfoldable pub misplaced : State → Bool
misplaced s = if s.ctx == 0 then true else (s.ifstate (s.ctx - 1)).iselse

unfoldable pub cppelse : State → Outcome
unfolding misplaced elseclause set_level
cppelse s =
    let marked = record (s.ifstate (s.ctx - 1)) { iselse = true } in
    if misplaced s
    then complained s
    else done (elseclause (record s { ifstate = set_level (s.ctx - 1) marked s }))

unfoldable pub elif : Condition → State → Outcome
unfolding misplaced elseclause ifclause
elif c s =
    let t = elseclause s in
    if misplaced s
    then complained s
    else if (t.ifstate (t.ctx - 1)).enabled
    then ifclause false c (record t { ctx = t.ctx - 1 })
    else done t

unfoldable pub endif : State → Outcome
endif s =
    let t = record s { ctx = s.ctx - 1 } in
    if s.ctx == 0
    then stopped
    else done (record t { off = if (s.ifstate t.ctx).enabled then s.off else s.off -ℤ pos 1 })

pub data Directive : Type 0 where
  cppif ifdef ifndef or_elif : Condition → Directive
  or_else end_if : Directive

unfoldable pub direct : Directive → State → Outcome
unfolding ifclause elif cppelse endif
direct (cppif c) s = ifclause false c s
direct (ifdef c) s = ifclause false c s
direct (ifndef c) s = ifclause true c s
direct (or_elif c) s = elif c s
direct or_else s = cppelse s
direct end_if s = endif s

-- A line of text, by a number, or a directive.
pub data Line : Type 0 where
  text : ℕ → Line
  directive : Directive → Line

abbrev pub with_line : Bool → ℕ → Option (List ℕ × State) → Option (List ℕ × State)
with_line b n none = none
with_line b n (some (kept, s)) = some (if b then n ∷ kept else kept, s)

abbrev pub onward : Outcome → (State → Option (List ℕ × State)) → Option (List ℕ × State)
onward (done s) go = go s
onward _ go = none

-- The lines that `cpp` lets through, and the state at the end; `none` where the compilation fails.
unfoldable pub run : List Line → State → Option (List ℕ × State)
unfolding direct is_on
run [] s = some ([], s)
run (text n ∷ ls) s = with_line (is_on s.off) n (run ls s)
run (directive d ∷ ls) s = onward (direct d s) (run ls)
