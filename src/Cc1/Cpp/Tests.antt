-- ===== src/Cc1/Cpp/Tests.antt =====
-- Runs of the conditional directives of cpp.c, and the theorems about them at concrete lines.
use simple_scc.Common.{ℕ, ◌≡◌, refl, arith, true, false, List, [], ◌∷◌, Option, none, some, ◌==◌}
use simple_scc.Common.Int.{pos, ◌+ℤ◌, ◌-ℤ◌}
use simple_scc.Cc1.Cpp.{State, holds, bad, cppif, or_else, end_if, text, directive, run}
use simple_scc.Cc1.Cpp.Levels.{Same}
use simple_scc.Cc1.Cpp.Groups.{
  if_true, if_defined, if_undefined, Group, end, line, block, block_else, flatten, keep, before,
  run-flatten,
}
use simple_scc.Cc1.Cpp.Elif.{chain, kept, run-chain}

abbrev at_start : State
at_start = record {
  ifstate = λ n. record { enabled = false; iselse = false };
  ctx = 0;
  off = pos 0;
}

abbrev nested_groups : Group
nested_groups = line 1 (
    block_else (if_defined true) (line 2 (block (if_undefined true) (line 3 end) (line 4 end)))
      (block (if_true true) (line 5 end) end) (line 6 end))

abbrev kept_lines : Option (List ℕ × State) → List ℕ
kept_lines none = []
kept_lines (some (ks, s)) = ks

nested_run : kept_lines (run (flatten nested_groups []) at_start) ≡ 1 ∷ 2 ∷ 4 ∷ 6 ∷ []
unfolding run ◌+ℤ◌ ◌-ℤ◌
nested_run = refl

-- An #else with no #if, and a second #else.
no_if : run (directive or_else ∷ []) at_start ≡ none
unfolding run ◌+ℤ◌ ◌-ℤ◌
no_if = refl

second_else :
    run
      (directive (cppif (holds true))
        ∷ directive or_else
        ∷ directive or_else
        ∷ directive end_if
        ∷ [])
      at_start
    ≡ none
unfolding run ◌+ℤ◌ ◌-ℤ◌
second_else = refl

bad_condition : run (directive (cppif bad) ∷ directive end_if ∷ []) at_start ≡ none
unfolding run ◌+ℤ◌ ◌-ℤ◌
bad_condition = refl

elif_else :
    kept_lines (run (chain (if_true true) true (line 1 end) (line 2 end) (line 3 end) []) at_start)
    ≡ 1 ∷ 3 ∷ []
unfolding run ◌+ℤ◌ ◌-ℤ◌
elif_else = refl

run-flatten_example :
    (s' : State) × Same at_start s'
    × (run (flatten nested_groups (text 7 ∷ [])) at_start
        ≡ before (keep (0 == 0) nested_groups) (run (text 7 ∷ []) s'))
run-flatten_example = run-flatten nested_groups (text 7 ∷ []) at_start 0 refl (omega arith)

run-chain_example :
    (s' : State) × Same at_start s'
    × (run (chain (if_true true) true (line 1 end) (line 2 end) (line 3 end) (text 7 ∷ [])) at_start
        ≡ before
            (kept (0 == 0) (if_true true) true (line 1 end) (line 2 end) (line 3 end))
            (run (text 7 ∷ []) s'))
run-chain_example =
    run-chain (if_true true) true (line 1 end) (line 2 end) (line 3 end) (text 7 ∷ []) at_start 0
      refl (omega arith)
