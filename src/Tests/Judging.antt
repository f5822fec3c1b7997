-- ===== src/Tests/Judging.antt =====
-- The judge at work on two cases, and the answers of a system that carries out everything.
use lemuel_quant_core.Base.{
  ℕ, ◌≡◌, ◌↔◌, inr, ◌≢◌, refl, true, false, none, List, [], ◌∷◌, ◌++◌, All,
}
use lemuel_quant_core.Base.Bytes.{Bytes, lit}
use lemuel_quant_core.Judge.{default_limits, Verdict, TestCase, Submission}
use lemuel_quant_core.Judge.Sandbox.{Status, Os, Fd, read_loop, run_linux}
use lemuel_quant_core.Judge.Sandbox.Verdicts.{IsClean, run_linux-accepted_iff}
use lemuel_quant_core.Judge.Sandbox.Descriptors
use lemuel_quant_core.Judge.Sandbox.Descriptors.{
  run_linux-closes, run_linux_leak, opens, closes, forks, waits,
}
use lemuel_quant_core.Judge.Runner.Token.{make_run_id_inj}
use lemuel_quant_core.Judge.Linux.{Seccomp}
use lemuel_quant_core.Judge.Runner.{
  normalize, drop_cr, CompileOs, JudgeOs, judge, compile_via_execv, judge_cases, pop_blanks,
}
use lemuel_quant_core.Judge.Runner.Text.{Blank, NotCr, LastNotBlank, normalize_lem, LessCr}
use lemuel_quant_core.Judge.Runner.Overall.{
  IsCompiled, AllPass, results, first_failure, judge-accepted_iff, judge_compiled, judge_uncompiled,
  runs_in,
}

-- A run that writes "4", a carriage return and a line feed in two chunks within 5 ms.
abbrev run_os : Os
run_os = record {
  in_pipe_made = true;
  out_pipe_made = true;
  cgroup_leaf = none;
  forked = true;
  chunks = lit "4" ∷ lit "\r\n" ∷ [];
  status = Status.exited 0;
  start = 1_000_000;
  stop = 6_500_000;
}

abbrev compiler_os : ℕ → CompileOs
compiler_os code = record {
  pipe_made = true;
  forked = true;
  chunks = lit "warning" ∷ [];
  status = Status.exited code;
}

abbrev judge_os : ℕ → JudgeOs
judge_os code = record { dir_made = true; compile = compiler_os code; runs = λ n. run_os }

abbrev two_cases : List TestCase
two_cases =
    record { input = lit "2 2"; expected_output = lit "4\n" }
    ∷ record { input = lit "2 3"; expected_output = lit "5\n" }
    ∷ []

abbrev submission : Submission
submission = record {
  source = lit "int main(){}";
  language = lit "cpp";
  limits = default_limits;
  cases = two_cases;
}

compiled : IsCompiled (judge_os 0)
compiled = record { dir_made = refl; pipe_made = refl; forked = refl; exit_zero = refl }

failed : Status.exited 1 ≢ Status.exited 0
failed e = cc

judge-accepted_iff_example :
    ((judge (judge_os 0) submission).0.overall ≡ Verdict.accepted)
    ↔ (IsCompiled (judge_os 0) × AllPass default_limits (judge_os 0).runs 0 two_cases)
judge-accepted_iff_example = judge-accepted_iff (judge_os 0) submission

judge_compiled_example :
    ((judge (judge_os 0) submission).0.overall
      ≡ first_failure (results default_limits (judge_os 0).runs 0 two_cases))
    × ((judge (judge_os 0) submission).0.per_case
        ≡ results default_limits (judge_os 0).runs 0 two_cases)
judge_compiled_example = judge_compiled (judge_os 0) submission compiled

-- The second case is answered wrongly.
overall_wrong : (judge (judge_os 0) submission).0.overall ≡ Verdict.wrong_answer
unfolding judge compile_via_execv judge_cases run_linux read_loop normalize pop_blanks drop_cr
overall_wrong = refl

judge_uncompiled_example :
    ((judge (judge_os 1) submission).0.per_case ≡ [])
    × (runs_in (judge (judge_os 1) submission).1 ≡ 0)
    × ((judge (judge_os 1) submission).0.overall ≡ Verdict.compile_error)
    × ((judge (judge_os 1) submission).0.compile_log ≡ lit "warning")
judge_uncompiled_example = judge_uncompiled (judge_os 1) submission (inr failed)

run_linux-accepted_iff_example :
    ((run_linux default_limits (lit "2 2") run_os).0.verdict ≡ Verdict.accepted)
    ↔ IsClean default_limits run_os
run_linux-accepted_iff_example = run_linux-accepted_iff default_limits (lit "2 2") run_os

-- A library that adds every rule and loads the filter.
abbrev library : Seccomp
library = record { disabled = false; init_made = true; added = λ r. true; loaded = true }

run_linux-closes_example :
    (Descriptors.tally (opens Fd.out_read) (run_linux default_limits (lit "2 2") run_os).1 ≡ 1)
    × (Descriptors.tally (closes Fd.out_read) (run_linux default_limits (lit "2 2") run_os).1 ≡ 1)
    × (Descriptors.tally forks (run_linux default_limits (lit "2 2") run_os).1 ≡ 1)
    × (Descriptors.tally waits (run_linux default_limits (lit "2 2") run_os).1 ≡ 1)
run_linux-closes_example = run_linux-closes default_limits (lit "2 2") run_os Fd.out_read refl

normalize_lem_example :
    (b : Bytes) × LessCr (lit "a \r\n") (normalize (lit "a \r\n") ++ b)
    × All Blank b
    × All NotCr (normalize (lit "a \r\n"))
    × LastNotBlank (normalize (lit "a \r\n"))
normalize_lem_example = normalize_lem (lit "a \r\n")

abbrev process_id : ℕ
process_id = 4660

abbrev sequence : ℕ
sequence = 15

make_run_id_inj_example :
    (process_id ≡ process_id) × (sequence ≡ sequence) × (process_id ≡ process_id)
make_run_id_inj_example =
    make_run_id_inj process_id sequence process_id process_id sequence process_id refl
