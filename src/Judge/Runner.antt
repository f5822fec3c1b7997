-- ===== src/Judge/Runner.antt =====
-- `Runner::judge` and what it calls (modules/judge-engine/src/runner.cpp).
pub mod Text
pub mod Overall
pub mod Token
use lemuel_quant_core.Base.{
  ℕ, ◌+◌, Bool, true, false, not, ◌&&◌, ◌||◌, List, [], ◌∷◌, ◌++◌, reverse, ◌==◌, if◌then◌else◌,
}
use lemuel_quant_core.Base.Bytes.{Bytes, bytes_eq}
use lemuel_quant_core.Base.Int.{ℤ, pos}
use lemuel_quant_core.Judge.{
  SandboxLimits, Verdict, is_accepted, ExecutionResult, TestCase, Submission, CaseResult,
  JudgeResult,
}
use lemuel_quant_core.Judge.Sandbox.{Os, Status, exit_code_of, run_linux}

-- The first loop of `normalize`: every byte but the carriage returns.
unfoldable pub drop_cr : Bytes → Bytes
drop_cr [] = []
drop_cr (c ∷ s) = if c == 0x0D then drop_cr s else c ∷ drop_cr s

abbrev pub is_blank : ℕ → Bool
is_blank c = c == 0x0A || c == 0x20

-- The second loop, over the string with its back first: `pop_back` while the back is blank.
unfoldable pub pop_blanks : Bytes → Bytes
pop_blanks [] = []
pop_blanks (c ∷ s) = let rest = pop_blanks s in if is_blank c then rest else c ∷ s

unfoldable pub normalize : Bytes → Bytes
normalize s = reverse (pop_blanks (reverse (drop_cr s)))

pub record CompileOutcome : Type 0 where
  pub exit_code : ℤ
  pub log : Bytes
  pub spawned : Bool

-- What the system answers while the compiler runs.
pub record CompileOs : Type 0 where
  pub pipe_made : Bool
  pub forked : Bool
  pub chunks : List Bytes
  pub status : Status

abbrev pub append_all : Bytes → List Bytes → Bytes
append_all log [] = log
append_all log (chunk ∷ chunks) = append_all (log ++ chunk) chunks

unfoldable pub compile_via_execv : CompileOs → CompileOutcome
compile_via_execv os =
    if not os.pipe_made || not os.forked
    then record { exit_code = pos 0; log = []; spawned = false }
    else record {
      exit_code = exit_code_of os.status;
      log = append_all [] os.chunks;
      spawned = true;
    }

-- What the system answers to one call of `judge`: is the directory there, the compiler's run, and
-- the run of the n-th case.
pub record JudgeOs : Type 0 where
  pub dir_made : Bool
  pub compile : CompileOs
  pub runs : ℕ → Os

-- What `judge` does to its directory and its children. The directory goes when `cleanup` leaves its
-- scope, on every path behind its declaration.
pub data Effect : Type 0 where
  create_dir remove_dir spawn_compiler : Effect
  write_source : Bytes → Effect
  run_case : Bytes → Effect

abbrev pub checked_verdict : Verdict → Bytes → Bytes → Verdict
checked_verdict v actual expected =
    if is_accepted v && not (bytes_eq (normalize actual) (normalize expected))
    then Verdict.wrong_answer
    else v

-- The body of the loop over the cases.
abbrev pub judge_case : SandboxLimits → Os → TestCase → CaseResult
judge_case limits os tc =
    let exec = (run_linux limits tc.input os).0 in
    record {
      verdict = checked_verdict exec.verdict exec.stdout_data tc.expected_output;
      wall_time_used = exec.wall_time_used;
      memory_used = exec.memory_used;
      actual_output = exec.stdout_data;
    }

-- `if (cr.verdict != Accepted && overall == Accepted) overall = cr.verdict;`
abbrev pub update_overall : Verdict → Verdict → Verdict
update_overall overall v = if not (is_accepted v) && is_accepted overall then v else overall

-- The loop: the number of the case, the overall verdict so far and the results so far.
unfoldable pub judge_cases :
    SandboxLimits
    → (ℕ → Os)
    → ℕ
    → List TestCase
    → Verdict
    → List CaseResult
    → Verdict × List CaseResult
judge_cases limits runs i [] overall done = (overall, done)
judge_cases limits runs i (tc ∷ cases) overall done =
    let cr = judge_case limits (runs i) tc in
    judge_cases limits runs (i + 1) cases (update_overall overall cr.verdict) (done ++ cr ∷ [])

abbrev pub case_effects : List TestCase → List Effect
case_effects [] = Effect.remove_dir ∷ []
case_effects (tc ∷ cases) = Effect.run_case tc.input ∷ case_effects cases

abbrev is_zero : ℤ → Bool
is_zero (pos n) = n == 0
is_zero _ = false

abbrev stopped : Verdict → Bytes → JudgeResult
stopped v log = record { overall = v; per_case = []; compile_log = log }

unfoldable pub judge : JudgeOs → Submission → JudgeResult × List Effect
judge os submission =
    let compile = compile_via_execv os.compile in
    let opening : List Effect =
      Effect.create_dir ∷ Effect.write_source submission.source ∷ Effect.spawn_compiler ∷ [] in
    let (overall, per_case) =
      judge_cases submission.limits os.runs 0 submission.cases Verdict.accepted [] in
    if not os.dir_made
    then (stopped Verdict.internal_error [], Effect.create_dir ∷ [])
    else if not compile.spawned
    then (stopped Verdict.internal_error compile.log, opening ++ (Effect.remove_dir ∷ []))
    else if not (is_zero compile.exit_code)
    then (stopped Verdict.compile_error compile.log, opening ++ (Effect.remove_dir ∷ []))
    else (
      record { overall = overall; per_case = per_case; compile_log = compile.log },
      opening ++ case_effects submission.cases,
    )
