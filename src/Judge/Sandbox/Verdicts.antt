-- ===== src/Judge/Sandbox/Verdicts.antt =====
-- When `Sandbox::run` (modules/judge-engine/src/sandbox.cpp) gives which verdict.
use lemuel_quant_core.Base.{◌≤◌, ◌≡◌, ◌↔◌, true, Bool, ◌&&◌, arith, ltb, length, ℕ, if◌then◌else◌}
use lemuel_quant_core.Base.Bytes.{Bytes}
use lemuel_quant_core.Judge.{SandboxLimits, Verdict, ExecutionResult, fresh_result}
use lemuel_quant_core.Judge.Sandbox.{
  Status, Os, run_linux, run_portable, wall_of, classify_linux, classify_portable, finished,
}
use lemuel_quant_core.Judge.Sandbox.Capture.{concat, read_loop-eq-within}

abbrev pub is_started : Os → Bool
is_started os = os.in_pipe_made && os.out_pipe_made && os.forked

-- The result of a run, from the whole output of the child at once.
abbrev outcome : (SandboxLimits → Status → ℕ → Verdict) → SandboxLimits → Os → ExecutionResult
outcome classify limits os =
    if is_started os
    then if ltb limits.output_bytes (length (concat os.chunks))
      then record fresh_result { verdict = Verdict.output_limit_exceeded }
      else finished classify limits os (concat os.chunks)
    else fresh_result

-- A clean run: started, all output within the limit, exit code 0, and in time.
pub record IsClean (limits : SandboxLimits) (os : Os) : Type 0 where
  pub started : is_started os ≡ true
  pub fits : length (concat os.chunks) ≤ limits.output_bytes
  pub exit_zero : os.status ≡ Status.exited 0
  pub in_time : wall_of os ≤ limits.wall_time

module _ (limits : SandboxLimits) (input : Bytes) (os : Os) where
  -- On Linux, the result of a run is a function of the whole output of the child, its status and
  -- the clock: it does not depend on how the reads cut the output, nor on the input.
  pub run_linux-eq-outcome : (run_linux limits input os).0 ≡ outcome classify_linux limits os
  unfolding run_linux
  run_linux-eq-outcome = ground (arith, read_loop-eq-within limits.output_bytes os.chunks)

  run_portable-eq-outcome : (run_portable limits input os).0 ≡ outcome classify_portable limits os
  unfolding run_portable
  run_portable-eq-outcome = ground (arith, read_loop-eq-within limits.output_bytes os.chunks)

  -- The two branches of the code give the same result for a child that no signal ended.
  run_linux-eq-run_portable :
      (n : ℕ)
      → os.status ≡ Status.exited n
      → (run_linux limits input os).0 ≡ (run_portable limits input os).0
  run_linux-eq-run_portable n h = rw (run_linux-eq-outcome, run_portable-eq-outcome) (ground arith)

  IsClean-of_accepted :
      (outcome classify_linux limits os).verdict ≡ Verdict.accepted → IsClean limits os
  IsClean-of_accepted h = grind arith

  accepted_of_clean :
      IsClean limits os → (outcome classify_linux limits os).verdict ≡ Verdict.accepted
  accepted_of_clean h = ground arith

  -- On Linux a run is accepted exactly if the child was started, its whole output fits the limit,
  -- it exited with code 0, and the wall time is within the limit.
  pub run_linux-accepted_iff :
      ((run_linux limits input os).0.verdict ≡ Verdict.accepted) ↔ IsClean limits os
  run_linux-accepted_iff = (
    λ h. IsClean-of_accepted (rw run_linux-eq-outcome at h),
    λ h. rw run_linux-eq-outcome (accepted_of_clean h),
  )

  -- Whatever the child writes, a run hands on no more bytes of output than the limit.
  run_linux_output_bound : length (run_linux limits input os).0.stdout_data ≤ limits.output_bytes
  run_linux_output_bound = rw run_linux-eq-outcome (ground arith)
