-- ===== src/Judge.antt =====
-- The judge engine's data: modules/judge-engine/include/judge/sandbox.hpp and runner.hpp.
-- Times are whole milliseconds, sizes are numbers of bytes, text is a list of bytes.
pub mod Sandbox
pub mod Linux
pub mod Runner
pub mod Service
use lemuel_quant_core.Base.{ℕ, ◌*◌, Bool, true, false, List, []}
use lemuel_quant_core.Base.Bytes.{Bytes, lit}
use lemuel_quant_core.Base.Int.{ℤ, pos}

pub record SandboxLimits : Type 0 where
  pub wall_time : ℕ
  pub cpu_time : ℕ
  pub memory_bytes : ℕ
  pub output_bytes : ℕ
  pub stack_bytes : ℕ

abbrev pub default_limits : SandboxLimits
default_limits = record {
  wall_time = 2000;
  cpu_time = 1000;
  memory_bytes = 256 * 1024 * 1024;
  output_bytes = 64 * 1024;
  stack_bytes = 64 * 1024 * 1024;
}

pub data Verdict : Type 0 where
  accepted wrong_answer time_limit_exceeded memory_limit_exceeded : Verdict
  output_limit_exceeded runtime_error compile_error internal_error : Verdict

abbrev pub is_accepted : Verdict → Bool
is_accepted Verdict.accepted = true
is_accepted _ = false

-- `to_string(Verdict)`; the switch covers every value.
unfoldable pub to_string : Verdict → Bytes
to_string Verdict.accepted = lit "AC"
to_string Verdict.wrong_answer = lit "WA"
to_string Verdict.time_limit_exceeded = lit "TLE"
to_string Verdict.memory_limit_exceeded = lit "MLE"
to_string Verdict.output_limit_exceeded = lit "OLE"
to_string Verdict.runtime_error = lit "RE"
to_string Verdict.compile_error = lit "CE"
to_string Verdict.internal_error = lit "IE"

pub record ExecutionResult : Type 0 where
  pub verdict : Verdict
  pub wall_time_used : ℕ
  pub cpu_time_used : ℕ
  pub memory_used : ℕ
  pub exit_code : ℤ
  pub stdout_data : Bytes
  pub stderr_data : Bytes

-- `ExecutionResult result;`
abbrev pub fresh_result : ExecutionResult
fresh_result = record {
  verdict = Verdict.internal_error;
  wall_time_used = 0;
  cpu_time_used = 0;
  memory_used = 0;
  exit_code = pos 0;
  stdout_data = [];
  stderr_data = [];
}

pub record TestCase : Type 0 where
  pub input : Bytes
  pub expected_output : Bytes

pub record Submission : Type 0 where
  pub source : Bytes
  pub language : Bytes
  pub limits : SandboxLimits
  pub cases : List TestCase

pub record CaseResult : Type 0 where
  pub verdict : Verdict
  pub wall_time_used : ℕ
  pub memory_used : ℕ
  pub actual_output : Bytes

pub record JudgeResult : Type 0 where
  pub overall : Verdict
  pub per_case : List CaseResult
  pub compile_log : Bytes
