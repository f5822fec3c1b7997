-- ===== src/Judge/Service.antt =====
-- The gRPC service of modules/judge-engine/grpc/server.cpp and the command line of
-- modules/judge-engine/src/main.cpp. The messages are records of the fields that the code reads and
-- sets; whether a write of the stream succeeds is an argument.
pub mod Streaming
use lemuel_quant_core.Base.{
  ℕ, ◌+◌, ◌%◌, ◌^◌, Bool, true, false, Option, none, some, List, [], ◌∷◌, ◌++◌, map, ltb, ◌==◌,
  if◌then◌else◌, length,
}
use lemuel_quant_core.Base.Bytes.{Bytes, lit, is_empty, decimal}
use lemuel_quant_core.Judge.{
  SandboxLimits, default_limits, Verdict, is_accepted, to_string, TestCase, Submission, CaseResult,
  JudgeResult,
}
use lemuel_quant_core.Judge.Runner.{JudgeOs, judge}

pub data PbVerdict : Type 0 where
  unknown ac wa tle mle ole re ce ie : PbVerdict

unfoldable pub to_pb : Verdict → PbVerdict
to_pb Verdict.accepted = ac
to_pb Verdict.wrong_answer = wa
to_pb Verdict.time_limit_exceeded = tle
to_pb Verdict.memory_limit_exceeded = mle
to_pb Verdict.output_limit_exceeded = ole
to_pb Verdict.runtime_error = re
to_pb Verdict.compile_error = ce
to_pb Verdict.internal_error = ie

pub record Limits : Type 0 where
  pub wall_time_ms : ℕ
  pub cpu_time_ms : ℕ
  pub memory_bytes : ℕ
  pub output_bytes : ℕ

pub record SubmitRequest : Type 0 where
  pub language : Bytes
  pub source : Bytes
  pub limits : Option Limits
  pub cases : List TestCase

-- `if (field) limit = field;`
abbrev or_default : ℕ → ℕ → ℕ
or_default sent kept = if sent == 0 then kept else sent

unfoldable pub limits_from_pb : Option Limits → SandboxLimits
limits_from_pb none = default_limits
limits_from_pb (some l) = record default_limits {
  wall_time = or_default l.wall_time_ms default_limits.wall_time;
  cpu_time = or_default l.cpu_time_ms default_limits.cpu_time;
  memory_bytes = or_default l.memory_bytes default_limits.memory_bytes;
  output_bytes = or_default l.output_bytes default_limits.output_bytes;
}

unfoldable pub from_pb : SubmitRequest → Submission
from_pb req = record {
  source = req.source;
  language = if is_empty req.language then lit "cpp" else req.language;
  limits = limits_from_pb req.limits;
  cases = req.cases;
}

pub record PbCaseResult : Type 0 where
  pub verdict : PbVerdict
  pub wall_time_ms : ℕ
  pub memory_bytes : ℕ
  pub actual_output : Bytes

abbrev pub uint32 : ℕ → ℕ
uint32 n = n % 2 ^ 32

unfoldable pub fill_case : CaseResult → PbCaseResult
fill_case c = record {
  verdict = to_pb c.verdict;
  wall_time_ms = uint32 c.wall_time_used;
  memory_bytes = c.memory_used;
  actual_output = c.actual_output;
}

pub record SubmitResponse : Type 0 where
  pub overall : PbVerdict
  pub cases : List PbCaseResult
  pub compile_log : Bytes

unfoldable pub submit : JudgeOs → SubmitRequest → SubmitResponse
submit os req =
    let r = (judge os (from_pb req)).0 in
    record {
      overall = to_pb r.overall;
      cases = map fill_case r.per_case;
      compile_log = r.compile_log;
    }

pub record CaseUpdate : Type 0 where
  pub case_index : ℕ
  pub result : PbCaseResult
  pub is_last : Bool

-- The loop of `Stream` from the i-th of n results on: the updates handed to the writer, which stops
-- the loop where it fails.
unfoldable pub stream_from : (CaseUpdate → Bool) → ℕ → ℕ → List CaseResult → List CaseUpdate
stream_from write n i [] = []
stream_from write n i (c ∷ cases) =
    let u : CaseUpdate = record {
      case_index = uint32 i;
      result = fill_case c;
      is_last = i + 1 == n;
    } in
    let rest = stream_from write n (i + 1) cases in if write u then u ∷ rest else u ∷ []

unfoldable pub stream : (CaseUpdate → Bool) → JudgeOs → SubmitRequest → List CaseUpdate
stream write os req =
    let r = (judge os (from_pb req)).0 in stream_from write (length r.per_case) 0 r.per_case

-- The lines that `main` prints for the cases.
abbrev print_cases : ℕ → List CaseResult → Bytes
print_cases i [] = []
print_cases i (cr ∷ cases) =
    lit "case["
    ++ decimal i
    ++ lit "]: "
    ++ to_string cr.verdict
    ++ lit "  time="
    ++ decimal cr.wall_time_used
    ++ lit "ms\n"
    ++ print_cases (i + 1) cases

abbrev is_compile_error : Verdict → Bool
is_compile_error Verdict.compile_error = true
is_compile_error _ = false

-- The submission of the command line: two files make its only case.
abbrev pub cli_submission : Bytes → TestCase → Submission
cli_submission source tc = record {
  source = source;
  language = lit "cpp";
  limits = default_limits;
  cases = tc ∷ [];
}

-- `main` behind the reading of the files: what it prints and the exit status. With fewer
-- than three arguments the status is 2.
unfoldable pub cli_main : ℕ → JudgeOs → Bytes → TestCase → Bytes × ℕ
cli_main argc os source tc =
    let result = (judge os (cli_submission source tc)).0 in
    let head = lit "verdict: " ++ to_string result.overall ++ lit "\n" in
    if ltb argc 4
    then ([], 2)
    else if is_compile_error result.overall
    then (head ++ lit "compile_log:\n" ++ result.compile_log, 1)
    else (head ++ print_cases 0 result.per_case, if is_accepted result.overall then 0 else 1)
