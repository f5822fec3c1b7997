-- ===== src/Judge/Sandbox.antt =====
-- `Sandbox::run` (modules/judge-engine/src/sandbox.cpp), the Linux branch and the other one.
-- What the operating system answers is the argument `Os`; what the parent process asks of it is the
-- list of actions that a run returns beside its result. These are the runs in which the parent's `write`
-- to the child returns: it can also block for ever or end the process with SIGPIPE, where the child does
-- not read its input. When it returns is the matter of Pipes.
pub mod Capture
pub mod Verdicts
pub mod Descriptors
pub mod Child
pub mod Pipes
use lemuel_quant_core.Base.{
  ℕ, ◌/◌, ◌-◌, Bool, true, false, not, ◌&&◌, ◌||◌, Option, none, some, List, [], ◌∷◌, ◌++◌, ltb,
  ◌==◌, if◌then◌else◌, length,
}
use lemuel_quant_core.Base.Bytes.{Bytes, is_empty}
use lemuel_quant_core.Base.Int.{ℤ, pos, negsuc}
use lemuel_quant_core.Judge.{SandboxLimits, Verdict, ExecutionResult, fresh_result}

-- What `waitpid` stores: the exit code of a process, or the signal that ended it.
pub data Status : Type 0 where
  exited : ℕ → Status
  signaled : ℕ → Status

pub record Os : Type 0 where
  -- do the two calls of `pipe` succeed?
  pub in_pipe_made : Bool
  pub out_pipe_made : Bool
  -- the leaf that `create_cgroup` returns; `none` if it throws
  pub cgroup_leaf : Option Bytes
  -- does `fork` return a child?
  pub forked : Bool
  -- what the calls of `read` return until the first that returns no byte
  pub chunks : List Bytes
  pub status : Status
  -- the steady clock, in nanoseconds, before the fork and after the wait
  pub start : ℕ
  pub stop : ℕ

pub data Fd : Type 0 where
  in_read in_write out_read out_write : Fd

pub data Action : Type 0 where
  pipe_in pipe_out create_cgroup fork_child attach_pid : Action
  close : Fd → Action
  write_stdin : Bytes → Action
  kill_child wait_child : Action

-- The signal numbers of Linux.
abbrev sigbus : ℕ
sigbus = 7

abbrev sigfpe : ℕ
sigfpe = 8

abbrev sigkill : ℕ
sigkill = 9

abbrev sigsegv : ℕ
sigsegv = 11

abbrev sigxcpu : ℕ
sigxcpu = 24

-- The `while (read > 0)` loop: `none` if the captured bytes exceed the limit.
unfoldable pub read_loop : ℕ → List Bytes → Bytes → Option Bytes
read_loop limit [] captured = some captured
read_loop limit (chunk ∷ chunks) captured =
    let more = captured ++ chunk in
    let rest = read_loop limit chunks more in if ltb limit (length more) then none else rest

abbrev pub exit_code_of : Status → ℤ
exit_code_of (Status.exited n) = pos n
exit_code_of (Status.signaled s) = negsuc 0

abbrev is_zero : ℤ → Bool
is_zero (pos n) = n == 0
is_zero (negsuc n) = false

-- `else if (wall > limit) … else if (exit_code != 0) …`, which both branches share.
abbrev classify_exit : SandboxLimits → ℕ → ℤ → Verdict
classify_exit limits wall code =
    if ltb limits.wall_time wall
    then Verdict.time_limit_exceeded
    else if not (is_zero code)
    then Verdict.runtime_error
    else Verdict.accepted

abbrev pub classify_linux : SandboxLimits → Status → ℕ → Verdict
classify_linux limits (Status.signaled sig) wall =
    if sig == sigxcpu
    then Verdict.time_limit_exceeded
    else if sig == sigkill
    then Verdict.memory_limit_exceeded
    else if sig == sigsegv || sig == sigbus || sig == sigfpe
    then Verdict.runtime_error
    else Verdict.runtime_error
classify_linux limits (Status.exited n) wall = classify_exit limits wall (pos n)

abbrev pub classify_portable : SandboxLimits → Status → ℕ → Verdict
classify_portable limits (Status.signaled sig) wall = Verdict.runtime_error
classify_portable limits (Status.exited n) wall = classify_exit limits wall (pos n)

abbrev pub wall_of : Os → ℕ
wall_of os = (os.stop - os.start) / 1_000_000

-- The result of a run whose output fitted.
abbrev pub finished :
    (SandboxLimits → Status → ℕ → Verdict) → SandboxLimits → Os → Bytes → ExecutionResult
finished classify limits os captured = record fresh_result {
  verdict = classify limits os.status (wall_of os);
  wall_time_used = wall_of os;
  exit_code = exit_code_of os.status;
  stdout_data = captured;
}

-- `if (!stdin_data.empty()) write(…); close(in_pipe[1]);`
abbrev feed_stdin : Bytes → List Action
feed_stdin input =
    (if is_empty input then [] else Action.write_stdin input ∷ [])
    ++ (Action.close Fd.in_write ∷ [])

-- The parent after the fork, from the closing of the child's ends of the pipes on.
abbrev pub parent :
    (SandboxLimits → Status → ℕ → Verdict)
    → SandboxLimits
    → Bytes
    → Os
    → ExecutionResult × List Action
parent classify limits input os =
    let before : List Action =
      Action.close Fd.in_read ∷ Action.close Fd.out_write ∷ feed_stdin input in
    elim (read_loop limits.output_bytes os.chunks []) [
      | none ↦ (
        record fresh_result { verdict = Verdict.output_limit_exceeded },
        before ++ (Action.kill_child ∷ Action.close Fd.out_read ∷ Action.wait_child ∷ []),
      )
      | some captured ↦ (
        finished classify limits os captured,
        before ++ (Action.close Fd.out_read ∷ Action.wait_child ∷ []),
      )
    ]

-- `pipe(in_pipe) < 0 || pipe(out_pipe) < 0`: the actions, and whether to go on.
abbrev make_pipes : Os → List Action
make_pipes os =
    if os.in_pipe_made
    then Action.pipe_in ∷ (if os.out_pipe_made then Action.pipe_out ∷ [] else [])
    else []

abbrev attach : Option Bytes → List Action
attach none = []
attach (some leaf) = if is_empty leaf then [] else Action.attach_pid ∷ []

abbrev prefixed : List Action → ExecutionResult × List Action → ExecutionResult × List Action
prefixed before (result, actions) = (result, before ++ actions)

unfoldable pub run_linux : SandboxLimits → Bytes → Os → ExecutionResult × List Action
run_linux limits input os =
    if not os.in_pipe_made || not os.out_pipe_made
    then (fresh_result, make_pipes os)
    else if not os.forked
    then (fresh_result, make_pipes os ++ (Action.create_cgroup ∷ []))
    else prefixed
        (make_pipes os ++ (Action.create_cgroup ∷ Action.fork_child ∷ attach os.cgroup_leaf))
        (parent classify_linux limits input os)

unfoldable pub run_portable : SandboxLimits → Bytes → Os → ExecutionResult × List Action
run_portable limits input os =
    if not os.in_pipe_made || not os.out_pipe_made
    then (fresh_result, make_pipes os)
    else if not os.forked
    then (fresh_result, make_pipes os)
    else prefixed (make_pipes os ++ (Action.fork_child ∷ []))
        (parent classify_portable limits input os)
