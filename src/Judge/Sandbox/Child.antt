-- ===== src/Judge/Sandbox/Child.antt =====
-- The child side of the fork in `Sandbox::run` (modules/judge-engine/src/sandbox.cpp), in both builds, and
-- in `compile_via_execv` (modules/judge-engine/src/runner.cpp): its table of descriptors, and what it does
-- before the program runs. A table is a function from the number to the pipe end of this run that is open there, if one is.
use lemuel_quant_core.Base.{
  ℕ, ◌<◌, ◌≡◌, ◌≢◌, Bool, ◌==◌, if◌then◌else◌, Option, none, some, List, [], ◌∷◌, arith,
}
use lemuel_quant_core.Judge.{SandboxLimits}
use lemuel_quant_core.Judge.Linux.{
  Rlimit, FilterOp, Seccomp, apply_rlimits, install_seccomp_whitelist,
}
use lemuel_quant_core.Judge.Sandbox.{Fd, in_read, in_write, out_read, out_write}

abbrev pub Table : Type 0
Table = ℕ → Option Fd

abbrev pub dup2 : ℕ → ℕ → Table → Table
dup2 a b table n = if n == b then table a else table n

abbrev close_fd : ℕ → Table → Table
close_fd a table n = if n == a then none else table n

-- The numbers of `in_pipe` and of `out_pipe`.
pub record Pipes : Type 0 where
  pub in0 : ℕ
  pub in1 : ℕ
  pub out0 : ℕ
  pub out1 : ℕ

-- The two calls of `pipe` in a table.
abbrev pub opened : Pipes → Table → Table
opened p table n =
    if n == p.in0
    then some in_read
    else if n == p.in1
    then some in_write
    else if n == p.out0
    then some out_read
    else if n == p.out1
    then some out_write
    else table n

-- The calls of `dup2` and `close`, which both builds share.
unfoldable redirect : Pipes → Table → Table
redirect p table =
    close_fd p.out0 (close_fd p.in1 (dup2 p.out1 2 (dup2 p.out1 1 (dup2 p.in0 0 table))))

-- The child of `compile_via_execv`, with the numbers of `pipefd`.
unfoldable redirect_compiler : ℕ → ℕ → Table → Table
redirect_compiler read_end write_end table =
    close_fd write_end (close_fd read_end (dup2 write_end 2 (dup2 write_end 1 table)))

-- The steps of the child behind the descriptors; the result of the seccomp call is not asked for.
pub data Step : Type 0 where
  limit_resources : List Rlimit → Step
  install_filter : List FilterOp → Step
  execute exit_127 : Step

-- `is_executed`: does `execv` replace the process?
abbrev end_of : Bool → List Step
end_of is_executed = if is_executed then execute ∷ [] else execute ∷ exit_127 ∷ []

unfoldable child_linux : SandboxLimits → Seccomp → Bool → List Step
unfolding apply_rlimits install_seccomp_whitelist
child_linux limits lib is_executed =
    limit_resources
      (apply_rlimits limits.cpu_time limits.memory_bytes limits.output_bytes limits.stack_bytes)
    ∷ install_filter (install_seccomp_whitelist lib).1
    ∷ end_of is_executed

unfoldable child_portable : Bool → List Step
child_portable is_executed = end_of is_executed

-- The numbers of the pipe ends are different, and none is that of a standard stream.
abbrev pub IsApart : Pipes → Type 0
IsApart p =
    (2 < p.in0)
    × (2 < p.in1)
    × (2 < p.out0)
    × (2 < p.out1)
    × (p.in0 ≢ p.in1)
    × (p.in0 ≢ p.out0)
    × (p.in0 ≢ p.out1)
    × (p.in1 ≢ p.out0)
    × (p.in1 ≢ p.out1)
    × (p.out0 ≢ p.out1)

-- If the numbers of the four pipe ends are different and above those of the standard streams, and no
-- pipe end of this run was open before: behind the redirection the input is the reading end of the one
-- pipe, output and errors are the writing end of the other, and no number holds the writing end of the
-- first or the reading end of the second, which are the ends of the parent.
redirect_lem :
    (p : Pipes) (table : Table)
    → IsApart p
    → ((n : ℕ) → table n ≡ none)
    → let after = redirect p (opened p table) in
      (after 0 ≡ some in_read)
      × (after 1 ≡ some out_write)
      × (after 2 ≡ some out_write)
      × ((n : ℕ) → after n ≢ some in_write)
      × ((n : ℕ) → after n ≢ some out_read)
unfolding redirect
redirect_lem p table a empty = (
  ground arith,
  ground arith,
  ground arith,
  λ n e. ground (arith, empty n),
  λ n e. ground (arith, empty n),
)
