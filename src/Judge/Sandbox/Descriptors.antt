-- ===== src/Judge/Sandbox/Descriptors.antt =====
-- The pipe ends and the child that `Sandbox::run` (modules/judge-engine/src/sandbox.cpp) is left
-- with, read off the actions of the parent process.
use lemuel_quant_core.Base.{ℕ, ◌+◌, ◌≡◌, Bool, true, false, List, [], ◌∷◌, arith, if◌then◌else◌}
use lemuel_quant_core.Base.Bytes.{Bytes}
use lemuel_quant_core.Judge.{SandboxLimits}
use lemuel_quant_core.Judge.Sandbox.{Os, Fd, Action, run_linux}
use lemuel_quant_core.Judge.Sandbox.Verdicts.{is_started}

-- How many actions pass a test.
abbrev pub tally : (Action → Bool) → List Action → ℕ
tally p [] = 0
tally p (a ∷ l) = (if p a then 1 else 0) + tally p l

abbrev same_fd : Fd → Fd → Bool
same_fd Fd.in_read Fd.in_read = true
same_fd Fd.in_write Fd.in_write = true
same_fd Fd.out_read Fd.out_read = true
same_fd Fd.out_write Fd.out_write = true
same_fd _ _ = false

abbrev pub closes : Fd → Action → Bool
closes fd (Action.close e) = same_fd fd e
closes fd _ = false

abbrev pub waits : Action → Bool
waits Action.wait_child = true
waits _ = false

abbrev pub forks : Action → Bool
forks Action.fork_child = true
forks _ = false

-- The pipe ends of one parent that stay open: opened by `pipe`, less those that it closes.
abbrev pub opens : Fd → Action → Bool
opens Fd.in_read Action.pipe_in = true
opens Fd.in_write Action.pipe_in = true
opens Fd.out_read Action.pipe_out = true
opens Fd.out_write Action.pipe_out = true
opens _ _ = false

module _ (limits : SandboxLimits) (input : Bytes) (os : Os) where
  -- On Linux, in a run in which the child is started and the parent's write to it returns, the parent opens
  -- and closes each end of each pipe once, and forks and waits once, whatever the child writes and however
  -- it ends: no descriptor and no zombie is left.
  pub run_linux-closes :
      (fd : Fd)
      → is_started os ≡ true
      → (tally (opens fd) (run_linux limits input os).1 ≡ 1)
        × (tally (closes fd) (run_linux limits input os).1 ≡ 1)
        × (tally forks (run_linux limits input os).1 ≡ 1)
        × (tally waits (run_linux limits input os).1 ≡ 1)
  unfolding run_linux
  run_linux-closes Fd.in_read h = ground arith
  run_linux-closes Fd.in_write h = ground arith
  run_linux-closes Fd.out_read h = ground arith
  run_linux-closes Fd.out_write h = ground arith

  -- On Linux, if the pipes are made and the fork fails, the parent closes none of the pipe ends that it
  -- opened: all four are leaked.
  pub run_linux_leak :
      (fd : Fd)
      → os.in_pipe_made ≡ true
      → os.out_pipe_made ≡ true
      → os.forked ≡ false
      → (tally (opens fd) (run_linux limits input os).1 ≡ 1)
        × (tally (closes fd) (run_linux limits input os).1 ≡ 0)
  unfolding run_linux
  run_linux_leak Fd.in_read h k f = ground arith
  run_linux_leak Fd.in_write h k f = ground arith
  run_linux_leak Fd.out_read h k f = ground arith
  run_linux_leak Fd.out_write h k f = ground arith
