-- ===== src/Judge/Linux.antt =====
-- The hardening primitives of modules/judge-engine/src/sandbox_linux.cpp: the cgroup leaf, the
-- resource limits, the seccomp filter and the chroot. The kernel's and libseccomp's answers are
-- arguments; what is asked of them is the list of operations that a call returns.
pub mod Laws
use lemuel_quant_core.Base.{
  ℕ, ◌+◌, ◌/◌, Bool, true, false, not, Option, none, some, List, [], ◌∷◌, ◌++◌, map, ltb,
  if◌then◌else◌,
}
use lemuel_quant_core.Base.Bytes.{Bytes, lit, is_empty, decimal}

pub record CgroupSpec : Type 0 where
  pub mount_point : Bytes
  pub slice : Bytes
  pub memory_max_bytes : ℕ
  pub cpu_quota_us : ℕ
  pub cpu_period_us : ℕ

abbrev default_spec : CgroupSpec
default_spec = record {
  mount_point = lit "/sys/fs/cgroup";
  slice = lit "lqc-judge";
  memory_max_bytes = 0;
  cpu_quota_us = 0;
  cpu_period_us = 100_000;
}

pub data FsOp : Type 0 where
  create_directories : Bytes → FsOp
  write_to : Bytes → Bytes → FsOp

-- `a / b` on paths.
abbrev pub slash : Bytes → Bytes → Bytes
slash a b = a ++ lit "/" ++ b

-- One file operation, which throws where the file system refuses it: `none`.
abbrev attempt : (FsOp → Bool) → FsOp → Option Bytes × List FsOp → Option Bytes × List FsOp
attempt fs op rest = elim (fs op) [ true ↦ (rest.0, op ∷ rest.1) | false ↦ (none, op ∷ []) ]

abbrev attempt_if :
    Bool → (FsOp → Bool) → FsOp → Option Bytes × List FsOp → Option Bytes × List FsOp
attempt_if b fs op rest = elim b [ true ↦ attempt fs op rest | false ↦ rest ]

abbrev cpu_max : CgroupSpec → Bytes
cpu_max spec = decimal spec.cpu_quota_us ++ lit " " ++ decimal spec.cpu_period_us

-- `none` is an exception. `fs` says which operations the file system carries out.
unfoldable pub create_cgroup : (FsOp → Bool) → CgroupSpec → Bytes → Option Bytes × List FsOp
create_cgroup fs spec run_id =
    let root = slash spec.mount_point spec.slice in
    let leaf = slash root run_id in
    attempt fs (FsOp.create_directories root) (
      attempt fs
        (FsOp.write_to (slash root (lit "cgroup.subtree_control")) (lit "+memory +cpu +pids"))
        (attempt fs (FsOp.create_directories leaf) (
          attempt_if (ltb 0 spec.memory_max_bytes) fs
            (FsOp.write_to (slash leaf (lit "memory.max")) (decimal spec.memory_max_bytes))
            (attempt_if (ltb 0 spec.cpu_quota_us) fs
              (FsOp.write_to (slash leaf (lit "cpu.max")) (cpu_max spec))
              (attempt fs (FsOp.write_to (slash leaf (lit "pids.max")) (lit "32"))
                (some leaf, []))))))

unfoldable attach_pid_to_cgroup : (FsOp → Bool) → Bytes → ℕ → Option Bytes × List FsOp
attach_pid_to_cgroup fs cgroup_path pid =
    attempt fs (FsOp.write_to (slash cgroup_path (lit "cgroup.procs")) (decimal pid))
      (some cgroup_path, [])

pub data Resource : Type 0 where
  cpu as_ data_ stack fsize nproc core : Resource

-- `setrlimit(res, {v, v})`: the soft and the hard limit are the same value.
pub record Rlimit : Type 0 where
  pub resource : Resource
  pub soft : ℕ
  pub hard : ℕ

abbrev set_limit : Resource → ℕ → Rlimit
set_limit res v = record { resource = res; soft = v; hard = v }

unfoldable pub apply_rlimits : ℕ → ℕ → ℕ → ℕ → List Rlimit
apply_rlimits cpu_time memory_bytes output_bytes stack_bytes =
    set_limit Resource.cpu ((cpu_time + 999) / 1000)
    ∷ set_limit Resource.as_ memory_bytes
    ∷ set_limit Resource.data_ memory_bytes
    ∷ set_limit Resource.stack stack_bytes
    ∷ set_limit Resource.fsize output_bytes
    ∷ set_limit Resource.nproc 32
    ∷ set_limit Resource.core 0
    ∷ []

pub data RuleAction : Type 0 where
  allow : RuleAction
  errno : ℕ → RuleAction

pub data Compare : Type 0 where
  masked_eq : ℕ → ℕ → ℕ → Compare
  equal : ℕ → ℕ → Compare

pub record Rule : Type 0 where
  pub action : RuleAction
  pub syscall : Bytes
  pub args : List Compare

pub data FilterOp : Type 0 where
  init load release : FilterOp
  rule_add : Rule → FilterOp

abbrev allowed : List Bytes
allowed =
    lit "read"
    ∷ lit "write"
    ∷ lit "readv"
    ∷ lit "writev"
    ∷ lit "close"
    ∷ lit "lseek"
    ∷ lit "pread64"
    ∷ lit "pwrite64"
    ∷ lit "openat"
    ∷ lit "open"
    ∷ lit "access"
    ∷ lit "faccessat"
    ∷ lit "faccessat2"
    ∷ lit "dup"
    ∷ lit "dup2"
    ∷ lit "dup3"
    ∷ lit "pipe"
    ∷ lit "pipe2"
    ∷ lit "fcntl"
    ∷ lit "brk"
    ∷ lit "mmap"
    ∷ lit "munmap"
    ∷ lit "mremap"
    ∷ lit "mprotect"
    ∷ lit "madvise"
    ∷ lit "exit"
    ∷ lit "exit_group"
    ∷ lit "getpid"
    ∷ lit "gettid"
    ∷ lit "tgkill"
    ∷ lit "rseq"
    ∷ lit "set_tid_address"
    ∷ lit "set_robust_list"
    ∷ lit "arch_prctl"
    ∷ lit "getrlimit"
    ∷ lit "setrlimit"
    ∷ lit "prlimit64"
    ∷ lit "uname"
    ∷ lit "rt_sigaction"
    ∷ lit "rt_sigreturn"
    ∷ lit "rt_sigprocmask"
    ∷ lit "rt_sigpending"
    ∷ lit "sigaltstack"
    ∷ lit "clock_gettime"
    ∷ lit "clock_nanosleep"
    ∷ lit "gettimeofday"
    ∷ lit "nanosleep"
    ∷ lit "getrandom"
    ∷ lit "fstat"
    ∷ lit "newfstatat"
    ∷ lit "statx"
    ∷ lit "stat"
    ∷ lit "lstat"
    ∷ lit "getdents64"
    ∷ lit "futex"
    ∷ lit "futex_waitv"
    ∷ lit "membarrier"
    ∷ []

abbrev allow_rule : Bytes → Rule
allow_rule name = record { action = RuleAction.allow; syscall = name; args = [] }

-- The rules behind the loop: execve, clone, clone3 and the two of ioctl.
abbrev special_rules : List Rule
special_rules =
    allow_rule (lit "execve")
    ∷ record {
      action = RuleAction.allow;
      syscall = lit "clone";
      args = Compare.masked_eq 0 0x10000 0x10000 ∷ [];
    }
    ∷ record { action = RuleAction.errno 38; syscall = lit "clone3"; args = [] }
    ∷ record {
      action = RuleAction.errno 1;
      syscall = lit "ioctl";
      args = Compare.equal 1 0x5412 ∷ [];
    }
    ∷ allow_rule (lit "ioctl")
    ∷ []

unfoldable pub whitelist : List Rule
whitelist = map allow_rule allowed ++ special_rules

-- The answers: is LQC_DISABLE_SECCOMP set and not empty, and what the library returns.
pub record Seccomp : Type 0 where
  pub disabled : Bool
  pub init_made : Bool
  pub added : Rule → Bool
  pub loaded : Bool

-- `if (seccomp_rule_add(…) < 0) { seccomp_release(ctx); return false; }` for each rule in turn, and
-- the load behind them.
unfoldable pub add_rules : Seccomp → List Rule → Bool × List FilterOp
add_rules lib [] = (lib.loaded, FilterOp.load ∷ FilterOp.release ∷ [])
add_rules lib (r ∷ rules) =
    let rest = add_rules lib rules in
    if lib.added r
    then (rest.0, FilterOp.rule_add r ∷ rest.1)
    else (false, FilterOp.rule_add r ∷ FilterOp.release ∷ [])

-- For a build with libseccomp; without it the function returns false and does nothing.
unfoldable pub install_seccomp_whitelist : Seccomp → Bool × List FilterOp
unfolding add_rules
install_seccomp_whitelist lib =
    if lib.disabled
    then (false, [])
    else if not lib.init_made
    then (false, FilterOp.init ∷ [])
    else let (ok, ops) = add_rules lib whitelist in (ok, FilterOp.init ∷ ops)

-- The directory is empty, or `chroot` and then `chdir` must succeed.
unfoldable drop_privileges : Bytes → Bool → Bool → Bool
drop_privileges chroot_dir chroot_made chdir_made =
    if not (is_empty chroot_dir)
    then (if not chroot_made then false else if not chdir_made then false else true)
    else true
