-- ===== src/Judge/Linux/Laws.antt =====
-- What the hardening primitives of modules/judge-engine/src/sandbox_linux.cpp leave behind.
use lemuel_quant_core.Base.{
  ℕ, ◌+◌, ◌*◌, ◌≤◌, ◌<◌, ◌≡◌, refl, Bool, true, false, ◌&&◌, none, some, List, [], ◌∷◌, ◌++◌, arith,
  ltb, if◌then◌else◌, Bool-cases, inl, inr, All,
}
use lemuel_quant_core.Base.Bytes.{Bytes, lit, decimal}
use lemuel_quant_core.Judge.Linux.{
  CgroupSpec, FsOp, create_cgroup, slash, Rule, FilterOp, Seccomp, add_rules, whitelist,
  install_seccomp_whitelist, Rlimit, apply_rlimits, Resource,
}

abbrev rule_ops : List Rule → List FilterOp
rule_ops [] = FilterOp.load ∷ FilterOp.release ∷ []
rule_ops (r ∷ rules) = FilterOp.rule_add r ∷ rule_ops rules

abbrev all_added : Seccomp → List Rule → Bool
all_added lib [] = true
all_added lib (r ∷ rules) = lib.added r && all_added lib rules

abbrev is_load : FilterOp → Bool
is_load FilterOp.load = true
is_load _ = false

abbrev is_release : FilterOp → Bool
is_release FilterOp.release = true
is_release _ = false

abbrev pub tally : (FilterOp → Bool) → List FilterOp → ℕ
tally p [] = 0
tally p (a ∷ l) = (if p a then 1 else 0) + tally p l

tally_load : (rules : List Rule) → tally is_load (rule_ops rules) ≡ 1
tally_load [] = refl
tally_load (r ∷ rules) = ground (arith, tally_load rules)

tally_release : (rules : List Rule) → tally is_release (rule_ops rules) ≡ 1
tally_release [] = refl
tally_release (r ∷ rules) = ground (arith, tally_release rules)

module _ (lib : Seccomp) where
  add_rules_all :
      (rules : List Rule)
      → all_added lib rules ≡ true
      → add_rules lib rules ≡ (lib.loaded, rule_ops rules)
  unfolding add_rules
  add_rules_all [] h = refl
  add_rules_all (r ∷ rules) h = ground (arith, add_rules_all rules)

  add_rules_some :
      (rules : List Rule)
      → all_added lib rules ≡ false
      → ((add_rules lib rules).0 ≡ false) × (tally is_load (add_rules lib rules).1 ≡ 0)
  unfolding add_rules
  add_rules_some [] h = cc
  add_rules_some (r ∷ rules) h = ground (arith, add_rules_some rules)

  add_rules_release : (rules : List Rule) → tally is_release (add_rules lib rules).1 ≡ 1
  unfolding add_rules
  add_rules_release [] = refl
  add_rules_release (r ∷ rules) = ground (arith, add_rules_release rules)

  -- With seccomp not switched off and the context made, the result is true exactly if every rule of
  -- the whitelist was added and the load succeeded; the filter is loaded only if every rule was
  -- added; and the context is released once.
  install_seccomp_whitelist_lem :
      lib.disabled ≡ false
      → lib.init_made ≡ true
      → ((install_seccomp_whitelist lib).0 ≡ (all_added lib whitelist && lib.loaded))
        × (tally is_load (install_seccomp_whitelist lib).1
            ≡ (if all_added lib whitelist then 1 else 0))
        × (tally is_release (install_seccomp_whitelist lib).1 ≡ 1)
  unfolding install_seccomp_whitelist
  install_seccomp_whitelist_lem d i = elim (Bool-cases (all_added lib whitelist)) [
    | inl e ↦
        rw (d, i, e, add_rules_all whitelist e)
          (refl, omega (arith, tally_load whitelist), omega (arith, tally_release whitelist))
    | inr e ↦
        let (r, l) = add_rules_some whitelist e in
        rw (d, i, e, r, l, add_rules_release whitelist) (refl, refl, refl)
  ]

-- The file operations that a whole leaf needs.
abbrev leaf_ops : CgroupSpec → Bytes → List FsOp
leaf_ops spec run_id =
    let root = slash spec.mount_point spec.slice in
    let leaf = slash root run_id in
    FsOp.create_directories root
    ∷ FsOp.write_to (slash root (lit "cgroup.subtree_control")) (lit "+memory +cpu +pids")
    ∷ FsOp.create_directories leaf
    ∷ ((if ltb 0 spec.memory_max_bytes
          then FsOp.write_to (slash leaf (lit "memory.max")) (decimal spec.memory_max_bytes) ∷ []
          else [])
        ++ ((if ltb 0 spec.cpu_quota_us
              then FsOp.write_to (slash leaf (lit "cpu.max"))
                  (decimal spec.cpu_quota_us ++ lit " " ++ decimal spec.cpu_period_us)
                ∷ []
              else [])
            ++ FsOp.write_to (slash leaf (lit "pids.max")) (lit "32") ∷ []))

abbrev all_done : (FsOp → Bool) → List FsOp → Bool
all_done fs [] = true
all_done fs (op ∷ ops) = fs op && all_done fs ops

-- `create_cgroup` returns the leaf exactly if the file system carries out every operation that the
-- leaf needs: both controllers' limits where they are set, and the bound on processes always.
create_cgroup_lem :
    (fs : FsOp → Bool) (spec : CgroupSpec) (run_id : Bytes)
    → (create_cgroup fs spec run_id).0 ≡ (
        if all_done fs (leaf_ops spec run_id)
        then some (slash (slash spec.mount_point spec.slice) run_id)
        else none)
unfolding create_cgroup
create_cgroup_lem fs spec run_id = ground arith

abbrev IsHard : Rlimit → Type 0
IsHard r = r.soft ≡ r.hard

-- The processor limit is the time budget in seconds, rounded up by less than a second, and every
-- limit is set hard: no soft limit lies below its hard one.
apply_rlimits_lem :
    (cpu_time memory_bytes output_bytes stack_bytes : ℕ)
    → (r : Rlimit) × (rest : List Rlimit) × (apply_rlimits cpu_time memory_bytes output_bytes
          stack_bytes
        ≡ r ∷ rest)
      × (r.resource ≡ Resource.cpu)
      × (cpu_time ≤ r.soft * 1000)
      × (r.soft * 1000 < cpu_time + 1000)
      × All IsHard (r ∷ rest)
unfolding apply_rlimits
apply_rlimits_lem c m o s = (_, _, refl, refl, omega arith, omega arith, omega arith)
