-- ===== src/Judge/Runner/Overall.antt =====
-- The verdict of `Runner::judge` (modules/judge-engine/src/runner.cpp) from the runs of the cases.
use mathlib.Core.Path.{ap₂}
use mathlib.Core.List.{append_assoc, append-nil}
use lemuel_quant_core.Base.{
  ℕ, ◌+◌, ◌≡◌, refl, ◌↔◌, ◌⊎◌, ◌≢◌, ◌∙◌, sym, ap, Bool, true, false, ◌&&◌, List, [], ◌∷◌, ◌++◌,
  arith, if◌then◌else◌, inl, inr,
}
use lemuel_quant_core.Base.Bytes.{Bytes, bytes_eq_iff}
use lemuel_quant_core.Judge.{SandboxLimits, Verdict, is_accepted, TestCase, Submission, CaseResult}
use lemuel_quant_core.Judge.Sandbox.{Os, Status, run_linux}
use lemuel_quant_core.Judge.Sandbox.Verdicts.{IsClean, run_linux-accepted_iff, run_linux-eq-outcome}
use lemuel_quant_core.Judge.Sandbox.Capture.{concat}
use lemuel_quant_core.Judge.Runner.{
  JudgeOs, Effect, judge, judge_case, judge_cases, compile_via_execv, normalize, update_overall,
  checked_verdict, case_effects, append_all,
}

-- The result of each case, each from its own run.
abbrev pub results : SandboxLimits → (ℕ → Os) → ℕ → List TestCase → List CaseResult
results limits runs i [] = []
results limits runs i (tc ∷ cases) =
    judge_case limits (runs i) tc ∷ results limits runs (i + 1) cases

-- The first verdict that is not `accepted`, if there is one.
abbrev pub first_failure : List CaseResult → Verdict
first_failure [] = Verdict.accepted
first_failure (r ∷ rs) = if is_accepted r.verdict then first_failure rs else r.verdict

keep_first :
    (o v rest : Verdict)
    → (if is_accepted (update_overall o v) then rest else update_overall o v)
      ≡ (if is_accepted o then (if is_accepted v then rest else v) else o)
keep_first Verdict.accepted v rest = ground arith
keep_first _ v rest = ground arith

judge_cases_lem :
    (limits : SandboxLimits) (runs : ℕ → Os) (i : ℕ) (cases : List TestCase) (overall : Verdict)
    (done : List CaseResult)
    → judge_cases limits runs i cases overall done ≡ (
      if is_accepted overall then first_failure (results limits runs i cases) else overall,
      done ++ results limits runs i cases,
    )
unfolding judge_cases
judge_cases_lem limits runs i [] Verdict.accepted done = rw (append-nil done) refl
judge_cases_lem limits runs i [] _ done = rw (append-nil done) refl
judge_cases_lem limits runs i (tc ∷ cases) overall done =
    let r = judge_case limits (runs i) tc in
    judge_cases_lem limits runs (i + 1) cases (update_overall overall r.verdict) (done ++ r ∷ [])
    ∙ ap₂ (λ o l. (o, l))
        (keep_first overall r.verdict (first_failure (results limits runs (i + 1) cases)))
        (append_assoc done (r ∷ []) (results limits runs (i + 1) cases))

-- The compiler was started and exited with code 0.
pub record IsCompiled (os : JudgeOs) : Type 0 where
  pub dir_made : os.dir_made ≡ true
  pub pipe_made : os.compile.pipe_made ≡ true
  pub forked : os.compile.forked ≡ true
  pub exit_zero : os.compile.status ≡ Status.exited 0

head_tail :
    (r : CaseResult) (rs : List CaseResult)
    → first_failure (r ∷ rs) ≡ Verdict.accepted
    → (r.verdict ≡ Verdict.accepted) × (first_failure rs ≡ Verdict.accepted)
head_tail r rs h = ground arith

-- Case by case: the run was clean and its whole output is the expected one, up to `normalize`.
abbrev pub AllPass : SandboxLimits → (ℕ → Os) → ℕ → List TestCase → Type 0
AllPass limits runs i [] = Unit
AllPass limits runs i (tc ∷ cases) =
    (IsClean limits (runs i) × (normalize (concat (runs i).chunks) ≡ normalize tc.expected_output))
    × AllPass limits runs (i + 1) cases

checked_split :
    (v : Verdict) (a e : Bytes)
    → checked_verdict v a e ≡ Verdict.accepted
    → (v ≡ Verdict.accepted) × (normalize a ≡ normalize e)
checked_split v a e h = ground (arith, bytes_eq_iff (normalize a) (normalize e))

checked_join :
    (v : Verdict) (a e : Bytes)
    → v ≡ Verdict.accepted
    → normalize a ≡ normalize e
    → checked_verdict v a e ≡ Verdict.accepted
checked_join v a e h k = ground (arith, bytes_eq_iff (normalize a) (normalize e))

module _ (limits : SandboxLimits) (os : Os) (tc : TestCase) where
  output_of_clean :
      IsClean limits os → (run_linux limits tc.input os).0.stdout_data ≡ concat os.chunks
  output_of_clean h = rw run_linux-eq-outcome (ground arith)

  pass_of_accepted :
      (judge_case limits os tc).verdict ≡ Verdict.accepted
      → IsClean limits os × (normalize (concat os.chunks) ≡ normalize tc.expected_output)
  pass_of_accepted h =
      let (ok, same) = checked_split _ _ tc.expected_output h in
      let clean = (run_linux-accepted_iff limits tc.input os).0 ok in
      (clean, ap normalize (sym (output_of_clean clean)) ∙ same)

  accepted_of_pass :
      IsClean limits os
      → normalize (concat os.chunks) ≡ normalize tc.expected_output
      → (judge_case limits os tc).verdict ≡ Verdict.accepted
  accepted_of_pass c e =
      checked_join _ _ tc.expected_output ((run_linux-accepted_iff limits tc.input os).1 c)
        (ap normalize (output_of_clean c) ∙ e)

AllPass-of_accepted :
    (limits : SandboxLimits) (runs : ℕ → Os) (i : ℕ) (cases : List TestCase)
    → first_failure (results limits runs i cases) ≡ Verdict.accepted
    → AllPass limits runs i cases
AllPass-of_accepted limits runs i [] h = tt
AllPass-of_accepted limits runs i (tc ∷ cases) h =
    let (here, rest) =
      head_tail (judge_case limits (runs i) tc) (results limits runs (i + 1) cases) h in
    (pass_of_accepted limits (runs i) tc here, AllPass-of_accepted limits runs (i + 1) cases rest)

accepted_of_AllPass :
    (limits : SandboxLimits) (runs : ℕ → Os) (i : ℕ) (cases : List TestCase)
    → AllPass limits runs i cases
    → first_failure (results limits runs i cases) ≡ Verdict.accepted
accepted_of_AllPass limits runs i [] h = refl
accepted_of_AllPass limits runs i (tc ∷ cases) ((c, e), rest) =
    rw (accepted_of_pass limits (runs i) tc c e, first_failure)
      (accepted_of_AllPass limits runs (i + 1) cases rest)

abbrev is_removal : Effect → Bool
is_removal Effect.remove_dir = true
is_removal _ = false

abbrev pub tally : List Effect → ℕ
tally [] = 0
tally (a ∷ l) = (if is_removal a then 1 else 0) + tally l

abbrev is_run : Effect → Bool
is_run (Effect.run_case input) = true
is_run _ = false

-- How many cases are run.
abbrev pub runs_in : List Effect → ℕ
runs_in [] = 0
runs_in (a ∷ l) = (if is_run a then 1 else 0) + runs_in l

tally-case_effects : (cases : List TestCase) → tally (case_effects cases) ≡ 1
tally-case_effects [] = refl
tally-case_effects (tc ∷ cases) = ground (arith, tally-case_effects cases)

append_all-concat :
    (log : Bytes) (chunks : List Bytes) → append_all log chunks ≡ log ++ concat chunks
append_all-concat log [] = sym (append-nil log)
append_all-concat log (c ∷ chunks) =
    append_all-concat (log ++ c) chunks ∙ append_assoc log c (concat chunks)

-- Does `judge` get as far as the compiler's process?
abbrev pub spawns : JudgeOs → Bool
spawns os = os.dir_made && os.compile.pipe_made && os.compile.forked

module _ (os : JudgeOs) (s : Submission) where
  -- Once the program is compiled there is one result for each case, each from its own run, and the
  -- overall verdict is that of the first case which is not accepted.
  pub judge_compiled :
      IsCompiled os
      → ((judge os s).0.overall ≡ first_failure (results s.limits os.runs 0 s.cases))
        × ((judge os s).0.per_case ≡ results s.limits os.runs 0 s.cases)
  unfolding judge compile_via_execv
  judge_compiled h = ground (arith, judge_cases_lem s.limits os.runs 0 s.cases Verdict.accepted [])

  IsCompiled-of_accepted : (judge os s).0.overall ≡ Verdict.accepted → IsCompiled os
  unfolding judge compile_via_execv
  IsCompiled-of_accepted h = grind arith

  -- A submission is accepted exactly if it compiled and every case passed: its run was clean and all
  -- that it wrote is the expected output up to `normalize`.
  pub judge-accepted_iff :
      ((judge os s).0.overall ≡ Verdict.accepted)
      ↔ (IsCompiled os × AllPass s.limits os.runs 0 s.cases)
  judge-accepted_iff = (
    λ h.
        let c = IsCompiled-of_accepted h in
        (c, AllPass-of_accepted s.limits os.runs 0 s.cases (sym (judge_compiled c).0 ∙ h)),
    λ p. (judge_compiled p.0).0 ∙ accepted_of_AllPass s.limits os.runs 0 s.cases p.1,
  )

  -- If the directory or the compiler's process cannot be made the verdict is an internal error; if
  -- the compiler does not exit with code 0 it is a compile error, and the log is all that the compiler
  -- wrote. There is no result of a case, and no case is run.
  pub judge_uncompiled :
      (spawns os ≡ false) ⊎ (os.compile.status ≢ Status.exited 0)
      → ((judge os s).0.per_case ≡ [])
        × (runs_in (judge os s).1 ≡ 0)
        × ((judge os s).0.overall
            ≡ (if spawns os then Verdict.compile_error else Verdict.internal_error))
        × ((judge os s).0.compile_log ≡ (if spawns os then concat os.compile.chunks else []))
  unfolding judge compile_via_execv
  judge_uncompiled (inl h) = ground arith
  judge_uncompiled (inr h) = ground (arith, append_all-concat [] os.compile.chunks)

  -- The directory of a submission is removed exactly once if it was made, and never otherwise.
  judge-removes : tally (judge os s).1 ≡ (if os.dir_made then 1 else 0)
  unfolding judge
  judge-removes = ground (arith, tally-case_effects s.cases)
