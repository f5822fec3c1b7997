-- ===== src/Judge/Service/Streaming.antt =====
-- What a client of the judge service (modules/judge-engine/grpc/server.cpp) and a caller of the
-- command line (modules/judge-engine/src/main.cpp) can rely on.
use lemuel_quant_core.Base.{
  ℕ, zero, suc, ◌+◌, ◌≤◌, ◌<◌, ◌≡◌, refl, ◌≢◌, ◌↔◌, ◌⊎◌, ◌∙◌, ap, Bool, true, false, Option, none,
  some, List, [], ◌∷◌, arith, ◌==◌, length, get_elem?,
}
use mathlib.Core.Option
use native.Mathlib.Nat.{add-zero, zero-add}
use lemuel_quant_core.Base.Bytes.{Bytes}
use lemuel_quant_core.Judge.{Verdict, default_limits, TestCase, CaseResult}
use lemuel_quant_core.Judge.Runner.{JudgeOs, judge}
use lemuel_quant_core.Judge.Runner.Overall.{
  IsCompiled, judge_uncompiled, spawns, AllPass, judge-accepted_iff,
}
use lemuel_quant_core.Judge.Sandbox.{Status}
use lemuel_quant_core.Judge.Service.{
  PbVerdict, to_pb, Limits, SubmitRequest, from_pb, limits_from_pb, fill_case, CaseUpdate, uint32,
  stream, stream_from, submit, cli_main, cli_submission,
}

-- The update for the k-th of n results.
abbrev update : ℕ → ℕ → CaseResult → CaseUpdate
update n k c = record { case_index = uint32 k; result = fill_case c; is_last = k + 1 == n }

eq_suc : (i k : ℕ) → i + 1 + k ≡ i + suc k
eq_suc i k = omega arith

stream_from_lem :
    (write : CaseUpdate → Bool) (n i : ℕ) (cases : List CaseResult)
    → ((u : CaseUpdate) → write u ≡ true)
    → (k : ℕ)
    → get_elem? (stream_from write n i cases) k ≡ Option.map (update n (i + k)) (get_elem? cases k)
unfolding stream_from
stream_from_lem write n i [] ok k = refl
stream_from_lem write n i (c ∷ cases) ok zero = rw (ok (update n i c), add-zero) refl
stream_from_lem write n i (c ∷ cases) ok (suc k) =
    rw (ok (update n i c), ← eq_suc i k) (stream_from_lem write n (i + 1) cases ok k)

-- If every write succeeds, the k-th update is that of the k-th case, for each case: its number is k
-- up to wrap-around, and exactly the last one is marked as the last.
stream_lem :
    (write : CaseUpdate → Bool) (os : JudgeOs) (req : SubmitRequest)
    → ((u : CaseUpdate) → write u ≡ true)
    → (k : ℕ)
    → let per_case = (judge os (from_pb req)).0.per_case in
      get_elem? (stream write os req) k
      ≡ Option.map (update (length per_case) k) (get_elem? per_case k)
unfolding stream
stream_lem write os req ok k =
    let per_case = (judge os (from_pb req)).0.per_case in
    stream_from_lem write (length per_case) 0 per_case ok k
    ∙ ap (λ t. Option.map (update (length per_case) t) (get_elem? per_case k)) (zero-add k)

-- A stream sends no update at all for a submission that does not compile, so its client sees neither
-- the verdict nor the compiler's log.
stream_uncompiled :
    (write : CaseUpdate → Bool) (os : JudgeOs) (req : SubmitRequest)
    → (spawns os ≡ false) ⊎ (os.compile.status ≢ Status.exited 0)
    → stream write os req ≡ []
unfolding stream stream_from
stream_uncompiled write os req h = rw (judge_uncompiled os (from_pb req) h).0 refl

-- Every limit that a request leads to is positive, whatever the client sends: a limit that is missing
-- or zero stands for the default.
limits_from_pb_pos :
    (l : Option Limits)
    → let s = limits_from_pb l in
      (0 < s.wall_time)
      × (0 < s.cpu_time)
      × (0 < s.memory_bytes)
      × (0 < s.output_bytes)
      × (0 < s.stack_bytes)
unfolding limits_from_pb
limits_from_pb_pos none = omega arith
limits_from_pb_pos (some l) = ground arith

to_pb_accepted : (v : Verdict) → to_pb v ≡ PbVerdict.ac → v ≡ Verdict.accepted
unfolding to_pb
to_pb_accepted v h = ground arith

-- A client of `Submit` reads AC exactly if the program compiled and passed every case of its request
-- under the limits of its request.
submit-accepted_iff :
    (os : JudgeOs) (req : SubmitRequest)
    → ((submit os req).overall ≡ PbVerdict.ac)
      ↔ (IsCompiled os × AllPass (limits_from_pb req.limits) os.runs 0 req.cases)
unfolding submit from_pb to_pb
submit-accepted_iff os req = (
  λ h. (judge-accepted_iff os (from_pb req)).0 (to_pb_accepted _ h),
  λ p. ap to_pb ((judge-accepted_iff os (from_pb req)).1 p) ∙ refl,
)

cli_main_status :
    (argc : ℕ) (os : JudgeOs) (source : Bytes) (tc : TestCase)
    → (cli_main argc os source tc).1 ≡ 0
    → (4 ≤ argc) × ((judge os (cli_submission source tc)).0.overall ≡ Verdict.accepted)
unfolding cli_main
cli_main_status argc os source tc h = ground arith

-- The command line ends with status 0 exactly if it got its three arguments, the program compiled and
-- the case passed under the default limits.
cli_main-zero_iff :
    (argc : ℕ) (os : JudgeOs) (source : Bytes) (tc : TestCase)
    → ((cli_main argc os source tc).1 ≡ 0)
      ↔ ((4 ≤ argc) × IsCompiled os × AllPass default_limits os.runs 0 (tc ∷ []))
unfolding cli_main
cli_main-zero_iff argc os source tc = (
  λ h.
      let (args, ok) = cli_main_status argc os source tc h in
      let (compiled, pass) = (judge-accepted_iff os (cli_submission source tc)).0 ok in
      (args, compiled, pass),
  λ (args, compiled, pass).
      let ok = (judge-accepted_iff os (cli_submission source tc)).1 (compiled, pass) in
      ground arith,
)
