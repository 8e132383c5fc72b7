-- ===== src/Evaluation/Orchestrator.antt =====
-- `EvaluationRequest`, `EvaluationResult`, `_failure_result` and `evaluate_candidate` of
-- evaluation/orchestrator.py, with the calls of the back end that an evaluation makes.
use Prim.Native.String.{String}
use kernel_generation_china.Prelude.{
  ℕ, Bool, false, Option, none, some, List, [], ◌∷◌, if◌then◌else◌,
}
use kernel_generation_china.Prelude.Result.{Result, ok, ◌>>=◌}
use kernel_generation_china.Domain.Float.{Float, Libm}
use kernel_generation_china.Domain.Scoring.{CandidateScore, check_score}
use kernel_generation_china.Domain.Scoring.Rewards.{RewardBreakdown, default_reward}
use kernel_generation_china.Evaluation.Values.{Fields, Conversions}
use kernel_generation_china.Evaluation.Stages.{
  Stage, passed, is_infrastructure, stage_reason, invalid_candidate, unevaluated,
  CandidateProjection, candidate_projection, Performance, not_measured,
}
use kernel_generation_china.Evaluation.Attribution.{Attribution}

-- A case of the task, as a number: the orchestrator hands the cases on.
abbrev pub CaseSpec : Type 0
CaseSpec = ℕ

pub record TaskCases : Type 0 where
  pub id : ℕ
  pub correctness_cases : List CaseSpec
  pub benchmark_cases : List CaseSpec
  pub profile_cases : List CaseSpec

-- The paths and the settings that the orchestrator hands on to the back end are left out; of the
-- incumbent's path it asks whether there is one.
pub record EvaluationRequest : Type 0 where
  pub experiment_id : ℕ
  pub task : TaskCases
  pub round_number : ℕ
  pub candidate_id : ℕ
  pub correctness_cases : Option (List CaseSpec)
  pub benchmark_cases : Option (List CaseSpec)
  pub profile_cases : Option (List CaseSpec)
  pub has_incumbent : Bool
  pub combine_candidate_stages : Bool
  pub run_profile : Bool
  pub search_profile_policy : Bool
  pub minimum_kernel_coverage : Float
  pub hidden : Bool

pub data OverallStatus : Type 0 where
  valid invalid infra_retry : OverallStatus

pub record Infrastructure : Type 0 where
  pub retry : Bool
  pub stage : Option String
  pub reason : Option String

-- A profile stands with the attribution that is added to it. `anti_bypass` is none in a result of
-- `_failure_result`, whose dictionary says that the attribution is unavailable.
pub record EvaluationResult : Type 0 where
  pub experiment_id : ℕ
  pub task_id : ℕ
  pub round_number : ℕ
  pub candidate_id : ℕ
  pub overall_status : OverallStatus
  pub source : Fields
  pub compile : Option Fields
  pub correctness : Option Fields
  pub benchmark : Option Fields
  pub profile : Option (Fields × Attribution)
  pub anti_bypass : Option Attribution
  pub candidate : CandidateProjection
  pub performance : Performance
  pub infrastructure : Infrastructure
  pub reward_vector : RewardBreakdown
  pub score : CandidateScore

-- A call of the back end, with the cases that it is given.
pub data StageCall : Type 0 where
  calls_source : StageCall
  calls_compile : List CaseSpec → StageCall
  calls_correctness : List CaseSpec → StageCall
  calls_benchmark : List CaseSpec → StageCall
  calls_candidate : List CaseSpec → List CaseSpec → StageCall
  calls_profile : List CaseSpec → StageCall

-- The back end: what each of its methods returns or raises on the candidate of the request.
pub record EvaluationBackend : Type 0 where
  pub source_check : Result Stage
  pub compile : List CaseSpec → Result Stage
  pub check_correctness : List CaseSpec → Result Stage
  pub benchmark : List CaseSpec → Result Stage
  pub candidate_evaluation : List CaseSpec → List CaseSpec → Result Stage
  pub profile : List CaseSpec → Result Stage

-- `request_cases or task_cases`
abbrev pub cases_or : Option (List CaseSpec) → List CaseSpec → List CaseSpec
cases_or none cases = cases
cases_or (some []) cases = cases
cases_or (some (x ∷ xs)) cases = x ∷ xs

pub data FailureStage : Type 0 where
  at_source at_compile at_correctness at_benchmark : FailureStage

abbrev pub stage_name : FailureStage → String
stage_name at_source = "source"
stage_name at_compile = "compile"
stage_name at_correctness = "correctness"
stage_name at_benchmark = "benchmark"

abbrev pub stage_result :
    FailureStage → Fields → Option Fields → Option Fields → Option Fields → Option Fields
stage_result at_source source compile correctness benchmark = some source
stage_result at_compile source compile correctness benchmark = compile
stage_result at_correctness source compile correctness benchmark = correctness
stage_result at_benchmark source compile correctness benchmark = benchmark

abbrev pub infrastructure_of : Conversions → Option Fields → Bool
infrastructure_of c none = false
infrastructure_of c (some m) = is_infrastructure c m

abbrev pub has_passed : Conversions → Option Fields → Bool
has_passed c none = false
has_passed c (some m) = passed c m

abbrev pub failed_score :
    Conversions → EvaluationRequest → Option Fields → Option Fields → CandidateScore
failed_score c r compile correctness = record {
  candidate_id = r.candidate_id;
  round_number = r.round_number;
  compile_passed = has_passed c compile;
  correctness_passed = has_passed c correctness;
  anti_bypass_passed = false;
  hidden_correctness_passed = if r.hidden then some false else none;
  minimum_speedup = none;
  geomean_speedup = none;
  candidate_kernel_coverage = none;
  stability_cv = none;
}

abbrev pub infrastructure_status : Bool → String → Option String → Infrastructure
infrastructure_status failure stage reason = record {
  retry = failure;
  stage = if failure then some stage else none;
  reason = if failure then reason else none;
}

unfoldable pub failure_result :
    Libm
    → Conversions
    → EvaluationRequest
    → FailureStage
    → Fields
    → Option Fields
    → Option Fields
    → Option Fields
    → Result EvaluationResult
failure_result m c r stage source compile correctness benchmark = do
  let result = stage_result stage source compile correctness benchmark
  let failure = infrastructure_of c result
  let reason = some (stage_reason c result (stage_name stage))
  score ← check_score (failed_score c r compile correctness)
  reward ← default_reward m score
  ok (record {
    experiment_id = r.experiment_id;
    task_id = r.task.id;
    round_number = r.round_number;
    candidate_id = r.candidate_id;
    overall_status = if failure then infra_retry else invalid;
    source = source;
    compile = compile;
    correctness = correctness;
    benchmark = benchmark;
    profile = none;
    anti_bypass = none;
    candidate =
        candidate_projection c source compile correctness
          (if failure then unevaluated else invalid_candidate) reason;
    performance = not_measured;
    infrastructure = infrastructure_status failure (stage_name stage) reason;
    reward_vector = reward;
    score = score;
  })
