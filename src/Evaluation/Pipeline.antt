-- ===== src/Evaluation/Pipeline.antt =====
-- `evaluate_candidate` of evaluation/orchestrator.py.
use Prim.Native.String.{String}
use text.Mathlib.Text.{◌==◌ as str_eq}
use mathlib.Core.Option
use kernel_generation_china.Prelude.{
  Bool, true, false, not, ◌&&◌, ◌||◌, Option, none, some, List, [], ◌∷◌, if◌then◌else◌,
}
use kernel_generation_china.Prelude.Result.{Result, ok, err, ◌>>=◌}
use kernel_generation_china.Domain.Float.{Float, Libm}
use kernel_generation_china.Domain.Scoring.{CandidateScore, check_score}
use kernel_generation_china.Domain.Scoring.Rewards.{RewardBreakdown, default_reward}
use kernel_generation_china.Evaluation.Values.{Value, Fields, Conversions, get, get_value, to_str}
use kernel_generation_china.Evaluation.Stages.{
  Stage, stage_dict, combined_stage, passed, is_infrastructure, stage_reason, read_number,
  CandidateStatus, valid_candidate, invalid_candidate, unevaluated, candidate_projection,
  Performance, not_measured, measured, geomean_keys, minimum_keys, stability_keys,
  performance_projection,
}
use kernel_generation_china.Evaluation.Attribution.{
  Attribution, profile_attribution, search_profile_selected,
}
use kernel_generation_china.Evaluation.Orchestrator.{
  CaseSpec, EvaluationRequest, OverallStatus, valid, invalid, infra_retry, EvaluationResult,
  StageCall, calls_source, calls_compile, calls_correctness, calls_benchmark, calls_candidate,
  calls_profile, EvaluationBackend, cases_or, FailureStage, at_source, at_compile, at_correctness,
  at_benchmark, infrastructure_of, has_passed, infrastructure_status, failure_result,
}

-- The calls of the back end, first to last, and the outcome.
abbrev pub Traced : Type 0
Traced = List StageCall × Result EvaluationResult

abbrev pub no_call : Result EvaluationResult → Traced
no_call r = ([], r)

-- A call, and what follows if it returns.
abbrev pub after : StageCall → Result Stage → (Stage → Traced) → Traced
after call (err e) next = (call ∷ [], err e)
after call (ok stage) next = (call ∷ (next stage).0, (next stage).1)

-- How the evaluation is judged once the candidate was measured or failed its benchmark.
pub record Judgement : Type 0 where
  pub overall : OverallStatus
  pub infrastructure_failure : Bool
  pub status : CandidateStatus
  pub reason : Option String

abbrev pub unmeasured_judgement : Bool → Option String → Judgement
unmeasured_judgement failure reason = record {
  overall = if failure then infra_retry else invalid;
  infrastructure_failure = failure;
  status = if failure then unevaluated else invalid_candidate;
  reason = reason;
}

abbrev pub measured_judgement : Performance → Judgement
measured_judgement not_measured = record {
  overall = infra_retry;
  infrastructure_failure = true;
  status = valid_candidate;
  reason = some "benchmark_metrics_missing";
}
measured_judgement (measured versus metrics) = record {
  overall = valid;
  infrastructure_failure = false;
  status = valid_candidate;
  reason = none;
}

module _ (m : Libm) (c : Conversions) where
  abbrev pub judge : Option Fields → Bool → Performance → Judgement
  judge benchmark true performance = measured_judgement performance
  judge benchmark false performance =
      unmeasured_judgement (infrastructure_of c benchmark)
        (some (stage_reason c benchmark "benchmark_failed"))

  abbrev pub number_if : Bool → Option Fields → List String → Option Float
  number_if b benchmark keys = if b then read_number c benchmark keys else none

  abbrev pub measured_score :
      EvaluationRequest → Option Fields → Bool → Attribution → CandidateScore
  measured_score r benchmark benchmark_passed attribution = record {
    candidate_id = r.candidate_id;
    round_number = r.round_number;
    compile_passed = true;
    correctness_passed = true;
    anti_bypass_passed = attribution.passed;
    hidden_correctness_passed = if r.hidden then some true else none;
    minimum_speedup = number_if benchmark_passed benchmark minimum_keys;
    geomean_speedup = number_if benchmark_passed benchmark geomean_keys;
    candidate_kernel_coverage = attribution.candidate_kernel_coverage;
    stability_cv = read_number c benchmark stability_keys;
  }

  module _ (r : EvaluationRequest) (source : Fields) (compile correctness benchmark : Option Fields)
      (benchmark_passed : Bool) where
    abbrev pub judged_result :
        Option Fields
        → Attribution
        → CandidateScore
        → RewardBreakdown
        → Performance
        → Judgement
        → EvaluationResult
    judged_result profile attribution score reward performance j = record {
      experiment_id = r.experiment_id;
      task_id = r.task.id;
      round_number = r.round_number;
      candidate_id = r.candidate_id;
      overall_status = j.overall;
      source = source;
      compile = compile;
      correctness = correctness;
      benchmark = benchmark;
      profile = Option.map (λ p. (p, attribution)) profile;
      anti_bypass = some attribution;
      candidate = candidate_projection c source compile correctness j.status j.reason;
      performance = performance;
      infrastructure = infrastructure_status j.infrastructure_failure "benchmark" j.reason;
      reward_vector = reward;
      score = score;
    }

    -- The end of `evaluate_candidate`, after the profile stage if it ran.
    unfoldable pub finish : Option Fields → Result EvaluationResult
    finish profile = do
      attribution ← profile_attribution c profile r.minimum_kernel_coverage
      score ← check_score (measured_score r benchmark benchmark_passed attribution)
      reward ← default_reward m score
      let performance = performance_projection m c benchmark benchmark_passed
      ok (
          judged_result profile attribution score reward performance
            (judge benchmark benchmark_passed performance))

    abbrev pub wants_profile : Bool
    wants_profile =
        r.run_profile
        && benchmark_passed
        && (not r.search_profile_policy || search_profile_selected m c benchmark r.has_incumbent)

    unfoldable pub profile_and_finish : EvaluationBackend → Traced
    profile_and_finish b =
        let cases = cases_or r.profile_cases r.task.profile_cases in
        if wants_profile
        then after (calls_profile cases) (b.profile cases)
            (λ stage. no_call (finish (some (stage_dict stage))))
        else no_call (finish none)

  module _ (b : EvaluationBackend) (r : EvaluationRequest) (source : Fields) where
    abbrev pub correctness_input : List CaseSpec
    correctness_input = cases_or r.correctness_cases r.task.correctness_cases

    abbrev pub benchmark_input : List CaseSpec
    benchmark_input = cases_or r.benchmark_cases r.task.benchmark_cases

    unfoldable pub after_correctness : Fields → Stage → Traced
    after_correctness compile stage =
        if stage.passed
        then after (calls_benchmark benchmark_input) (b.benchmark benchmark_input) (λ s.
          profile_and_finish r source (some compile) (some (stage_dict stage)) (some (stage_dict s))
            s.passed b)
        else no_call (
            failure_result m c r at_correctness source (some compile) (some (stage_dict stage))
              none)

    unfoldable pub after_compile : Stage → Traced
    after_compile stage =
        if stage.passed
        then after (calls_correctness correctness_input) (b.check_correctness correctness_input)
            (after_correctness (stage_dict stage))
        else no_call (failure_result m c r at_compile source (some (stage_dict stage)) none none)

    -- `compile`, `check_correctness` and `benchmark` one after the other.
    unfoldable pub separate_stages : Traced
    separate_stages =
        after (calls_compile correctness_input) (b.compile correctness_input) after_compile

    abbrev pub outcome_text : Option Value → String
    outcome_text none = "compile_failed"
    outcome_text (some v) = to_str c v

    abbrev pub failed_correctness : Option Fields → Bool
    failed_correctness none = false
    failed_correctness (some x) = not (passed c x)

    abbrev pub combined_failure : Fields → Option Fields → FailureStage
    combined_failure compile correctness =
        if failed_correctness correctness
        then at_correctness
        else if not (passed c compile)
        then at_compile
        else at_benchmark

    -- The tests on the result of the combined stage.
    unfoldable pub combined_outcome : Fields → Fields → Option Fields → Option Fields → Traced
    combined_outcome result compile correctness benchmark =
        let outcome = outcome_text (get "outcome" result) in
        if is_infrastructure c result
        then no_call (
            failure_result m c r (combined_failure compile correctness) source (some compile)
              correctness benchmark)
        else if str_eq outcome "compile_failed"
        then no_call (failure_result m c r at_compile source (some compile) none none)
        else if str_eq outcome "correctness_failed"
        then no_call (failure_result m c r at_correctness source (some compile) correctness none)
        else profile_and_finish r source (some compile) correctness benchmark
            (has_passed c benchmark) b

    unfoldable pub after_candidate : Stage → Traced
    after_candidate stage =
        let result = stage_dict stage in
        combined_outcome result (Option.get_or (combined_stage (get_value "compile" result)) result)
          (combined_stage (get_value "correctness" result))
          (combined_stage (get_value "benchmark" result))

    unfoldable pub combined_stages : Traced
    combined_stages =
        after (calls_candidate correctness_input benchmark_input)
          (b.candidate_evaluation correctness_input benchmark_input) after_candidate

  unfoldable pub after_source : EvaluationBackend → EvaluationRequest → Stage → Traced
  after_source b r stage =
      if stage.passed
      then (if r.hidden || not r.combine_candidate_stages
          then separate_stages b r (stage_dict stage)
          else combined_stages b r (stage_dict stage))
      else no_call (failure_result m c r at_source (stage_dict stage) none none none)

  unfoldable pub evaluate_candidate : EvaluationBackend → EvaluationRequest → Traced
  evaluate_candidate b r = after calls_source b.source_check (after_source b r)
