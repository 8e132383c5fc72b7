-- ===== src/Evaluation/Samples.antt =====
-- A back end whose stages pass, and one whose source check fails.
use kernel_generation_china.Prelude.{
  ◌≡◌, refl, Bool, true, false, Option, none, some, [], ◌∷◌, All, if◌then◌else◌,
}
use kernel_generation_china.Prelude.Int.{pos}
use kernel_generation_china.Prelude.Result.{ok}
use kernel_generation_china.Domain.Float.{Float, zero_float, one, two, Libm}
use kernel_generation_china.Domain.Scoring.{check_score, is_publicly_valid}
use kernel_generation_china.Domain.Scoring.Rewards.{
  measured_reward, valid_reward, compute_reward, maximum_stable_cv, stability_penalty_scale,
}
use kernel_generation_china.Evaluation.Values.{
  Value, number, string, Fields, empty, field, Conversions, get, merge,
}
use kernel_generation_china.Evaluation.Stages.{
  Stage, stage_dict, is_infrastructure, passed, first_number, read_number, candidate_projection,
  versus_baseline, performance_projection,
}
use kernel_generation_china.Evaluation.Attribution.{
  attribution_of, profile_summary, profile_attribution,
}
use kernel_generation_china.Evaluation.Orchestrator.{
  EvaluationRequest, EvaluationResult, invalid, infra_retry, calls_source, EvaluationBackend,
}
use kernel_generation_china.Evaluation.Pipeline.{
  judge, measured_score, judged_result, finish, profile_and_finish, after_correctness,
  after_compile, separate_stages, after_source, evaluate_candidate,
}
use kernel_generation_china.Evaluation.Gating.{Gated, evaluate-Gated}
use kernel_generation_china.Evaluation.Statuses.{evaluate-IsConsistent}
use kernel_generation_china.Evaluation.Consistency.{IsConsistent}
use kernel_generation_china.Evaluation.Failures.{source_failure_returns}

abbrev libm : Libm
libm = record {
  add = λ a b. b;
  sub = λ a b. a;
  mul = λ a b. a;
  div = λ a b. a;
  log = λ a. a;
  log2 = λ a. one;
  exp = λ a. two;
  fsum = λ xs. one;
}

abbrev float_of : Value → Option Float
float_of (number x) = some x
float_of _ = none

-- On texts without letters to change.
abbrev conversions : Conversions
conversions = record {
  str = λ v. "";
  to_float = float_of;
  to_int = λ v. ok (pos 1);
  lower = λ s. s;
  upper = λ s. s;
}

abbrev report : Fields
report = field "status" (string "PASS") empty

abbrev figures : Fields
figures =
    field "geomean_speedup_vs_eager" (number two)
      (field "minimum_speedup_vs_eager" (number one) report)

abbrev stage : Bool → Fields → Stage
stage b fields = record { passed = b; to_dict = fields }

abbrev backend : Bool → EvaluationBackend
backend b = record {
  source_check = ok (stage b report);
  compile = λ cs. ok (stage true report);
  check_correctness = λ cs. ok (stage true report);
  benchmark = λ cs. ok (stage true figures);
  candidate_evaluation = λ cs bs. ok (stage true report);
  profile = λ cs. ok (stage true report);
}

abbrev request : EvaluationRequest
request = record {
  experiment_id = 1;
  task = record {
    id = 2;
    correctness_cases = 1 ∷ 2 ∷ [];
    benchmark_cases = 3 ∷ [];
    profile_cases = 4 ∷ [];
  };
  round_number = 1;
  candidate_id = 9;
  correctness_cases = none;
  benchmark_cases = none;
  profile_cases = none;
  has_incumbent = false;
  combine_candidate_stages = false;
  run_profile = false;
  search_profile_policy = false;
  minimum_kernel_coverage = one;
  hidden = false;
}

evaluate-Gated_example :
    All
      (Gated (backend true) request conversions)
      (evaluate_candidate libm conversions (backend true) request).0
evaluate-Gated_example = evaluate-Gated libm conversions (backend true) request

abbrev result : EvaluationResult
result =
    let attribution = attribution_of conversions none one none (pos 0) in
    let score = measured_score libm conversions request (some figures) true attribution in
    let performance = performance_projection libm conversions (some figures) true in
    judged_result libm conversions request report (some report) (some report) (some figures) true
      none attribution score
      (measured_reward libm maximum_stable_cv stability_penalty_scale score two) performance
      (judge libm conversions (some figures) true performance)

evaluates : (evaluate_candidate libm conversions (backend true) request).1 ≡ ok result
unfolding evaluate_candidate after_source separate_stages after_compile after_correctness
    profile_and_finish finish profile_attribution attribution_of profile_summary stage_dict get
    merge first_number read_number performance_projection versus_baseline candidate_projection
    passed check_score compute_reward valid_reward measured_reward is_publicly_valid
evaluates = refl

evaluate-IsConsistent_example : IsConsistent libm result
evaluate-IsConsistent_example =
    evaluate-IsConsistent libm conversions (backend true) request result evaluates

source_failure_returns_example :
    (x : EvaluationResult) × (evaluate_candidate libm conversions (backend false) request
      ≡ (calls_source ∷ [], ok x))
    × (x.overall_status ≡ (
        if is_infrastructure conversions (stage_dict (stage false report))
        then infra_retry
        else invalid))
    × (x.source ≡ stage_dict (stage false report))
    × (x.reward_vector.reward ≡ zero_float)
source_failure_returns_example =
    source_failure_returns libm conversions request (backend false) (stage false report) refl refl
      refl refl
