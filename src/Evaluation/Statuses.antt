-- ===== src/Evaluation/Statuses.antt =====
-- The overall status of an evaluation, against its score, its infrastructure report and its reward.
use text.Mathlib.Text.{◌==◌ as str_eq}
use kernel_generation_china.Prelude.{◌≡◌, inl, inr, not, ◌||◌, Option, none, some, Bool-cases}
use kernel_generation_china.Prelude.Result.{ok}
use kernel_generation_china.Domain.Float.{Libm}
use kernel_generation_china.Evaluation.Values.{Fields, Conversions, get}
use kernel_generation_china.Evaluation.Stages.{Stage, stage_dict, is_infrastructure}
use kernel_generation_china.Evaluation.Orchestrator.{
  EvaluationRequest, EvaluationResult, calls_source, calls_compile, calls_correctness,
  calls_benchmark, calls_candidate, at_source, at_compile, at_correctness, has_passed,
  EvaluationBackend,
}
use kernel_generation_china.Evaluation.Pipeline.{
  correctness_input, benchmark_input, after_correctness, after_compile, separate_stages,
  outcome_text, combined_outcome, after_candidate, combined_stages, after_source,
  evaluate_candidate,
}
use kernel_generation_china.Evaluation.Consistency.{
  IsConsistent, Holds, after-Holds, failure-IsConsistent, profile-Holds,
}

module _ (m : Libm) where
  module _ (c : Conversions) (b : EvaluationBackend) (r : EvaluationRequest) (source : Fields) where
    correctness-Holds :
        (compile : Fields) (stage : Stage)
        → Holds m (after_correctness m c b r source compile stage)
    unfolding after_correctness stage_dict
    correctness-Holds compile stage = elim (Bool-cases stage.passed) [
      | inr failed ↦ rw failed (
          failure-IsConsistent m c r at_correctness source (some compile) (some (stage_dict stage))
            none)
      | inl good ↦ rw good (
          after-Holds m (calls_benchmark (benchmark_input m c b r source))
            (b.benchmark (benchmark_input m c b r source)) _
            (λ s.
              profile-Holds m c r source (some compile) (some (stage_dict stage))
                (some (stage_dict s)) s.passed b))
    ]

    compile-Holds : (stage : Stage) → Holds m (after_compile m c b r source stage)
    unfolding after_compile stage_dict
    compile-Holds stage = elim (Bool-cases stage.passed) [
      | inr failed ↦
          rw failed
            (failure-IsConsistent m c r at_compile source (some (stage_dict stage)) none none)
      | inl good ↦ rw good (
          after-Holds m (calls_correctness (correctness_input m c b r source))
            (b.check_correctness (correctness_input m c b r source)) _
            (correctness-Holds (stage_dict stage)))
    ]

    outcome-Holds :
        (result compile : Fields) (correctness benchmark : Option Fields)
        → Holds m (combined_outcome m c b r source result compile correctness benchmark)
    unfolding combined_outcome
    outcome-Holds result compile correctness benchmark =
        let outcome = outcome_text m c b r source (get "outcome" result) in
        let failure = failure-IsConsistent m c r in
        elim (Bool-cases (is_infrastructure c result)) [
          | inl failed ↦ rw failed (failure _ source (some compile) correctness benchmark)
          | inr fine ↦ rw fine (elim (Bool-cases (str_eq outcome "compile_failed")) [
            | inl failed ↦ rw failed (failure at_compile source (some compile) none none)
            | inr compiled ↦ rw compiled (elim (Bool-cases (str_eq outcome "correctness_failed")) [
              | inl failed ↦
                  rw failed (failure at_correctness source (some compile) correctness none)
              | inr correct ↦ rw correct (
                  profile-Holds m c r source (some compile) correctness benchmark
                    (has_passed c benchmark) b)
            ])
          ])
        ]

    separate-Holds : Holds m (separate_stages m c b r source)
    unfolding separate_stages
    separate-Holds =
        after-Holds m (calls_compile (correctness_input m c b r source))
          (b.compile (correctness_input m c b r source)) _ compile-Holds

    combined-Holds : Holds m (combined_stages m c b r source)
    unfolding combined_stages after_candidate
    combined-Holds =
        after-Holds m
          (calls_candidate (correctness_input m c b r source) (benchmark_input m c b r source))
          (b.candidate_evaluation (correctness_input m c b r source)
            (benchmark_input m c b r source))
          _ (λ s. outcome-Holds _ _ _ _)

  source-Holds :
      (c : Conversions) (b : EvaluationBackend) (r : EvaluationRequest) (stage : Stage)
      → Holds m (after_source m c b r stage)
  unfolding after_source stage_dict
  source-Holds c b r stage = elim (Bool-cases stage.passed) [
    | inr failed ↦
        rw failed (failure-IsConsistent m c r at_source (stage_dict stage) none none none)
    | inl good ↦ rw good (elim (Bool-cases (r.hidden || not r.combine_candidate_stages)) [
      | inl separate ↦ rw separate (separate-Holds c b r (stage_dict stage))
      | inr together ↦ rw together (combined-Holds c b r (stage_dict stage))
    ])
  ]

  -- Whatever the back end returns, an evaluation that returns reports the status valid exactly for
  -- a score that is publicly valid, and asks for a retry of the infrastructure exactly if the
  -- status says so; its reward is that of its score, and the score passes the tests of its
  -- constructor.
  pub evaluate-IsConsistent :
      (c : Conversions) (b : EvaluationBackend) (r : EvaluationRequest) (x : EvaluationResult)
      → (evaluate_candidate m c b r).1 ≡ ok x
      → IsConsistent m x
  unfolding evaluate_candidate
  evaluate-IsConsistent c b r = after-Holds m calls_source b.source_check _ (source-Holds c b r)
