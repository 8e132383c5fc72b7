-- ===== src/Evaluation/Failures.antt =====
-- The result of a candidate that fails the source check.
use kernel_generation_china.Prelude.{
  ◌≡◌, refl, true, false, Option, none, [], ◌∷◌, ◌==◌, leb, if◌then◌else◌,
}
use kernel_generation_china.Prelude.Result.{Result, ok, ◌>>=◌}
use kernel_generation_china.Domain.Float.{Libm, zero_float}
use kernel_generation_china.Domain.Scoring.{CandidateScore, check_score, is_publicly_valid}
use kernel_generation_china.Domain.Scoring.Rewards.{
  RewardBreakdown, no_reward, compute_reward, default_reward,
}
use kernel_generation_china.Evaluation.Values.{Fields, Conversions}
use kernel_generation_china.Evaluation.Stages.{Stage, stage_dict, is_infrastructure}
use kernel_generation_china.Evaluation.Orchestrator.{
  EvaluationRequest, invalid, infra_retry, EvaluationResult, calls_source, EvaluationBackend,
  at_source, failed_score, failure_result,
}
use kernel_generation_china.Evaluation.Pipeline.{after_source, evaluate_candidate}

-- A block of two statements that return.
both_return :
    (first : Result CandidateScore) (second : CandidateScore → Result RewardBreakdown)
    (end : CandidateScore → RewardBreakdown → EvaluationResult) (s : CandidateScore)
    (w : RewardBreakdown)
    → first ≡ ok s
    → second s ≡ ok w
    → (first >>= λ s. second s >>= λ w. ok (end s w)) ≡ ok (end s w)
both_return first second end s w h k = rw (h, k) refl

module _ (m : Libm) (c : Conversions) (r : EvaluationRequest) where
  failed_checked :
      (compile correctness : Option Fields)
      → (r.candidate_id == 0) ≡ false
      → leb 1 r.round_number ≡ true
      → check_score (failed_score c r compile correctness)
        ≡ ok (failed_score c r compile correctness)
  unfolding check_score
  failed_checked compile correctness named counted = rw (named, counted) refl

  failed_reward :
      default_reward m (failed_score c r none none) ≡ ok (no_reward (failed_score c r none none))
  unfolding compute_reward is_publicly_valid
  failed_reward = refl

  source_failed :
      (source : Fields)
      → (r.candidate_id == 0) ≡ false
      → leb 1 r.round_number ≡ true
      → (x : EvaluationResult) × (failure_result m c r at_source source none none none ≡ ok x)
        × (x.overall_status ≡ (if is_infrastructure c source then infra_retry else invalid))
        × (x.source ≡ source)
        × (x.reward_vector.reward ≡ zero_float)
  unfolding failure_result no_reward
  source_failed source named counted = (
    _,
    both_return (check_score (failed_score c r none none)) (default_reward m) _
        (failed_score c r none none) (no_reward (failed_score c r none none))
        (failed_checked none none named counted) failed_reward,
    refl,
    refl,
    refl,
  )

  -- A source check that returns without passing ends the evaluation, for a request whose candidate
  -- is named and whose round is positive: no other stage is called, the evaluation returns a result
  -- with what the check reported and no reward, and its status asks for a retry exactly if the
  -- report names a failure of the infrastructure.
  pub source_failure_returns :
      (b : EvaluationBackend) (stage : Stage)
      → (r.candidate_id == 0) ≡ false
      → leb 1 r.round_number ≡ true
      → b.source_check ≡ ok stage
      → stage.passed ≡ false
      → (x : EvaluationResult) × (evaluate_candidate m c b r ≡ (calls_source ∷ [], ok x))
        × (x.overall_status
            ≡ (if is_infrastructure c (stage_dict stage) then infra_retry else invalid))
        × (x.source ≡ stage_dict stage)
        × (x.reward_vector.reward ≡ zero_float)
  unfolding evaluate_candidate after_source stage_dict
  source_failure_returns b stage named counted returned failed =
      let (x, is, status, source, reward) = source_failed (stage_dict stage) named counted in
      (x, rw (returned, failed, is) refl, status, source, reward)
