-- ===== src/Evaluation/Consistency.antt =====
-- The results of `_failure_result` and of the end of `evaluate_candidate`, and what they have in
-- common.
use kernel_generation_china.Prelude.{
  ◌≡◌, refl, sym, ap, ◌∙◌, subst, inl, inr, Bool, true, false, ◌&&◌, Option, none, some, ◌↔◌,
  Bool-cases, arith, if◌then◌else◌,
}
use kernel_generation_china.Prelude.Result.{Result, ok, err, >>=-eq-ok}
use kernel_generation_china.Domain.Float.{Float, Libm}
use kernel_generation_china.Domain.Scoring.{CandidateScore, check_score, is_publicly_valid, is_some}
use kernel_generation_china.Domain.Scoring.Rewards.{default_reward}
use kernel_generation_china.Evaluation.Values.{Fields, Conversions}
use kernel_generation_china.Evaluation.Stages.{
  Stage, stage_dict, Performance, not_measured, measured, geomean_keys, minimum_keys,
  stability_keys, read_number, measured_metrics, performance_projection,
}
use kernel_generation_china.Evaluation.Attribution.{profile_attribution}
use kernel_generation_china.Evaluation.Orchestrator.{
  EvaluationRequest, valid, invalid, infra_retry, EvaluationResult, StageCall, calls_profile,
  cases_or, EvaluationBackend, FailureStage, stage_result, infrastructure_of, failed_score,
  failure_result,
}
use kernel_generation_china.Evaluation.Pipeline.{
  Traced, after, judge, measured_score, judged_result, wants_profile, finish, profile_and_finish,
}

module _ (m : Libm) where
  -- The status is valid exactly for a score that is publicly valid; the infrastructure is reported
  -- as to be retried exactly if the status says so; the reward is that of the score, which has
  -- passed its constructor's tests.
  pub record IsConsistent (x : EvaluationResult) : Type 0 where
    pub scored : (x.overall_status ≡ valid) ↔ (is_publicly_valid x.score ≡ true)
    pub retried : (x.infrastructure.retry ≡ true) ↔ (x.overall_status ≡ infra_retry)
    pub rewarded : default_reward m x.score ≡ ok x.reward_vector
    pub checked : check_score x.score ≡ ok x.score

  ok_path : (a x : EvaluationResult) → ok a ≡ ok x → a ≡ x
  ok_path a x h = ground arith

  -- What holds of the result, if there is one.
  abbrev pub Holds : Traced → Type 0
  Holds t = (x : EvaluationResult) → t.1 ≡ ok x → IsConsistent x

  pub after-Holds :
      (call : StageCall) (result : Result Stage) (next : Stage → Traced)
      → ((s : Stage) → Holds (next s))
      → Holds (after call result next)
  after-Holds call (err e) next k x h = cc
  after-Holds call (ok s) next k x h = k s x h

  check_score_same : (s t : CandidateScore) → check_score s ≡ ok t → t ≡ s
  unfolding check_score
  check_score_same s t h = ground arith

  never_valid : (b : Bool) → ¬ ((if b then infra_retry else invalid) ≡ valid)
  never_valid true h = cc
  never_valid false h = cc

  retry_iff : (b : Bool) → (b ≡ true) ↔ ((if b then infra_retry else invalid) ≡ infra_retry)
  retry_iff true = (λ h. refl, λ h. refl)
  retry_iff false = (λ h. cc, λ h. cc)

  failed-IsConsistent :
      (x : EvaluationResult) (failure : Bool)
      → x.overall_status ≡ (if failure then infra_retry else invalid)
      → x.infrastructure.retry ≡ failure
      → is_publicly_valid x.score ≡ false
      → default_reward m x.score ≡ ok x.reward_vector
      → check_score x.score ≡ ok x.score
      → IsConsistent x
  failed-IsConsistent x failure st rt not_valid rewarded checked = record {
    scored = (λ h. absurd (never_valid failure (sym st ∙ h)), λ h. cc);
    retried = (
      λ h. st ∙ (retry_iff failure).0 (sym rt ∙ h),
      λ h. rt ∙ (retry_iff failure).1 (sym st ∙ h),
    );
    rewarded = rewarded;
    checked = checked;
  }

  module _ (c : Conversions) (r : EvaluationRequest) where
    failed_invalid :
        (compile correctness : Option Fields)
        → is_publicly_valid (failed_score c r compile correctness) ≡ false
    unfolding is_publicly_valid
    failed_invalid compile correctness = ground arith

    pub failure-IsConsistent :
        (stage : FailureStage) (source : Fields) (compile correctness benchmark : Option Fields)
        (x : EvaluationResult)
        → failure_result m c r stage source compile correctness benchmark ≡ ok x
        → IsConsistent x
    unfolding failure_result
    failure-IsConsistent stage source compile correctness benchmark x h =
        let failed : CandidateScore = failed_score c r compile correctness in
        let (score, checked, h1) = >>=-eq-ok (check_score failed) _ h in
        let (reward, rewarded, h2) = >>=-eq-ok (default_reward m score) _ h1 in
        let same : score ≡ failed = check_score_same failed score checked in
        let x_status : x.overall_status ≡ (
            if infrastructure_of c (stage_result stage source compile correctness benchmark)
            then infra_retry
            else invalid) =
          ground arith in
        let x_retry : x.infrastructure.retry
            ≡ infrastructure_of c (stage_result stage source compile correctness benchmark) =
          ground arith in
        let x_score : x.score ≡ score = ground arith in
        let x_reward : x.reward_vector ≡ reward = ground arith in
        failed-IsConsistent x
          (infrastructure_of c (stage_result stage source compile correctness benchmark)) x_status
          x_retry (ap is_publicly_valid (x_score ∙ same) ∙ failed_invalid compile correctness)
          (ap (default_reward m) x_score ∙ rewarded ∙ ap ok (sym x_reward))
          (ap check_score (x_score ∙ same) ∙ checked ∙ ap ok (sym x_score))

    -- The judgement of a measured candidate, for the numbers of its benchmark.
    judged_valid :
        (b : Option Fields) (p : Bool) (g n v : Option Float)
        → ((judge m c b p (if p then measured_metrics m b g n v else not_measured)).overall ≡ valid)
          ↔ ((is_some (if p then n else none) && is_some (if p then g else none)) ≡ true)
    judged_valid b false g n v = (λ h. absurd (never_valid (infrastructure_of c b) h), λ h. cc)
    judged_valid b true none n v = (λ h. cc, λ h. ground arith)
    judged_valid b true (some g) none v = (λ h. cc, λ h. cc)
    judged_valid b true (some g) (some n) v = (λ h. refl, λ h. refl)

    judged_retry :
        (b : Option Fields) (p : Bool) (q : Performance)
        → ((judge m c b p q).infrastructure_failure ≡ true)
          ↔ ((judge m c b p q).overall ≡ infra_retry)
    judged_retry b false q = retry_iff (infrastructure_of c b)
    judged_retry b true not_measured = (λ h. refl, λ h. refl)
    judged_retry b true (measured v w) = (λ h. cc, λ h. cc)

    module _ (source : Fields) (compile correctness benchmark : Option Fields) (p : Bool) where
      finish-IsConsistent :
          (profile : Option Fields) (x : EvaluationResult)
          → finish m c r source compile correctness benchmark p profile ≡ ok x
          → IsConsistent x
      unfolding finish performance_projection is_publicly_valid
      finish-IsConsistent profile x h =
          let (a, attributed, h1) =
            >>=-eq-ok (profile_attribution c profile r.minimum_kernel_coverage) _ h in
          let made : CandidateScore = measured_score m c r benchmark p a in
          let (score, checked, h2) = >>=-eq-ok (check_score made) _ h1 in
          let (reward, rewarded, h3) = >>=-eq-ok (default_reward m score) _ h2 in
          let same : score ≡ made = check_score_same made score checked in
          let g = read_number c benchmark geomean_keys in
          let n = read_number c benchmark minimum_keys in
          let v = read_number c benchmark stability_keys in
          let performance : Performance =
            if p then measured_metrics m benchmark g n v else not_measured in
          let end : judged_result m c r source compile correctness benchmark p profile a score
                reward performance (judge m c benchmark p performance)
              ≡ x =
            ok_path _ x h3 in
          subst IsConsistent end (record {
            scored =
                subst
                  (λ z.
                    ((judge m c benchmark p performance).overall ≡ valid)
                    ↔ (is_publicly_valid z ≡ true))
                  (sym same) (judged_valid benchmark p g n v);
            retried = judged_retry benchmark p performance;
            rewarded = rewarded;
            checked = ap check_score same ∙ checked;
          })

      pub profile-Holds :
          (b : EvaluationBackend)
          → Holds (profile_and_finish m c r source compile correctness benchmark p b)
      unfolding profile_and_finish
      profile-Holds b =
          elim (Bool-cases (wants_profile m c r source compile correctness benchmark p)) [
            | inr unwanted ↦ rw unwanted (finish-IsConsistent none)
            | inl wanted ↦ rw wanted (
                after-Holds (calls_profile (cases_or r.profile_cases r.task.profile_cases))
                  (b.profile (cases_or r.profile_cases r.task.profile_cases)) _
                  (λ stage. finish-IsConsistent (some (stage_dict stage))))
          ]
