-- ===== src/Evaluation/Gating.antt =====
-- Which stages an evaluation calls.
use Prim.Native.String.{String}
use text.Mathlib.Text.{◌==◌ as str_eq}
use kernel_generation_china.Prelude.{
  ◌≡◌, refl, ◌⊎◌, inl, inr, Bool, true, false, not, ◌||◌, Option, some, List, All, Bool-cases,
  arith,
}
use kernel_generation_china.Prelude.Result.{Result, ok, err}
use kernel_generation_china.Domain.Float.{Libm}
use kernel_generation_china.Evaluation.Values.{Fields, Conversions, get, get_value}
use kernel_generation_china.Evaluation.Stages.{Stage, stage_dict, combined_stage, is_infrastructure}
use kernel_generation_china.Evaluation.Orchestrator.{
  CaseSpec, EvaluationRequest, StageCall, calls_source, calls_compile, calls_correctness,
  calls_benchmark, calls_candidate, calls_profile, EvaluationBackend, cases_or, has_passed,
}
use kernel_generation_china.Evaluation.Pipeline.{
  Traced, after, wants_profile, profile_and_finish, outcome_text, after_correctness, after_compile,
  separate_stages, combined_outcome, after_candidate, combined_stages, after_source,
  evaluate_candidate,
}

-- The stage returned, and has passed.
abbrev pub Passed : Result Stage → Type 0
Passed x = (s : Stage) × (x ≡ ok s) × (s.passed ≡ true)

module _ (b : EvaluationBackend) (r : EvaluationRequest) where
  abbrev pub correctness_cases : List CaseSpec
  correctness_cases = cases_or r.correctness_cases r.task.correctness_cases

  abbrev pub benchmark_cases : List CaseSpec
  benchmark_cases = cases_or r.benchmark_cases r.task.benchmark_cases

  -- The stages run one by one, and compilation and correctness have passed.
  abbrev pub Checked : Type 0
  Checked =
      ((r.hidden || not r.combine_candidate_stages) ≡ true)
      × Passed (b.compile correctness_cases)
      × Passed (b.check_correctness correctness_cases)

  -- The combined stage has returned, without an infrastructure failure, and its benchmark has
  -- passed.
  abbrev pub Combined : Conversions → Type 0
  Combined c =
      (r.hidden ≡ false)
      × (r.combine_candidate_stages ≡ true)
      × ((s : Stage) × (b.candidate_evaluation correctness_cases benchmark_cases ≡ ok s)
          × (is_infrastructure c (stage_dict s) ≡ false)
          × (has_passed c (combined_stage (get_value "benchmark" (stage_dict s))) ≡ true))

  -- What has happened before a call, and the cases it is given.
  pub Gated : Conversions → StageCall → Type 0
  Gated c calls_source = Unit
  Gated c (calls_compile cs) =
      (cs ≡ correctness_cases)
      × ((r.hidden || not r.combine_candidate_stages) ≡ true)
      × Passed b.source_check
  Gated c (calls_correctness cs) =
      (cs ≡ correctness_cases)
      × ((r.hidden || not r.combine_candidate_stages) ≡ true)
      × Passed b.source_check
      × Passed (b.compile correctness_cases)
  Gated c (calls_benchmark cs) = (cs ≡ benchmark_cases) × Passed b.source_check × Checked
  Gated c (calls_candidate cs bs) =
      (cs ≡ correctness_cases)
      × (bs ≡ benchmark_cases)
      × (r.hidden ≡ false)
      × (r.combine_candidate_stages ≡ true)
      × Passed b.source_check
  Gated c (calls_profile cs) =
      (cs ≡ cases_or r.profile_cases r.task.profile_cases)
      × (r.run_profile ≡ true)
      × Passed b.source_check
      × ((Checked × Passed (b.benchmark benchmark_cases)) ⊎ Combined c)

module _ (m : Libm) (c : Conversions) (b : EvaluationBackend) (r : EvaluationRequest) where
  abbrev IsGated : Traced → Type 0
  IsGated t = All (Gated b r c) t.0

  after-Gated :
      (call : StageCall) (result : Result Stage) (next : Stage → Traced)
      → Gated b r c call
      → ((s : Stage) → result ≡ ok s → IsGated (next s))
      → IsGated (after call result next)
  after-Gated call (err e) next h k = (h, tt)
  after-Gated call (ok s) next h k = (h, k s refl)

  module _ (sourced : Passed b.source_check) (source : Fields) where
    profile-Gated :
        (compile correctness benchmark : Option Fields) (passed : Bool)
        → (passed ≡ true
            → (Checked b r × Passed (b.benchmark (benchmark_cases b r))) ⊎ Combined b r c)
        → IsGated (profile_and_finish m c r source compile correctness benchmark passed b)
    unfolding profile_and_finish Gated
    profile-Gated compile correctness benchmark passed h =
        elim (Bool-cases (wants_profile m c r source compile correctness benchmark passed)) [
          | inr no_profile ↦ rw no_profile tt
          | inl wanted ↦ rw wanted (
              after-Gated (calls_profile (cases_or r.profile_cases r.task.profile_cases))
                (b.profile (cases_or r.profile_cases r.task.profile_cases)) _
                (refl, ground arith, sourced, h (ground arith)) (λ s e. tt))
        ]

    -- The stages one by one.
    module _ (separate : (r.hidden || not r.combine_candidate_stages) ≡ true) where
      after_correctness-Gated :
          (compile : Fields) (stage : Stage)
          → Passed (b.compile (correctness_cases b r))
          → b.check_correctness (correctness_cases b r) ≡ ok stage
          → IsGated (after_correctness m c b r source compile stage)
      unfolding after_correctness Gated stage_dict
      after_correctness-Gated compile stage compiled e = elim (Bool-cases stage.passed) [
        | inr failed ↦ rw failed tt
        | inl good ↦
            let checked : Checked b r = (separate, compiled, (stage, e, good)) in
            rw good (
              after-Gated (calls_benchmark (benchmark_cases b r))
                (b.benchmark (benchmark_cases b r)) _ (refl, sourced, checked)
                (λ s h.
                  profile-Gated (some compile) (some (stage_dict stage)) (some (stage_dict s))
                    s.passed (λ p. inl (checked, (s, h, p)))))
      ]

      after_compile-Gated :
          (stage : Stage)
          → b.compile (correctness_cases b r) ≡ ok stage
          → IsGated (after_compile m c b r source stage)
      unfolding after_compile Gated stage_dict
      after_compile-Gated stage e = elim (Bool-cases stage.passed) [
        | inr failed ↦ rw failed tt
        | inl good ↦ rw good (
            after-Gated (calls_correctness (correctness_cases b r))
              (b.check_correctness (correctness_cases b r)) _
              (refl, separate, sourced, (stage, e, good))
              (λ s h. after_correctness-Gated (stage_dict stage) s (stage, e, good) h))
      ]

      separate-Gated : IsGated (separate_stages m c b r source)
      unfolding separate_stages Gated
      separate-Gated =
          after-Gated (calls_compile (correctness_cases b r)) (b.compile (correctness_cases b r)) _
            (refl, separate, sourced) after_compile-Gated

    -- The combined stage.
    module _ (public : r.hidden ≡ false) (combined : r.combine_candidate_stages ≡ true) where
      abbrev outcome : Fields → String
      outcome result = outcome_text m c b r source (get "outcome" result)

      outcome-Gated :
          (result compile : Fields) (correctness benchmark : Option Fields)
          → ((is_infrastructure c result ≡ false) → has_passed c benchmark ≡ true → Combined b r c)
          → IsGated (combined_outcome m c b r source result compile correctness benchmark)
      unfolding combined_outcome
      outcome-Gated result compile correctness benchmark h =
          let end = profile-Gated (some compile) correctness benchmark (has_passed c benchmark) in
          elim (Bool-cases (is_infrastructure c result)) [
            | inl failed ↦ rw failed tt
            | inr fine ↦ rw fine (elim (Bool-cases (str_eq (outcome result) "compile_failed")) [
              | inl failed ↦ rw failed tt
              | inr compiled ↦
                  rw compiled (elim (Bool-cases (str_eq (outcome result) "correctness_failed")) [
                    | inl failed ↦ rw failed tt
                    | inr correct ↦ rw correct (end (λ p. inr (h fine p)))
                  ])
            ])
          ]

      combined-Gated : IsGated (combined_stages m c b r source)
      unfolding combined_stages after_candidate Gated
      combined-Gated =
          after-Gated (calls_candidate (correctness_cases b r) (benchmark_cases b r))
            (b.candidate_evaluation (correctness_cases b r) (benchmark_cases b r)) _
            (refl, refl, public, combined, sourced)
            (λ s e.
              outcome-Gated (stage_dict s) _
                (combined_stage (get_value "correctness" (stage_dict s)))
                (combined_stage (get_value "benchmark" (stage_dict s)))
                (λ fine p. (public, combined, (s, e, fine, p))))

  source-Gated : (stage : Stage) → b.source_check ≡ ok stage → IsGated (after_source m c b r stage)
  unfolding after_source stage_dict
  source-Gated stage e = elim (Bool-cases stage.passed) [
    | inr failed ↦ rw failed tt
    | inl good ↦
        let sourced : Passed b.source_check = (stage, e, good) in
        rw good (elim (Bool-cases (r.hidden || not r.combine_candidate_stages)) [
          | inl separate ↦ rw separate (separate-Gated sourced (stage_dict stage) separate)
          | inr together ↦
              rw together (combined-Gated sourced (stage_dict stage) (ground arith) (ground arith))
        ])
  ]

  -- The back end is called on a stage only after the stages before it have passed: the source check
  -- first; then, one by one, compilation, the correctness cases and the benchmark cases, or, if the
  -- request asks for it and is not hidden, the combined stage; the profile only if the request
  -- wants one, after a benchmark that passed. Each is called on the cases of the request, or those
  -- of the task where it names none.
  pub evaluate-Gated : All (Gated b r c) (evaluate_candidate m c b r).0
  unfolding evaluate_candidate Gated
  evaluate-Gated = after-Gated calls_source b.source_check _ tt source-Gated
