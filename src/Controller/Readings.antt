-- ===== src/Controller/Readings.antt =====
-- `_passed_stage`, `_finite_positive_number`, `_candidate_failed`, `_model_unevaluated`,
-- `_infrastructure_retry`, `_online_public_comparison` and `_final_gate_status` of
-- orchestration/controller.py: what the controller makes of an evaluation that is stored as JSON.
use Prim.Native.String.{String}
use text.Mathlib.Text.{◌==◌ as str_eq}
use mathlib.Core.Option
use kernel_generation_china.Prelude.{
  Bool, true, false, not, ◌&&◌, ◌||◌, Option, none, some, if◌then◌else◌,
}
use kernel_generation_china.Prelude.Result.{Result, ok, value_error, or_raise, ◌>>=◌}
use kernel_generation_china.Domain.Float.{Float, zero_float, one, flt, is_finite, fmax, Libm}
use kernel_generation_china.Domain.Scoring.{
  CandidateScore, Decision, invalid, initial_best, PublicCandidateComparison, classify,
  compare_public_candidate,
}
use kernel_generation_china.Evaluation.Values.{
  Value, null, number, string, mapping, Fields, Conversions, get, get_value, is_truthy, or_else,
  to_str,
}
use kernel_generation_china.Evaluation.Stages.{status_text, is_infrastructure, tie_tolerance}

pub data GateStatus : Type 0 where
  failed_final_infrastructure failed_hidden_correctness failed_final_benchmark : GateStatus
  gate_passed passed_profile_unverified : GateStatus

module _ (c : Conversions) where
  abbrev pub lower_status : Fields → String
  lower_status m = c.lower (status_text c (get "status" m))

  abbrev pub upper_status : Fields → String
  upper_status m = c.upper (status_text c (get "status" m))

  unfoldable pub passed_stage : Value → Bool
  passed_stage (mapping m) = is_truthy (get_value "passed" m) || str_eq (lower_status m) "pass"
  passed_stage _ = false

  abbrev pub is_finite_positive : Option Float → Bool
  is_finite_positive none = false
  is_finite_positive (some x) = flt zero_float x && is_finite x

  unfoldable pub finite_positive_number : Value → Bool
  finite_positive_number v = is_finite_positive (c.to_float v)

  abbrev pub failed_mapping : Value → Bool
  failed_mapping (mapping m) = not (passed_stage (mapping m))
  failed_mapping _ = false

  abbrev pub model_failed : Value → Bool
  model_failed (mapping source) = str_eq (lower_status source) "model_failed"
  model_failed _ = false

  abbrev pub legacy_failed : Fields → Bool
  legacy_failed evaluation =
      not (model_failed (get_value "source" evaluation))
      && (failed_mapping (get_value "source" evaluation)
          || failed_mapping (get_value "compile" evaluation)
          || failed_mapping (get_value "correctness" evaluation))

  -- By the projection of the candidate; an older evaluation, without one, by its stages.
  abbrev pub failed_by : Fields → Value → Bool
  failed_by evaluation (mapping candidate) = str_eq (upper_status candidate) "INVALID"
  failed_by evaluation _ = legacy_failed evaluation

  unfoldable pub candidate_failed : Fields → Bool
  candidate_failed evaluation = failed_by evaluation (get_value "candidate" evaluation)

  unfoldable pub model_unevaluated : Fields → Bool
  model_unevaluated evaluation =
      str_eq (c.upper (status_text c (get "overall_status" evaluation))) "UNEVALUATED"
      || model_failed (get_value "source" evaluation)

  abbrev pub retry_reported : Value → Bool
  retry_reported (mapping infrastructure) = str_eq (upper_status infrastructure) "RETRY"
  retry_reported _ = false

  abbrev pub stage_infrastructure : Value → Bool
  stage_infrastructure (mapping m) = is_infrastructure c m
  stage_infrastructure _ = false

  unfoldable pub infrastructure_retry : Fields → Bool
  infrastructure_retry evaluation =
      retry_reported (get_value "infrastructure" evaluation)
      || stage_infrastructure (get_value "source" evaluation)
      || stage_infrastructure (get_value "compile" evaluation)
      || stage_infrastructure (get_value "correctness" evaluation)
      || stage_infrastructure (get_value "benchmark" evaluation)

  -- `float(str(value))`
  abbrev pub float_of_text : Value → Result Float
  float_of_text v = or_raise (c.to_float (string (to_str c v))) value_error

  module _ (m : Libm) where
    abbrev pub is_settled : Decision → Bool
    is_settled invalid = true
    is_settled initial_best = true
    is_settled _ = false

    -- The comparison by the paired measurement, once both speedups are finite and positive.
    unfoldable pub paired_comparison : Fields → Result PublicCandidateComparison
    paired_comparison paired = do
      geomean ← float_of_text (get_value "geomean_speedup_vs_best" paired)
      minimum ← float_of_text (get_value "minimum_speedup_vs_best" paired)
      cv ← float_of_text (or_else (get_value "maximum_cv" paired) (number zero_float))
      let tolerance = fmax tie_tolerance cv
      let geomean_change = m.sub geomean one
      let minimum_change = m.sub minimum one
      ok (record {
        decision = classify tolerance geomean_change minimum_change;
        tolerance_fraction = tolerance;
        geomean_change_fraction = some geomean_change;
        minimum_change_fraction = some minimum_change;
      })

    abbrev pub paired_or : PublicCandidateComparison → Value → Result PublicCandidateComparison
    paired_or fallback (mapping paired) =
        if finite_positive_number (get_value "geomean_speedup_vs_best" paired)
          && finite_positive_number (get_value "minimum_speedup_vs_best" paired)
        then paired_comparison paired
        else ok fallback
    paired_or fallback _ = ok fallback

    abbrev pub paired_of : Value → Value
    paired_of (mapping benchmark) = get_value "paired_best_comparison" benchmark
    paired_of _ = null

    unfoldable pub online_public_comparison :
        Fields → CandidateScore → Option CandidateScore → Result PublicCandidateComparison
    online_public_comparison evaluation candidate incumbent = do
      fallback ← compare_public_candidate m tie_tolerance candidate incumbent
      (if is_settled fallback.decision
          then ok fallback
          else paired_or fallback (paired_of (get_value "benchmark" evaluation)))

  -- `m.get(key, m.get(other))`
  abbrev pub get_either : String → String → Fields → Value
  get_either key other m = Option.get_or (get key m) (get_value other m)

  abbrev pub has_speedups : Value → Bool
  has_speedups (mapping benchmark) =
      finite_positive_number (get_either "geomean_speedup_vs_eager" "speedup_geomean" benchmark)
      && finite_positive_number (get_either "minimum_speedup_vs_eager" "minimum_speedup" benchmark)
  has_speedups _ = false

  abbrev pub is_verified : Value → Bool
  is_verified (mapping attribution) =
      str_eq (upper_status attribution) "VERIFIED" || passed_stage (mapping attribution)
  is_verified _ = false

  unfoldable pub final_gate_status : Fields → Bool → GateStatus × Bool
  final_gate_status evaluation profile_coverage_required =
      let correctness = get_value "correctness" evaluation in
      let benchmark = get_value "benchmark" evaluation in
      if infrastructure_retry evaluation
      then (failed_final_infrastructure, passed_stage correctness)
      else if not (passed_stage correctness)
      then (failed_hidden_correctness, false)
      else if not (passed_stage benchmark)
      then (failed_final_benchmark, true)
      else if not (has_speedups benchmark)
      then (failed_final_benchmark, true)
      else if not profile_coverage_required
      then (gate_passed, true)
      else if not (is_verified (get_either "attribution" "anti_bypass" evaluation))
      then (passed_profile_unverified, true)
      else (gate_passed, true)
