-- ===== src/Evaluation/Stages.antt =====
-- What evaluation/orchestrator.py reads out of the result of one stage: `_stage_dict`,
-- `_combined_stage`, `_passed`, `_infrastructure_failure`, `_stage_reason`, `_number` and the
-- projections of the candidate and of its performance.
use Prim.Native.String.{String}
use text.Mathlib.Text.{◌==◌ as str_eq}
use kernel_generation_china.Prelude.{
  Bool, false, ◌||◌, Option, none, some, List, [], ◌∷◌, if◌then◌else◌,
}
use kernel_generation_china.Prelude.Int.{pos}
use kernel_generation_china.Domain.Float.{Float, one, flt, fmax, Libm}
use kernel_generation_china.Domain.Scoring.{or_zero}
use kernel_generation_china.Evaluation.Values.{
  Value, null, string, mapping, Fields, Conversions, get, get_value, merge, is_truthy, or_else,
  to_str,
}

-- `StageLike`: the property `passed`, and what `to_dict` returns.
pub record Stage : Type 0 where
  pub passed : Bool
  pub to_dict : Fields

-- `{**value, **value["details"]}`, if the details are a mapping.
abbrev pub with_details : Fields → Value → Fields
with_details m (mapping details) = merge m details
with_details m _ = m

unfoldable pub stage_dict : Stage → Fields
stage_dict stage = with_details stage.to_dict (get_value "details" stage.to_dict)

unfoldable pub combined_stage : Value → Option Fields
combined_stage (mapping m) = some (with_details m (get_value "details" m))
combined_stage _ = none

abbrev pub passed_value : Conversions → Fields → Option Value → Bool
passed_value c m (some v) = is_truthy v
passed_value c m none = elim (get "status" m) [
  | some s ↦ str_eq (c.upper (to_str c s)) "PASS"
  | none ↦ str_eq (c.upper "") "PASS"
]

unfoldable pub passed : Conversions → Fields → Bool
passed c m = passed_value c m (get "passed" m)

-- `str(result.get("status", ""))`
abbrev pub status_text : Conversions → Option Value → String
status_text c none = ""
status_text c (some v) = to_str c v

unfoldable pub infrastructure_failure : Conversions → Fields → Bool
infrastructure_failure c m =
    let status = c.lower (status_text c (get "status" m)) in
    str_eq status "error" || str_eq status "timeout" || str_eq status "unavailable"

-- `value == "..."` for a value of any type.
abbrev pub is_text : String → Value → Bool
is_text s (string t) = str_eq t s
is_text s _ = false

-- `_infrastructure_failure(result) or result.get("failure_origin") == "infrastructure"`
unfoldable pub is_infrastructure : Conversions → Fields → Bool
unfolding infrastructure_failure
is_infrastructure c m =
    infrastructure_failure c m || is_text "infrastructure" (get_value "failure_origin" m)

abbrev pub plain_reason : Conversions → Fields → String → String
plain_reason c m fallback =
    to_str c
      (or_else (get_value "failure_type" m) (or_else (get_value "status" m) (string fallback)))

abbrev pub error_reason : Conversions → Fields → String → Value → String
error_reason c m fallback (mapping error) =
    if is_truthy (get_value "message" error)
    then to_str c (get_value "message" error)
    else plain_reason c m fallback
error_reason c m fallback _ = plain_reason c m fallback

unfoldable pub stage_reason : Conversions → Option Fields → String → String
stage_reason c none fallback = fallback
stage_reason c (some m) fallback = error_reason c m fallback (get_value "error" m)

-- The first of the keys with a value decides: its float, or none.
unfoldable pub first_number : Conversions → Fields → List String → Option Float
first_number c m [] = none
first_number c m (key ∷ keys) =
    let rest = first_number c m keys in elim (get_value key m) [ null ↦ rest | v ↦ c.to_float v ]

unfoldable pub read_number : Conversions → Option Fields → List String → Option Float
read_number c none keys = none
read_number c (some m) keys = first_number c m keys

pub data Verdict : Type 0 where
  pass fail not_run : Verdict

pub data CandidateStatus : Type 0 where
  valid_candidate invalid_candidate unevaluated : CandidateStatus

pub record CandidateProjection : Type 0 where
  pub source : Verdict
  pub compile : Verdict
  pub correctness : Verdict
  pub status : CandidateStatus
  pub reason : Option String

abbrev pub verdict : Conversions → Option Fields → Verdict
verdict c none = not_run
verdict c (some m) = if passed c m then pass else fail

unfoldable pub candidate_projection :
    Conversions
    → Fields
    → Option Fields
    → Option Fields
    → CandidateStatus
    → Option String
    → CandidateProjection
candidate_projection c source compile_result correctness status reason = record {
  source = verdict c (some source);
  compile = verdict c compile_result;
  correctness = verdict c correctness;
  status = status;
  reason = reason;
}

pub data Baseline : Type 0 where
  faster slower tie : Baseline

pub record Metrics : Type 0 where
  pub geomean_speedup : Float
  pub minimum_speedup : Float
  pub maximum_cv : Option Float
  pub measurement_stable : Value

pub data Performance : Type 0 where
  not_measured : Performance
  measured : Baseline → Metrics → Performance

abbrev pub geomean_keys : List String
geomean_keys = "geomean_speedup_vs_eager" ∷ "speedup_geomean" ∷ []

abbrev pub minimum_keys : List String
minimum_keys = "minimum_speedup_vs_eager" ∷ "minimum_speedup" ∷ []

abbrev pub stability_keys : List String
stability_keys = "maximum_cv" ∷ "stability_cv" ∷ []

-- 0.01
abbrev pub tie_tolerance : Float
tie_tolerance = pos 0x3F847AE147AE147B

unfoldable pub versus_baseline : Libm → Float → Float → Baseline
versus_baseline m geomean tolerance =
    if flt (m.add one tolerance) geomean
    then faster
    else if flt geomean (m.sub one tolerance)
    then slower
    else tie

abbrev pub stable_flag : Option Fields → Value
stable_flag none = null
stable_flag (some m) = get_value "measurement_stable" m

abbrev pub measured_metrics :
    Libm → Option Fields → Option Float → Option Float → Option Float → Performance
measured_metrics m benchmark (some geomean) (some minimum) stability =
    measured (versus_baseline m geomean (fmax tie_tolerance (or_zero stability))) (record {
      geomean_speedup = geomean;
      minimum_speedup = minimum;
      maximum_cv = stability;
      measurement_stable = stable_flag benchmark;
    })
measured_metrics m benchmark _ _ _ = not_measured

unfoldable pub performance_projection : Libm → Conversions → Option Fields → Bool → Performance
performance_projection m c benchmark is_measured =
    if is_measured
    then measured_metrics m benchmark (read_number c benchmark geomean_keys)
        (read_number c benchmark minimum_keys) (read_number c benchmark stability_keys)
    else not_measured
