-- ===== src/Evaluation/Attribution.antt =====
-- `_profile_summary`, `_profile_attribution` and `_search_profile_selected` of
-- evaluation/orchestrator.py.
use kernel_generation_china.Prelude.{
  ℕ, suc, Bool, true, false, ◌&&◌, ◌||◌, Option, none, some, [], ◌∷◌, if◌then◌else◌,
}
use kernel_generation_china.Prelude.Int.{ℤ, pos, negsuc}
use kernel_generation_china.Prelude.Result.{Result, ok, ◌>>=◌}
use kernel_generation_china.Domain.Float.{Float, zero_float, one, neg, flt, fle, fmax, Libm}
use kernel_generation_china.Domain.Scoring.{or_zero}
use kernel_generation_china.Evaluation.Values.{
  Value, null, string, mapping, Fields, empty, Conversions, get_value, is_truthy, or_else,
}
use kernel_generation_china.Evaluation.Stages.{passed, read_number, tie_tolerance}

abbrev pub summary_of : Fields → Value → Fields
summary_of profile (mapping m) = m
summary_of profile _ = profile

unfoldable pub profile_summary : Option Fields → Fields
profile_summary none = empty
profile_summary (some profile) = summary_of profile (get_value "summary" profile)

pub data AttributionStatus : Type 0 where
  verified partial unavailable : AttributionStatus

pub record Attribution : Type 0 where
  pub passed : Bool
  pub status : AttributionStatus
  pub candidate_kernel_coverage : Option Float
  pub minimum_verified_coverage : Float
  pub kernel_count : ℤ
  pub reason : Value

-- `n >= 1` and `n == 0`
abbrev pub at_least_one : ℤ → Bool
at_least_one (pos ℕ.zero) = false
at_least_one (pos (suc n)) = true
at_least_one (negsuc n) = false

abbrev pub is_zero : ℤ → Bool
is_zero (pos ℕ.zero) = true
is_zero _ = false

-- `int(summary.get("kernel_count", 0) or 0)`
abbrev pub kernel_count : Conversions → Fields → Result ℤ
kernel_count c summary =
    if is_truthy (get_value "kernel_count" summary)
    then c.to_int (get_value "kernel_count" summary)
    else ok (pos 0)

abbrev pub covers : Float → Option Float → Bool
covers least none = false
covers least (some coverage) = fle least coverage

abbrev pub is_covered : Option Float → Bool
is_covered none = false
is_covered (some coverage) = flt zero_float coverage

abbrev pub profile_passed : Conversions → Option Fields → Bool
profile_passed c none = false
profile_passed c (some profile) = passed c profile

abbrev pub attribution_status : Bool → ℤ → Option Float → AttributionStatus
attribution_status true count coverage = verified
attribution_status false count coverage =
    if at_least_one count || is_covered coverage then partial else unavailable

-- The reason, by the branches of the code in their order.
abbrev pub unavailable_reason : Fields → AttributionStatus → Value
unavailable_reason profile unavailable =
    or_else (get_value "unavailable_reason" profile) (get_value "status" profile)
unavailable_reason profile _ = null

abbrev pub unmatched_reason : Conversions → Fields → ℤ → AttributionStatus → Value
unmatched_reason c profile count status =
    if passed c profile && is_zero count
    then string "kernel_name_not_matched"
    else unavailable_reason profile status

abbrev pub attribution_reason : Conversions → Option Fields → ℤ → AttributionStatus → Value
attribution_reason c none count status = string "profile_not_run"
attribution_reason c (some profile) count partial = string "incomplete_kernel_attribution"
attribution_reason c (some profile) count status = unmatched_reason c profile count status

unfoldable pub attribution_of : Conversions → Option Fields → Float → Option Float → ℤ → Attribution
attribution_of c profile least coverage count =
    let is_verified = profile_passed c profile && at_least_one count && covers least coverage in
    let status = attribution_status is_verified count coverage in
    record {
      passed = is_verified;
      status = status;
      candidate_kernel_coverage = coverage;
      minimum_verified_coverage = least;
      kernel_count = count;
      reason = attribution_reason c profile count status;
    }

unfoldable pub profile_attribution : Conversions → Option Fields → Float → Result Attribution
profile_attribution c profile least = do
  count ← kernel_count c (profile_summary profile)
  let coverage = read_number c (some (profile_summary profile)) ("candidate_kernel_coverage" ∷ [])
  ok (attribution_of c profile least coverage count)

-- `geomean - 1.0 > tolerance and minimum - 1.0 >= -tolerance`
abbrev pub beats : Libm → Float → Option Float → Option Float → Bool
beats m tolerance (some geomean) (some minimum) =
    flt tolerance (m.sub geomean one) && fle (neg tolerance) (m.sub minimum one)
beats m tolerance _ _ = false

abbrev pub paired_selected : Libm → Conversions → Value → Bool
paired_selected m c (mapping paired) =
    beats m (fmax tie_tolerance (or_zero (read_number c (some paired) ("maximum_cv" ∷ []))))
      (read_number c (some paired) ("geomean_speedup_vs_best" ∷ []))
      (read_number c (some paired) ("minimum_speedup_vs_best" ∷ []))
paired_selected m c _ = false

-- `has_incumbent` is `incumbent_path is not None`.
unfoldable pub search_profile_selected : Libm → Conversions → Option Fields → Bool → Bool
search_profile_selected m c benchmark false = true
search_profile_selected m c none true = false
search_profile_selected m c (some benchmark) true =
    paired_selected m c (get_value "paired_best_comparison" benchmark)
