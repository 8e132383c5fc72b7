-- ===== src/Domain/Scoring.antt =====
-- src/ascend_kernel_lab/domain/scoring.py, with BenchmarkSample and CandidateScore of
-- domain/models.py.
pub mod Ranking
pub mod Selection
pub mod Aggregation
pub mod Rewards
mod Samples
use mathlib.Core.Option
use kernel_generation_china.Prelude.{
  ℕ, ◌+◌, Bool, true, false, not, ◌&&◌, ◌||◌, Option, none, some, List, [], ◌∷◌, map, leb, ltb,
  ◌==◌, then_by, compare, if◌then◌else◌,
}
use kernel_generation_china.Prelude.Int.{ℤ, pos, negsuc, compare_ℤ}
use kernel_generation_china.Prelude.Table.{select_all, order_by}
use kernel_generation_china.Prelude.Result.{
  Result, ok, err, value_error, assertion_error, require, or_raise, ◌>>=◌, ◌>>◌,
}
use kernel_generation_china.Domain.Float.{
  Float, zero_float, one, two, infinity, neg, flt, fle, is_finite, fmax, fmin, Libm,
}

pub record BenchmarkSample : Type 0 where
  pub case_id : ℕ
  pub speedup : Float
  pub weight : Float
  pub coefficient_of_variation : Option Float

abbrev pub is_positive : Float → Bool
is_positive x = is_finite x && flt zero_float x

abbrev pub is_none_or : (Float → Bool) → Option Float → Bool
is_none_or p none = true
is_none_or p (some x) = p x

abbrev pub is_not_negative : Float → Bool
is_not_negative x = is_finite x && fle zero_float x

-- `BenchmarkSample.__post_init__`
unfoldable pub check_sample : BenchmarkSample → Result BenchmarkSample
check_sample s = do
  require (not (s.case_id == 0)) value_error
  require (is_positive s.speedup) value_error
  require (is_positive s.weight) value_error
  require (is_none_or is_not_negative s.coefficient_of_variation) value_error
  ok s

pub record CandidateScore : Type 0 where
  pub candidate_id : ℕ
  pub round_number : ℕ
  pub compile_passed : Bool
  pub correctness_passed : Bool
  pub anti_bypass_passed : Bool
  pub hidden_correctness_passed : Option Bool
  pub minimum_speedup : Option Float
  pub geomean_speedup : Option Float
  pub candidate_kernel_coverage : Option Float
  pub stability_cv : Option Float

-- `CandidateScore.__post_init__`
unfoldable pub check_score : CandidateScore → Result CandidateScore
check_score s = do
  require (not (s.candidate_id == 0)) value_error
  require (leb 1 s.round_number) value_error
  require (is_none_or is_positive s.minimum_speedup) value_error
  require (is_none_or is_positive s.geomean_speedup) value_error
  require (is_none_or (λ x. is_not_negative x && fle x one) s.candidate_kernel_coverage) value_error
  require (is_none_or is_not_negative s.stability_cv) value_error
  ok s

abbrev pub is_some : Option Float → Bool
is_some none = false
is_some (some x) = true

abbrev pub is_true : Option Bool → Bool
is_true none = false
is_true (some b) = b

unfoldable pub is_publicly_valid : CandidateScore → Bool
is_publicly_valid s =
    s.compile_passed
    && s.correctness_passed
    && is_some s.minimum_speedup
    && is_some s.geomean_speedup

unfoldable pub is_finally_valid : CandidateScore → Bool
unfolding is_publicly_valid
is_finally_valid s = is_publicly_valid s && is_true s.hidden_correctness_passed

pub data Decision : Type 0 where
  invalid initial_best new_best tie regression : Decision

pub record PublicCandidateComparison : Type 0 where
  pub decision : Decision
  pub tolerance_fraction : Float
  pub geomean_change_fraction : Option Float
  pub minimum_change_fraction : Option Float

-- `x or 0.0`
abbrev pub or_zero : Option Float → Float
or_zero none = zero_float
or_zero (some x) = x

-- The three branches of the comparison by two changes and a tolerance.
unfoldable pub classify : (tolerance geomean minimum : Float) → Decision
classify t g m =
    if flt t g && fle (neg t) m
    then new_best
    else if flt g (neg t) || flt m (neg t)
    then regression
    else tie

-- `compare_public_candidate` once both scores are publicly valid.
unfoldable pub compare_measured :
    Libm → Float → CandidateScore → CandidateScore → Result PublicCandidateComparison
unfolding classify
compare_measured m floor candidate incumbent = do
  geomean ← or_raise candidate.geomean_speedup assertion_error
  minimum ← or_raise candidate.minimum_speedup assertion_error
  best_geomean ← or_raise incumbent.geomean_speedup assertion_error
  best_minimum ← or_raise incumbent.minimum_speedup assertion_error
  let tolerance =
      fmax (fmax floor (or_zero candidate.stability_cv)) (or_zero incumbent.stability_cv)
  let geomean_delta = m.sub (m.div geomean best_geomean) one
  let minimum_delta = m.sub (m.div minimum best_minimum) one
  ok (record {
    decision = classify tolerance geomean_delta minimum_delta;
    tolerance_fraction = tolerance;
    geomean_change_fraction = some geomean_delta;
    minimum_change_fraction = some minimum_delta;
  })

abbrev pub no_comparison : Decision → Float → PublicCandidateComparison
no_comparison d floor = record {
  decision = d;
  tolerance_fraction = floor;
  geomean_change_fraction = none;
  minimum_change_fraction = none;
}

abbrev pub compare_with :
    Libm → Float → CandidateScore → Option CandidateScore → Result PublicCandidateComparison
compare_with m floor candidate none = ok (no_comparison initial_best floor)
compare_with m floor candidate (some incumbent) =
    require (is_publicly_valid incumbent) value_error
    >> compare_measured m floor candidate incumbent

unfoldable pub compare_public_candidate :
    Libm → Float → CandidateScore → Option CandidateScore → Result PublicCandidateComparison
unfolding is_publicly_valid compare_measured
compare_public_candidate m floor candidate incumbent =
    require (is_not_negative floor) value_error
    >> (if is_publicly_valid candidate
        then compare_with m floor candidate incumbent
        else ok (no_comparison invalid floor))
