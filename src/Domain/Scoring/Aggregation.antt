-- ===== src/Domain/Scoring/Aggregation.antt =====
-- `weighted_geometric_mean` and `aggregate_candidate_score`.
use mathlib.Core.List.{Memᴰ}
use kernel_generation_china.Prelude.{
  ℕ, ◌≡◌, Bool, true, Option, none, some, List, [], ◌∷◌, map, All,
}
use kernel_generation_china.Prelude.Result.{Result, ok, err, value_error, ◌>>=◌}
use kernel_generation_china.Domain.Float.{Float, fle, fmax, fmin, Libm}
use kernel_generation_china.Domain.Scoring.{BenchmarkSample, CandidateScore, check_score}

unfoldable pub weighted_geometric_mean : Libm → List BenchmarkSample → Result Float
weighted_geometric_mean m [] = err value_error
weighted_geometric_mean m (x ∷ xs) =
    let values : List BenchmarkSample = x ∷ xs in
    ok (
      m.exp (
        m.div (m.fsum (map (λ (s : BenchmarkSample). m.mul s.weight (m.log s.speedup)) values))
          (m.fsum (map (λ (s : BenchmarkSample). s.weight) values))))

-- `min(sample.speedup for sample in observations)`
unfoldable pub min_speedup : Float → List BenchmarkSample → Float
min_speedup least [] = least
min_speedup least (x ∷ xs) = min_speedup (fmin least x.speedup) xs

-- `max(cvs) if cvs else None`, over the samples that have a coefficient of variation.
abbrev pub max_present : Option Float → Option Float → Option Float
max_present none c = c
max_present (some a) none = some a
max_present (some a) (some b) = some (fmax a b)

unfoldable pub max_cv : Option Float → List BenchmarkSample → Option Float
max_cv most [] = most
max_cv most (x ∷ xs) = max_cv (max_present most x.coefficient_of_variation) xs

-- The keyword arguments of `aggregate_candidate_score` besides the samples.
pub record Observed : Type 0 where
  pub candidate_id : ℕ
  pub round_number : ℕ
  pub compile_passed : Bool
  pub correctness_passed : Bool
  pub anti_bypass_passed : Bool
  pub hidden_correctness_passed : Option Bool
  pub candidate_kernel_coverage : Option Float

unfoldable pub aggregated : Observed → Float → Float → Option Float → CandidateScore
aggregated o minimum geomean cv = record {
  candidate_id = o.candidate_id;
  round_number = o.round_number;
  compile_passed = o.compile_passed;
  correctness_passed = o.correctness_passed;
  anti_bypass_passed = o.anti_bypass_passed;
  hidden_correctness_passed = o.hidden_correctness_passed;
  minimum_speedup = some minimum;
  geomean_speedup = some geomean;
  candidate_kernel_coverage = o.candidate_kernel_coverage;
  stability_cv = cv;
}

unfoldable pub aggregate_candidate_score :
    Libm → Observed → List BenchmarkSample → Result CandidateScore
aggregate_candidate_score m o [] = err value_error
aggregate_candidate_score m o (x ∷ xs) = do
  geomean ← weighted_geometric_mean m (x ∷ xs)
  check_score (aggregated o (min_speedup x.speedup xs) geomean (max_cv none (x ∷ xs)))

-- The value is none or at least the other.
abbrev pub Bounds : Option Float → Option Float → Type 0
Bounds none m = Unit
Bounds (some c) none = ⊥
Bounds (some c) (some m) = fle c m ≡ true

-- The speedup of a sample, and no sample is below.
abbrev pub IsSmallest : Float → List BenchmarkSample → Type 0
IsSmallest m xs =
    ((x : BenchmarkSample) × Memᴰ x xs × (m ≡ x.speedup)) × All (λ x. fle m x.speedup ≡ true) xs

-- None if no sample has a coefficient of variation; else that of a sample, and none exceeds it.
abbrev pub IsLargest : Option Float → List BenchmarkSample → Type 0
IsLargest none xs = All (λ x. x.coefficient_of_variation ≡ none) xs
IsLargest (some c) xs =
    ((x : BenchmarkSample) × Memᴰ x xs × (x.coefficient_of_variation ≡ some c))
    × All (λ x. Bounds x.coefficient_of_variation (some c)) xs
