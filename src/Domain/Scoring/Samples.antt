-- ===== src/Domain/Scoring/Samples.antt =====
-- Two measured candidates, and an arithmetic that keeps the laws.
use mathlib.Core.List.{Memᴰ, head?}
use kernel_generation_china.Prelude.{
  ℕ, ◌≡◌, refl, ◌⊎◌, true, false, Option, none, some, List, [], ◌∷◌, arith, if◌then◌else◌,
}
use kernel_generation_china.Prelude.Int.{pos}
use kernel_generation_china.Prelude.Table.{select_all}
use kernel_generation_china.Prelude.Result.{ok}
use kernel_generation_china.Domain.Float.{Float, zero_float, one, two, fle, fmax, Libm}
use kernel_generation_china.Domain.Scoring.{BenchmarkSample, CandidateScore, is_publicly_valid}
use kernel_generation_china.Domain.Scoring.Ranking.{
  candidate_selection_key, key_ge, ranks_before, max_from, eligible, select_best_candidate,
  rank_candidates,
}
use kernel_generation_china.Domain.Scoring.Selection.{select_best-rank, select_best_greatest}
use kernel_generation_china.Domain.Scoring.Aggregation.{Observed}
use kernel_generation_china.Domain.Scoring.Rewards.{
  measured_reward, valid_reward, compute_reward, three, IsRounded, IsBounded, IsZero,
  compute_reward_bounds,
}

abbrev score : ℕ → Float → CandidateScore
score i speedup = record {
  candidate_id = i;
  round_number = i;
  compile_passed = true;
  correctness_passed = true;
  anti_bypass_passed = true;
  hidden_correctness_passed = none;
  minimum_speedup = some speedup;
  geomean_speedup = some two;
  candidate_kernel_coverage = none;
  stability_cv = none;
}

abbrev scores : List CandidateScore
scores = score 1 one ∷ score 2 two ∷ score 3 two ∷ []

select_best-rank_example :
    select_best_candidate scores false
    ≡ head? (rank_candidates (select_all (eligible false) scores))
select_best-rank_example = select_best-rank scores false

second_best : select_best_candidate scores false ≡ some (score 2 two)
unfolding select_best_candidate select_all is_publicly_valid max_from ranks_before key_ge
    candidate_selection_key
second_best = refl

select_best_greatest_example :
    ((some (score 2 two) ≡ none)
      × ((x : CandidateScore) → Memᴰ x scores → eligible false x ≡ false))
    ⊎ ((b : CandidateScore) × (some (score 2 two) ≡ some b)
        × Memᴰ b scores
        × (eligible false b ≡ true)
        × ((x : CandidateScore)
            → Memᴰ x scores
            → eligible false x ≡ true
            → ranks_before b x ≡ true))
select_best_greatest_example = select_best_greatest scores false (some (score 2 two)) second_best

-- Addition of a positive value jumps to 3 at least.
abbrev libm : Libm
libm = record {
  add = λ a b. if fle b zero_float then a else fmax a three;
  sub = λ a b. a;
  mul = λ a b. zero_float;
  div = λ a b. a;
  log = λ a. a;
  log2 = λ a. one;
  exp = λ a. two;
  fsum = λ xs. one;
}

libm-IsRounded : IsRounded libm
libm-IsRounded = record {
  add_mono = λ a b c h. ground arith;
  add_zero = λ a. refl;
  add_three = refl;
  sub_le = λ a b h. ground arith;
  mul_nonneg = λ a b h k. refl;
}

rewards :
    compute_reward libm zero_float one (score 1 one)
    ≡ ok (measured_reward libm zero_float one (score 1 one) two)
unfolding compute_reward is_publicly_valid valid_reward
rewards = refl

compute_reward_bounds_example :
    IsBounded (measured_reward libm zero_float one (score 1 one) two)
    × ((is_publicly_valid (score 1 one) ≡ true)
        ⊎ IsZero (measured_reward libm zero_float one (score 1 one) two))
compute_reward_bounds_example =
    compute_reward_bounds libm libm-IsRounded zero_float one (score 1 one)
      (measured_reward libm zero_float one (score 1 one) two) rewards

abbrev sample : ℕ → Float → Option Float → BenchmarkSample
sample i speedup cv = record {
  case_id = i;
  speedup = speedup;
  weight = one;
  coefficient_of_variation = cv;
}

abbrev samples : List BenchmarkSample
samples = sample 1 two none ∷ sample 2 one (some (pos 5)) ∷ sample 3 two (some (pos 3)) ∷ []

abbrev observed : Observed
observed = record {
  candidate_id = 1;
  round_number = 1;
  compile_passed = true;
  correctness_passed = true;
  anti_bypass_passed = true;
  hidden_correctness_passed = none;
  candidate_kernel_coverage = none;
}
