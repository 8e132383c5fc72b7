-- ===== src/Domain/Scoring/Rewards.antt =====
-- `compute_reward`.
use kernel_generation_china.Prelude.{
  ◌≡◌, refl, subst, ◌⊎◌, inl, inr, Bool, true, false, arith, if◌then◌else◌, Bool-cases,
}
use kernel_generation_china.Prelude.Int.{pos}
use kernel_generation_china.Prelude.Result.{
  Result, ok, value_error, assertion_error, require, or_raise, ◌>>=◌, ◌>>◌, >>=-eq-ok,
  require-eq-ok,
}
use kernel_generation_china.Domain.Float.{Float, zero_float, one, two, neg, fle, fmax, fmin, Libm}
use kernel_generation_china.Domain.Scoring.{
  CandidateScore, is_publicly_valid, is_not_negative, or_zero,
}

abbrev pub clip : Float → Float → Float → Float
clip value lower upper = fmin (fmax value lower) upper

pub record RewardBreakdown : Type 0 where
  pub reward : Float
  pub compile_reward : Float
  pub correctness_reward : Float
  pub anti_bypass_reward : Float
  pub speedup_component : Float
  pub coverage_component : Float
  pub stability_penalty : Float

-- `float(flag)`
abbrev pub of_bool : Bool → Float
of_bool true = one
of_bool false = zero_float

unfoldable pub no_reward : CandidateScore → RewardBreakdown
no_reward s = record {
  reward = zero_float;
  compile_reward = of_bool s.compile_passed;
  correctness_reward = of_bool s.correctness_passed;
  anti_bypass_reward = of_bool s.anti_bypass_passed;
  speedup_component = zero_float;
  coverage_component = zero_float;
  stability_penalty = zero_float;
}

unfoldable pub measured_reward : Libm → Float → Float → CandidateScore → Float → RewardBreakdown
measured_reward m stable scale s geomean =
    let speedup = clip (m.log2 geomean) (neg one) two in
    let penalty = m.mul (fmax zero_float (m.sub (or_zero s.stability_cv) stable)) scale in
    record {
      reward = fmax zero_float (m.sub (m.add (m.add one speedup) zero_float) penalty);
      compile_reward = of_bool s.compile_passed;
      correctness_reward = of_bool s.correctness_passed;
      anti_bypass_reward = of_bool s.anti_bypass_passed;
      speedup_component = speedup;
      coverage_component = zero_float;
      stability_penalty = penalty;
    }

-- `compute_reward` on a publicly valid score.
unfoldable pub valid_reward : Libm → Float → Float → CandidateScore → Result RewardBreakdown
valid_reward m stable scale s = do
  geomean ← or_raise s.geomean_speedup assertion_error
  ok (measured_reward m stable scale s geomean)

-- `compute_reward`, with `maximum_stable_cv` and `stability_penalty_scale`.
unfoldable pub compute_reward : Libm → Float → Float → CandidateScore → Result RewardBreakdown
compute_reward m stable scale s = do
  require (is_not_negative stable) value_error
  require (is_not_negative scale) value_error
  (if is_publicly_valid s then valid_reward m stable scale s else ok (no_reward s))

-- The defaults of its parameters: 0.05 and 1.0.
abbrev pub maximum_stable_cv : Float
maximum_stable_cv = pos 0x3FA999999999999A

abbrev pub stability_penalty_scale : Float
stability_penalty_scale = one

abbrev pub default_reward : Libm → CandidateScore → Result RewardBreakdown
default_reward m s = compute_reward m maximum_stable_cv stability_penalty_scale s

abbrev pub three : Float
three = pos 0x4008000000000000

-- What IEEE 754 says of rounded operations: adding on the left keeps the order, adding zero changes
-- nothing, 1.0 + 2.0 is the float 3.0, subtracting what is not negative does not enlarge, and the
-- product of values that are not negative is not negative.
pub record IsRounded (m : Libm) : Type 0 where
  pub add_mono : (a b c : Float) → fle b c ≡ true → fle (m.add a b) (m.add a c) ≡ true
  pub add_zero : (a : Float) → m.add a zero_float ≡ a
  pub add_three : m.add one two ≡ three
  pub sub_le : (a b : Float) → fle zero_float b ≡ true → fle (m.sub a b) a ≡ true
  pub mul_nonneg :
      (a b : Float)
      → fle zero_float a ≡ true
      → fle zero_float b ≡ true
      → fle zero_float (m.mul a b) ≡ true

clip_bounds :
    (x : Float)
    → (fle (neg one) (clip x (neg one) two) ≡ true) × (fle (clip x (neg one) two) two ≡ true)
clip_bounds x = ground arith

fmax_zero :
    (a b : Float)
    → fle a b ≡ true
    → fle zero_float b ≡ true
    → (fle zero_float (fmax zero_float a) ≡ true) × (fle (fmax zero_float a) b ≡ true)
fmax_zero a b h k = ground arith

fmax_not_negative : (a : Float) → fle zero_float (fmax zero_float a) ≡ true
fmax_not_negative a = ground arith

fle_trans : (a b c : Float) → fle a b ≡ true → fle b c ≡ true → fle a c ≡ true
fle_trans a b c h k = ground arith

-- Reward between 0 and 3, speedup between -1 and 2, no bonus for coverage.
abbrev pub IsBounded : RewardBreakdown → Type 0
IsBounded r =
    (fle zero_float r.reward ≡ true)
    × (fle r.reward three ≡ true)
    × (fle (neg one) r.speedup_component ≡ true)
    × (fle r.speedup_component two ≡ true)
    × (r.coverage_component ≡ zero_float)

not_negative : (x : Float) → is_not_negative x ≡ true → fle zero_float x ≡ true
not_negative x h = ground arith

-- No reward, nothing for speedup or coverage, and no penalty.
abbrev pub IsZero : RewardBreakdown → Type 0
IsZero r =
    (r.reward ≡ zero_float)
    × (r.speedup_component ≡ zero_float)
    × (r.coverage_component ≡ zero_float)
    × (r.stability_penalty ≡ zero_float)

no_reward-IsZero : (s : CandidateScore) → IsZero (no_reward s)
unfolding no_reward
no_reward-IsZero s = (refl, refl, refl, refl)

no_reward-IsBounded : (s : CandidateScore) → IsBounded (no_reward s)
unfolding no_reward
no_reward-IsBounded s = (refl, refl, refl, refl, refl)

module _ (m : Libm) (laws : IsRounded m) (stable scale : Float) (s : CandidateScore) where
  measured_reward-IsBounded :
      (geomean : Float)
      → fle zero_float scale ≡ true
      → IsBounded (measured_reward m stable scale s geomean)
  unfolding measured_reward
  measured_reward-IsBounded geomean h =
      let speedup : Float = clip (m.log2 geomean) (neg one) two in
      let excess : Float = fmax zero_float (m.sub (or_zero s.stability_cv) stable) in
      let penalty : Float = m.mul excess scale in
      let (low, high) = clip_bounds (m.log2 geomean) in
      let up : fle (m.add one speedup) three ≡ true =
        subst (λ z. fle (m.add one speedup) z ≡ true) laws.add_three
          (laws.add_mono one speedup two high) in
      let total : fle (m.add (m.add one speedup) zero_float) three ≡ true =
        rw (laws.add_zero (m.add one speedup)) up in
      let paid : fle zero_float penalty ≡ true =
        laws.mul_nonneg excess scale (fmax_not_negative (m.sub (or_zero s.stability_cv) stable))
          h in
      let gross : Float = m.add (m.add one speedup) zero_float in
      let net : fle (m.sub gross penalty) three ≡ true =
        fle_trans (m.sub gross penalty) gross three (laws.sub_le gross penalty paid) total in
      let (bottom, top) = fmax_zero (m.sub gross penalty) three net refl in
      (bottom, top, low, high, refl)

  valid_reward-IsBounded :
      (r : RewardBreakdown)
      → fle zero_float scale ≡ true
      → valid_reward m stable scale s ≡ ok r
      → IsBounded r
  unfolding valid_reward
  valid_reward-IsBounded r h e =
      let (geomean, found, is) = >>=-eq-ok (or_raise s.geomean_speedup assertion_error) _ e in
      let same : measured_reward m stable scale s geomean ≡ r = ground arith in
      subst IsBounded same (measured_reward-IsBounded geomean h)

  -- Under rounded arithmetic, a reward that is computed lies between 0 and 3, its speedup component
  -- between -1 and 2, and coverage adds nothing; for a score that is not publicly valid the reward,
  -- the components for speedup and coverage, and the penalty are 0. Publicly valid does not ask for
  -- the anti-bypass check, and the component for coverage is 0 for every coverage; a unit test of
  -- the repository expects otherwise.
  pub compute_reward_bounds :
      (r : RewardBreakdown)
      → compute_reward m stable scale s ≡ ok r
      → IsBounded r × ((is_publicly_valid s ≡ true) ⊎ IsZero r)
  unfolding compute_reward
  compute_reward_bounds r h =
      let (_, stable_valid, h1) = >>=-eq-ok (require (is_not_negative stable) value_error) _ h in
      let (u, scale_valid, h2) = >>=-eq-ok (require (is_not_negative scale) value_error) _ h1 in
      let positive : fle zero_float scale ≡ true =
        not_negative scale (require-eq-ok (is_not_negative scale) value_error u scale_valid) in
      elim (Bool-cases (is_publicly_valid s)) [
        | inl valid ↦
            let e : valid_reward m stable scale s ≡ ok r = rw valid at h2 in
            (valid_reward-IsBounded r positive e, inl valid)
        | inr not_valid ↦
            let e : ok (no_reward s) ≡ ok r = rw not_valid at h2 in
            let same : no_reward s ≡ r = ground arith in
            (
              subst IsBounded same (no_reward-IsBounded s),
              inr (subst IsZero same (no_reward-IsZero s)),
            )
      ]
