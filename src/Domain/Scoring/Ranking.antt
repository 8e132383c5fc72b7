-- ===== src/Domain/Scoring/Ranking.antt =====
-- The order of `candidate_selection_key`, `select_best_candidate` and `rank_candidates`.
use mathlib.Core.List.{head?}
use kernel_generation_china.Prelude.{
  ℕ, ◌≡◌, refl, sym, ap, ◌∙◌, Bool, true, false, Option, none, some, List, [], ◌∷◌, arith, leb,
  then_by, compare, if◌then◌else◌,
}
use kernel_generation_china.Prelude.Int.{compare_ℤ}
use kernel_generation_china.Prelude.Table.{select_all, order_by, insert_by}
use kernel_generation_china.Domain.Float.{Float, infinity, neg, is_finite}
use kernel_generation_china.Domain.Scoring.{CandidateScore, is_publicly_valid, is_finally_valid}
use kernel_generation_china.Prelude.Int.{pos}

abbrev pub finite_or : Option Float → Float → Float
finite_or none fallback = fallback
finite_or (some x) fallback = if is_finite x then x else fallback

abbrev pub hidden_rank : Option Bool → ℕ
hidden_rank none = 1
hidden_rank (some true) = 2
hidden_rank (some false) = 0

abbrev pub flag : Bool → ℕ
flag true = 1
flag false = 0

-- The tuple that `candidate_selection_key` returns.
pub record SelectionKey : Type 0 where
  pub publicly_valid : ℕ
  pub hidden : ℕ
  pub minimum : Float
  pub geomean : Float
  pub stability : Float
  pub round : ℕ

unfoldable pub candidate_selection_key : CandidateScore → SelectionKey
unfolding is_publicly_valid
candidate_selection_key s = record {
  publicly_valid = flag (is_publicly_valid s);
  hidden = if is_publicly_valid s then hidden_rank s.hidden_correctness_passed else 0;
  minimum = finite_or s.minimum_speedup (neg (pos infinity));
  geomean = finite_or s.geomean_speedup (neg (pos infinity));
  stability = neg (finite_or s.stability_cv (pos infinity));
  round = s.round_number;
}

-- `a >= b` on these tuples; the last component is the negated round.
unfoldable pub key_ge : SelectionKey → SelectionKey → Bool
key_ge a b = then_by (compare b.publicly_valid a.publicly_valid) (
    then_by (compare b.hidden a.hidden) (
      then_by (compare_ℤ b.minimum a.minimum) (
        then_by (compare_ℤ b.geomean a.geomean)
          (then_by (compare_ℤ b.stability a.stability) (leb a.round b.round)))))

unfoldable pub ranks_before : CandidateScore → CandidateScore → Bool
unfolding candidate_selection_key
ranks_before a b = key_ge (candidate_selection_key a) (candidate_selection_key b)

-- `max(values, key=...)` keeps the first of equal values.
unfoldable pub max_from : CandidateScore → List CandidateScore → CandidateScore
max_from best [] = best
max_from best (x ∷ xs) = max_from (if ranks_before best x then best else x) xs

abbrev pub eligible : Bool → CandidateScore → Bool
eligible required s = if required then is_finally_valid s else is_publicly_valid s

abbrev pub max_of : List CandidateScore → Option CandidateScore
max_of [] = none
max_of (x ∷ xs) = some (max_from x xs)

unfoldable pub select_best_candidate : List CandidateScore → Bool → Option CandidateScore
select_best_candidate candidates required = max_of (select_all (eligible required) candidates)

-- `sorted(..., reverse=True)` keeps the order of equal values.
unfoldable pub rank_candidates : List CandidateScore → List CandidateScore
rank_candidates = order_by ranks_before

nat_trans :
    (a b c : ℕ) (p q r : Bool)
    → (p ≡ true → q ≡ true → r ≡ true)
    → then_by (compare b a) p ≡ true
    → then_by (compare c b) q ≡ true
    → then_by (compare c a) r ≡ true
nat_trans a b c p q r f h k = ground arith

float_trans :
    (a b c : Float) (p q r : Bool)
    → (p ≡ true → q ≡ true → r ≡ true)
    → then_by (compare_ℤ b a) p ≡ true
    → then_by (compare_ℤ c b) q ≡ true
    → then_by (compare_ℤ c a) r ≡ true
float_trans a b c p q r f h k = ground arith

round_trans : (a b c : ℕ) → leb a b ≡ true → leb b c ≡ true → leb a c ≡ true
round_trans a b c h k = ground arith

key_ge_total : (a b : SelectionKey) → key_ge a b ≡ false → key_ge b a ≡ true
unfolding key_ge
key_ge_total a b h = ground arith

key_ge_trans : (a b c : SelectionKey) → key_ge a b ≡ true → key_ge b c ≡ true → key_ge a c ≡ true
unfolding key_ge
key_ge_trans a b c = nat_trans a.publicly_valid b.publicly_valid c.publicly_valid _ _ _ (
    nat_trans a.hidden b.hidden c.hidden _ _ _ (
      float_trans a.minimum b.minimum c.minimum _ _ _ (
        float_trans a.geomean b.geomean c.geomean _ _ _ (
          float_trans a.stability b.stability c.stability _ _ _
            (round_trans a.round b.round c.round)))))

pub ranks_before_total : (a b : CandidateScore) → ranks_before a b ≡ false → ranks_before b a ≡ true
unfolding ranks_before
ranks_before_total a b = key_ge_total (candidate_selection_key a) (candidate_selection_key b)

pub ranks_before_trans :
    (a b c : CandidateScore)
    → ranks_before a b ≡ true
    → ranks_before b c ≡ true
    → ranks_before a c ≡ true
unfolding ranks_before
ranks_before_trans a b c =
    key_ge_trans (candidate_selection_key a) (candidate_selection_key b) (candidate_selection_key c)

-- The better of a row and what comes first in the ranking of the rows after it.
abbrev pick : CandidateScore → Option CandidateScore → CandidateScore
pick a none = a
pick a (some b) = if ranks_before a b then a else b

head-insert_by :
    (x : CandidateScore) (ys : List CandidateScore)
    → head? (insert_by ranks_before x ys) ≡ some (pick x (head? ys))
unfolding insert_by
head-insert_by x [] = refl
head-insert_by x (y ∷ ys) = ground arith

picked_again :
    (a x : CandidateScore) (o : Option CandidateScore)
    → pick (if ranks_before a x then a else x) o ≡ pick a (some (pick x o))
picked_again a x none = refl
picked_again a x (some h) = ground (
  arith,
  ranks_before_total a x,
  ranks_before_total x h,
  ranks_before_total a h,
  ranks_before_trans a x h,
  ranks_before_trans x a h,
  ranks_before_trans a h x,
  ranks_before_trans h x a,
  ranks_before_trans x h a,
)

max_from-pick :
    (a : CandidateScore) (xs : List CandidateScore)
    → max_from a xs ≡ pick a (head? (order_by ranks_before xs))
unfolding max_from order_by
max_from-pick a [] = refl
max_from-pick a (x ∷ xs) =
    max_from-pick (if ranks_before a x then a else x) xs
    ∙ picked_again a x (head? (order_by ranks_before xs))
    ∙ ap (pick a) (sym (head-insert_by x (order_by ranks_before xs)))

pub max_of-head : (xs : List CandidateScore) → max_of xs ≡ head? (rank_candidates xs)
unfolding rank_candidates order_by
max_of-head [] = refl
max_of-head (x ∷ xs) =
    ap some (max_from-pick x xs) ∙ sym (head-insert_by x (order_by ranks_before xs))
