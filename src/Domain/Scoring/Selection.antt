-- ===== src/Domain/Scoring/Selection.antt =====
-- What `select_best_candidate` chooses.
use mathlib.Core.List.{Memᴰ, head?}
use kernel_generation_china.Prelude.{
  ◌≡◌, refl, sym, ◌∙◌, ◌⊎◌, inl, inr, Bool, true, false, Option, none, some, List, Bool-cases,
  All-Memᴰ, All-of_Memᴰ,
}
use kernel_generation_china.Prelude.Table.{
  select_all, order_by, select_all_test, select_all_mem, All-select_all, order_by-All,
}
use kernel_generation_china.Prelude.Table.Sorting.{head_least, head_none, head_mem}
use kernel_generation_china.Domain.Scoring.{CandidateScore}
use kernel_generation_china.Domain.Scoring.Ranking.{
  ranks_before, ranks_before_total, ranks_before_trans, eligible, select_best_candidate,
  rank_candidates, max_of-head,
}

-- The choice is the head of the ranking of the eligible candidates. Eligible are compilation, public
-- correctness, both speedups and, where required, the hidden cases; the anti-bypass check is not
-- asked for.
pub select_best-rank :
    (candidates : List CandidateScore) (required : Bool)
    → select_best_candidate candidates required
      ≡ head? (rank_candidates (select_all (eligible required) candidates))
unfolding select_best_candidate
select_best-rank candidates required = max_of-head (select_all (eligible required) candidates)

-- A chosen candidate is one of those given and eligible, and its selection key is no less than that
-- of any eligible one; if none is chosen, none is eligible. Eligible are compilation, public
-- correctness, both speedups and, where required, the hidden cases; the anti-bypass check is not
-- asked for.
pub select_best_greatest :
    (candidates : List CandidateScore) (required : Bool) (o : Option CandidateScore)
    → select_best_candidate candidates required ≡ o
    → ((o ≡ none) × ((x : CandidateScore) → Memᴰ x candidates → eligible required x ≡ false))
      ⊎ ((b : CandidateScore) × (o ≡ some b)
          × Memᴰ b candidates
          × (eligible required b ≡ true)
          × ((x : CandidateScore)
              → Memᴰ x candidates
              → eligible required x ≡ true
              → ranks_before b x ≡ true))
unfolding rank_candidates
select_best_greatest candidates required none h =
    let empty = sym (select_best-rank candidates required) ∙ h in
    inl (
      refl,
      λ x m. elim (Bool-cases (eligible required x)) [
        | inr e ↦ e
        | inl e ↦ absurd (
            head_none ranks_before ranks_before_total ranks_before_trans _ x empty
              (select_all_mem (eligible required) candidates x m e))
      ],
    )
select_best_greatest candidates required (some b) h =
    let pool : List CandidateScore = select_all (eligible required) candidates in
    let first = sym (select_best-rank candidates required) ∙ h in
    let inside : Memᴰ b (order_by ranks_before pool) = head_mem _ b first in
    inr (
      b,
      refl,
      All-Memᴰ (λ x. Memᴰ x candidates) b _ inside
          (order_by-All ranks_before (λ x. Memᴰ x candidates) pool
            (All-select_all (eligible required) (λ x. Memᴰ x candidates) candidates
              (All-of_Memᴰ (λ x. Memᴰ x candidates) candidates (λ x i. i)))),
      All-Memᴰ (λ x. eligible required x ≡ true) b _ inside
          (order_by-All ranks_before (λ x. eligible required x ≡ true) pool
            (select_all_test (eligible required) candidates)),
      λ x m e.
          head_least ranks_before ranks_before_total ranks_before_trans pool b x first
            (select_all_mem (eligible required) candidates x m e),
    )
