-- ===== src/Storage/Store/Scored.antt =====
-- A score that `save_candidate_score` stores is read back.
use kernel_generation_china.Prelude.{
  ℕ, ◌≡◌, refl, sym, ap, ◌∙◌, Bool, true, false, Option, none, some, arith, ◌==◌, ==_self,
  is_same_self, if◌then◌else◌,
}
use mathlib.Core.Option
use kernel_generation_china.Prelude.Table.{
  select_one, select_one-append, select_one-update, select_one_test,
}
use kernel_generation_china.Prelude.Result.{
  ok, value_error, key_error, require, or_raise, >>=-eq-ok, require-eq-ok,
}
use kernel_generation_china.Domain.Float.{Libm}
use kernel_generation_china.Domain.Scoring.{CandidateScore}
use kernel_generation_china.Domain.Scoring.Rewards.{RewardBreakdown, default_reward}
use kernel_generation_china.Storage.Events.{Draw}
use kernel_generation_china.Storage.Store.Tables.{
  Candidate, ScoreRow, Store, is_score, get_candidate, get_score,
}
use kernel_generation_china.Storage.Store.Scores.{
  CandidateScore-discrete, has_score, write_over, upsert_score, write_score, save_candidate_score,
}
use kernel_generation_china.Storage.Store.Outcomes.{logged_end}

-- The lookup of the row that `upsert_score` writes.
module _ (row : ScoreRow) (s : Store) where
  written_reads :
      (o : Option ScoreRow)
      → get_score row.score.candidate_id s ≡ o
      → select_one (is_score row.score.candidate_id) (write_over row o s.scores) ≡ some row
  unfolding get_score Option.or_else
  written_reads none h =
      select_one-append (is_score row.score.candidate_id) s.scores row
      ∙ rw (h, ==_self row.score.candidate_id)
  written_reads (some old) h =
      select_one-update (is_score row.score.candidate_id) (is_score row.score.candidate_id)
        (λ _. row) (λ x e. ==_self row.score.candidate_id ∙ sym e) s.scores
      ∙ ap (Option.map (λ x. if is_score row.score.candidate_id x then row else x)) h
      ∙ hit
    where
      hit : some (if is_score row.score.candidate_id old then row else old) ≡ some row
      hit = rw (select_one_test (is_score row.score.candidate_id) s.scores old h)

  upsert_reads : get_score row.score.candidate_id (upsert_score row s) ≡ some row
  unfolding get_score upsert_score
  upsert_reads = written_reads (get_score row.score.candidate_id s) refl

module _ (m : Libm) (d d' : Draw) (now now' : ℕ) (score : CandidateScore) (s s' : Store) where
  -- The score that the store has under the candidate.
  abbrev HasScore : Store → Type 0
  HasScore z = (row : ScoreRow) × (get_score score.candidate_id z ≡ some row) × (row.score ≡ score)

  has_score_row :
      (o : Option ScoreRow)
      → has_score score o ≡ true
      → (row : ScoreRow) × (o ≡ some row) × (row.score ≡ score)
  unfolding CandidateScore-discrete
  has_score_row none h = cc
  has_score_row (some row) h = (row, refl, ground arith)

  written_HasScore :
      (x : CandidateScore) (b : RewardBreakdown) (c : Candidate)
      → write_score d now score b c s ≡ ok (x, s')
      → (x ≡ score)
        × HasScore s'
        × (get_candidate score.candidate_id s' ≡ get_candidate score.candidate_id s)
  unfolding write_score get_score get_candidate upsert_score
  written_HasScore x b c h =
      let (end, (l, same)) = logged_end d _ _ score x s' h in
      let row : ScoreRow = record { score = score; reward = b; updated_at = now } in
      (
        end,
        (row, ap (λ (z : Store). get_score score.candidate_id z) same ∙ upsert_reads row s, refl),
        ap (λ (z : Store). get_candidate score.candidate_id z) same,
      )

  saved_HasScore :
      (x : CandidateScore) (b : RewardBreakdown) (c : Candidate) (hit : Bool)
      → has_score score (get_score score.candidate_id s) ≡ hit
      → (if hit then ok (score, s) else write_score d now score b c s) ≡ ok (x, s')
      → (x ≡ score)
        × HasScore s'
        × (get_candidate score.candidate_id s' ≡ get_candidate score.candidate_id s)
  saved_HasScore x b c false is h = written_HasScore x b c h
  saved_HasScore x b c true is h =
      let (row, found, one) = has_score_row (get_score score.candidate_id s) is in
      let same : s ≡ s' = ground arith in
      (
        ground arith,
        (row, ap (get_score score.candidate_id) (sym same) ∙ found, one),
        ap (get_candidate score.candidate_id) (sym same),
      )

  again :
      (b : RewardBreakdown) (c : Candidate)
      → default_reward m score ≡ ok b
      → get_candidate score.candidate_id s' ≡ some c
      → (c.round_number == score.round_number) ≡ true
      → HasScore s'
      → save_candidate_score m d' now' score s' ≡ ok (score, s')
  unfolding save_candidate_score CandidateScore-discrete
  again b c measured at same (row, found, one) =
      rw (measured, at, same, found, one, is_same_self CandidateScore-discrete score)

  -- A call of `save_candidate_score` that commits returns the score and leaves a row with it under
  -- its candidate; saving the same score again then changes nothing.
  pub save_score_reads :
      (x : CandidateScore)
      → save_candidate_score m d now score s ≡ ok (x, s')
      → (x ≡ score)
        × ((row : ScoreRow) × (get_score score.candidate_id s' ≡ some row) × (row.score ≡ score))
        × (save_candidate_score m d' now' score s' ≡ ok (score, s'))
  unfolding save_candidate_score
  save_score_reads x h =
      let (b, measured, h1) = >>=-eq-ok (default_reward m score) _ h in
      let (c, found, h2) =
        >>=-eq-ok (or_raise (get_candidate score.candidate_id s) key_error) _ h1 in
      let (u, same, h3) =
        >>=-eq-ok (require (c.round_number == score.round_number) value_error) _ h2 in
      let at : get_candidate score.candidate_id s ≡ some c = ground arith in
      let (end, has, kept) =
        saved_HasScore x b c (has_score score (get_score score.candidate_id s)) refl h3 in
      (
        end,
        has,
        again b c measured (kept ∙ at)
            (require-eq-ok (c.round_number == score.round_number) value_error u same) has,
      )
