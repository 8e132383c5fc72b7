-- ===== src/Storage/Store/ScoreChanges.antt =====
-- What the calls on scores and on the choice of the best candidate write.
use kernel_generation_china.Prelude.{
  ℕ, ◌≡◌, refl, sym, ap, ◌∙◌, inl, inr, Bool, true, false, Bool-cases, Option, none, some, List, [],
  ◌∷◌, map, arith, ◌==◌, ◌&&◌, option_eq, if◌then◌else◌,
}
use mathlib.Core.List.{Memᴰ}
use kernel_generation_china.Prelude.Table.{
  select_one, select_all, update, row_count, select_one_test, select_one_mem,
}
use kernel_generation_china.Prelude.Result.{
  ok, value_error, key_error, require, or_raise, >>=-eq-ok, require-eq-ok,
}
use kernel_generation_china.Domain.Float.{Libm}
use kernel_generation_china.Domain.Scoring.{CandidateScore, is_publicly_valid}
use kernel_generation_china.Domain.Scoring.Ranking.{select_best_candidate}
use kernel_generation_china.Domain.Scoring.Rewards.{RewardBreakdown, default_reward}
use kernel_generation_china.Domain.Scoring.Selection.{select_best_greatest}
use kernel_generation_china.Storage.Events.{Identifier, Json, Draw}
use kernel_generation_china.Storage.Store.Tables.{
  Candidate, ScoreRow, Store, is_task, is_score, get_task, get_candidate, get_score,
}
use kernel_generation_china.Storage.Store.Scores.{
  has_score, write_score, save_candidate_score, of_task, joins, set_best, write_best,
  set_best_candidate, write_ranked, persist_ranked, task_scores, select_and_set_best_candidate,
}
use kernel_generation_china.Storage.Store.Changes.{
  Change, score_written, best_written, Changed, log-Changed,
}

found_at :
    (c : Identifier) (o : Option Candidate) (e t : Identifier)
    → of_task e t o ≡ true
    → (x : Candidate) × (o ≡ some x) × (x.experiment_id ≡ e) × (x.task_id ≡ t)
found_at c none e t h = cc
found_at c (some x) e t h = (x, refl, ground arith, ground arith)

some_score :
    (c : Identifier) (rows : List ScoreRow) (r : ScoreRow)
    → Memᴰ r rows
    → is_score c r ≡ true
    → (x : ScoreRow) × (select_one (is_score c) rows ≡ some x)
unfolding select_one
some_score c [] r i h = elim i [ ]
some_score c (x ∷ xs) r (Memᴰ.head e) h = (x, rw (ap (is_score c) (sym e) ∙ h) refl)
some_score c (x ∷ xs) r (Memᴰ.tail i) h = elim (Bool-cases (is_score c x)) [
  | inl e ↦ (x, rw e refl)
  | inr e ↦ rw e (some_score c xs r i h)
]

module _ (m : Libm) (d : Draw) (now : ℕ) (s s' : Store) where
  write_score-Changed :
      (score x : CandidateScore) (b : RewardBreakdown) (c : Candidate)
      → get_candidate score.candidate_id s ≡ some c
      → (c.round_number == score.round_number) ≡ true
      → write_score d now score b c s ≡ ok (x, s')
      → Changed s s'
  unfolding write_score
  write_score-Changed score x b c found same h =
      log-Changed d _ s _ x s' score h (score_written _ c found (ground arith))

  saved_cases :
      (score x : CandidateScore) (b : RewardBreakdown) (c : Candidate) (hit : Bool)
      → get_candidate score.candidate_id s ≡ some c
      → (c.round_number == score.round_number) ≡ true
      → (if hit then ok (score, s) else write_score d now score b c s) ≡ ok (x, s')
      → Changed s s'
  saved_cases score x b c true found same h = inl (ground arith)
  saved_cases score x b c false found same h = write_score-Changed score x b c found same h

  pub save_candidate_score-Changed :
      (score x : CandidateScore) → save_candidate_score m d now score s ≡ ok (x, s') → Changed s s'
  unfolding save_candidate_score
  save_candidate_score-Changed score x h =
      let (b, measured, h1) = >>=-eq-ok (default_reward m score) _ h in
      let (c, found, h2) =
        >>=-eq-ok (or_raise (get_candidate score.candidate_id s) key_error) _ h1 in
      let (u, same, h3) =
        >>=-eq-ok (require (c.round_number == score.round_number) value_error) _ h2 in
      let at : get_candidate score.candidate_id s ≡ some c = ground arith in
      saved_cases score x b c (has_score score (get_score score.candidate_id s)) at
        (require-eq-ok (c.round_number == score.round_number) value_error u same) h3

  -- A row of a score of the task.
  chosen :
      (e t c : Identifier) (r : ScoreRow)
      → Memᴰ r s.scores
      → r.score.candidate_id ≡ c
      → joins e t s r ≡ true
      → Change s (record s { tasks = update (is_task e t) (set_best c now) s.tasks })
  unfolding joins get_score
  chosen e t c r inside key joined =
      let (x, found, ex, tx) =
        found_at c (get_candidate c s) e t
          (ap (λ z. of_task e t (get_candidate z s)) (sym key) ∙ joined) in
      let (y, at) = some_score c s.scores r inside (ground (arith, key)) in
      best_written e t c now x y found ex tx at

  set_cases :
      (e t c : Identifier) (reason : Json) (o : Option Identifier) (r : ScoreRow)
      (x : CandidateScore) (hit : Bool)
      → Memᴰ r s.scores
      → joins e t s r ≡ true
      → (if hit then ok (r.score, s) else write_best d now e t reason o r.score s) ≡ ok (x, s')
      → Changed s s'
  unfolding write_best
  set_cases e t c reason o r x true inside joined h = inl (ground arith)
  set_cases e t c reason o r x false inside joined h =
      log-Changed d _ s _ x s' r.score h (chosen e t r.score.candidate_id r inside refl joined)

  pub set_best_candidate-Changed :
      (e t c : Identifier) (reason : Json) (x : CandidateScore)
      → set_best_candidate d now e t c reason s ≡ ok (x, s')
      → Changed s s'
  unfolding set_best_candidate
  set_best_candidate-Changed e t c reason x h =
      let (row, found, h1) =
        >>=-eq-ok (or_raise (select_one (λ r. is_score c r && joins e t s r) s.scores) key_error) _
          h in
      let (_, valid, h2) = >>=-eq-ok (require (is_publicly_valid row.score) value_error) _ h1 in
      let (task, at, h3) = >>=-eq-ok (or_raise (get_task e t s) key_error) _ h2 in
      let there : select_one (λ r. is_score c r && joins e t s r) s.scores ≡ some row =
        ground arith in
      let test : (is_score c row && joins e t s row) ≡ true =
        select_one_test (λ r. is_score c r && joins e t s r) s.scores row there in
      set_cases e t c reason task.best_candidate_id row x
        (option_eq task.best_candidate_id (some c))
        (select_one_mem (λ r. is_score c r && joins e t s r) s.scores row there) (ground arith) h3

  ranked_cases :
      (e t : Identifier) (required hit : Bool) (best : CandidateScore) (x : Option CandidateScore)
      (r : ScoreRow)
      → Memᴰ r s.scores
      → r.score ≡ best
      → joins e t s r ≡ true
      → (if hit then ok (some best, s) else write_ranked d now e t required best s) ≡ ok (x, s')
      → Changed s s'
  unfolding write_ranked
  ranked_cases e t required true best x r inside is joined h = inl (ground arith)
  ranked_cases e t required false best x r inside is joined h =
      let (_, one, h1) = >>=-eq-ok (require (row_count (is_task e t) s.tasks == 1) key_error) _ h in
      log-Changed d _ s _ x s' (some best) h1 (
        chosen e t best.candidate_id r inside (ap (λ (z : CandidateScore). z.candidate_id) is)
          joined)

  first_row :
      (x : ScoreRow) (xs : List ScoreRow) (p : ScoreRow → Bool) (b : CandidateScore)
      → p x ≡ true
      → (Memᴰ b (map (λ (r : ScoreRow). r.score) (select_all p xs))
          → (r : ScoreRow) × Memᴰ r xs × (r.score ≡ b) × (p r ≡ true))
      → Memᴰ b (x.score ∷ map (λ (r : ScoreRow). r.score) (select_all p xs))
      → (r : ScoreRow) × Memᴰ r (x ∷ xs) × (r.score ≡ b) × (p r ≡ true)
  first_row x xs p b e rest (Memᴰ.head h) = (x, Memᴰ.head refl, sym h, e)
  first_row x xs p b e rest (Memᴰ.tail i) =
      let (r, j, is, test) = rest i in (r, Memᴰ.tail j, is, test)

  scored_row :
      (b : CandidateScore) (rows : List ScoreRow) (p : ScoreRow → Bool)
      → Memᴰ b (map (λ (r : ScoreRow). r.score) (select_all p rows))
      → (r : ScoreRow) × Memᴰ r rows × (r.score ≡ b) × (p r ≡ true)
  unfolding select_all
  scored_row b [] p i = elim i [ ]
  scored_row b (x ∷ xs) p i = elim (Bool-cases (p x)) [
    | inr e ↦ let (r, j, is, test) = scored_row b xs p (rw e at i) in (r, Memᴰ.tail j, is, test)
    | inl e ↦ first_row x xs p b e (scored_row b xs p) (rw e at i)
  ]

  persisted :
      (e t : Identifier) (required : Bool) (o x : Option CandidateScore)
      → select_best_candidate (task_scores e t s) required ≡ o
      → persist_ranked d now e t required s o ≡ ok (x, s')
      → Changed s s'
  unfolding persist_ranked task_scores
  persisted e t required none x is h = inl (ground arith)
  persisted e t required (some b) x is h =
      let (task, at, h1) = >>=-eq-ok (or_raise (get_task e t s) key_error) _ h in
      elim (select_best_greatest (task_scores e t s) required (some b) is) [
        | inl (empty, _) ↦ cc
        | inr (y, same, inside, _, _) ↦
            let one : y ≡ b = ground arith in
            let (r, there, key, joined) = scored_row y s.scores (joins e t s) inside in
            ranked_cases e t required (option_eq task.best_candidate_id (some b.candidate_id)) b x r
              there (key ∙ one) joined h1
      ]

  pub select_and_set_best_candidate-Changed :
      (e t : Identifier) (required : Bool) (x : Option CandidateScore)
      → select_and_set_best_candidate d now e t required s ≡ ok (x, s')
      → Changed s s'
  unfolding select_and_set_best_candidate
  select_and_set_best_candidate-Changed e t required x h =
      persisted e t required (select_best_candidate (task_scores e t s) required) x refl h
