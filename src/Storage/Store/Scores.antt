-- ===== src/Storage/Store/Scores.antt =====
-- `save_candidate_score`, `get_candidate_score`, `list_candidate_scores`, `set_best_candidate` and
-- `select_and_set_best_candidate` of storage/state_store.py.
use kernel_generation_china.Prelude.{
  ℕ, ◌+◌, Bool, false, ◌&&◌, Option, none, some, List, [], ◌∷◌, ◌++◌, map, leb, ◌==◌, compare,
  then_by, option_eq, is_same, ℕ_discrete, if◌then◌else◌,
}
use kernel_generation_china.Prelude.Table.{select_one, select_all, update, row_count, order_by}
use kernel_generation_china.Prelude.Result.{
  Result, ok, value_error, key_error, require, or_raise, ◌>>=◌, ◌>>◌,
}
use kernel_generation_china.Domain.Float.{Libm}
use kernel_generation_china.Domain.Scoring.{CandidateScore, is_publicly_valid}
use kernel_generation_china.Domain.Scoring.Ranking.{select_best_candidate}
use kernel_generation_china.Domain.Scoring.Rewards.{RewardBreakdown, default_reward}
use kernel_generation_china.Storage.Events.{
  Identifier, Json, Draw, candidate_score_committed, best_candidate_selected, candidate_aggregate,
  task_aggregate, reward, best_online, best_ranked,
}
use kernel_generation_china.Storage.Store.Tables.{
  Task, Candidate, ScoreRow, Store, is_task, is_score, get_task, get_candidate, get_score, entry,
  log,
}

unfoldable pub CandidateScore-discrete : Discrete CandidateScore
CandidateScore-discrete = hlevel ℕ_discrete

abbrev pub has_score : CandidateScore → Option ScoreRow → Bool
has_score score none = false
has_score score (some r) = is_same CandidateScore-discrete r.score score

-- INSERT ... ON CONFLICT(candidate_id) DO UPDATE
abbrev pub write_over : ScoreRow → Option ScoreRow → List ScoreRow → List ScoreRow
write_over row none rows = rows ++ row ∷ []
write_over row (some old) rows = update (is_score row.score.candidate_id) (λ _. row) rows

unfoldable pub upsert_score : ScoreRow → Store → Store
upsert_score row s = record s {
  scores = write_over row (get_score row.score.candidate_id s) s.scores;
}

-- `save_candidate_score` for a score that is not the stored one.
unfoldable pub write_score :
    Draw
    → ℕ
    → CandidateScore
    → RewardBreakdown
    → Candidate
    → Store
    → Result (CandidateScore × Store)
write_score d now score breakdown candidate s = do
  s' ←
      log d
        (entry candidate_score_committed (candidate_aggregate score.candidate_id)
          (some candidate.experiment_id) (some candidate.task_id) (some score.round_number)
          (reward breakdown) now)
        (upsert_score (record { score = score; reward = breakdown; updated_at = now }) s)
  ok (score, s')

unfoldable pub save_candidate_score :
    Libm → Draw → ℕ → CandidateScore → Store → Result (CandidateScore × Store)
unfolding CandidateScore-discrete
save_candidate_score m d now score s = do
  breakdown ← default_reward m score
  candidate ← or_raise (get_candidate score.candidate_id s) key_error
  require (candidate.round_number == score.round_number) value_error
  (if has_score score (get_score score.candidate_id s)
      then ok (score, s)
      else write_score d now score breakdown candidate s)

-- JOIN candidates USING (candidate_id) WHERE experiment_id = ? AND task_id = ?
abbrev pub of_task : Identifier → Identifier → Option Candidate → Bool
of_task e t none = false
of_task e t (some c) = c.experiment_id == e && c.task_id == t

unfoldable pub joins : Identifier → Identifier → Store → ScoreRow → Bool
joins e t s r = of_task e t (get_candidate r.score.candidate_id s)

abbrev pub scored_before : ScoreRow → ScoreRow → Bool
scored_before a b =
    then_by (compare a.score.round_number b.score.round_number)
      (leb a.score.candidate_id b.score.candidate_id)

unfoldable pub list_candidate_scores : Identifier → Identifier → Store → List CandidateScore
unfolding joins
list_candidate_scores e t s =
    map (λ (r : ScoreRow). r.score) (order_by scored_before (select_all (joins e t s) s.scores))

abbrev pub set_best : Identifier → ℕ → Task → Task
set_best c now x = record x {
  best_candidate_id = some c;
  updated_at = now;
  version = x.version + 1;
}

-- The UPDATE and the event of `set_best_candidate`.
unfoldable pub write_best :
    Draw
    → ℕ
    → Identifier
    → Identifier
    → Json
    → Option Identifier
    → CandidateScore
    → Store
    → Result (CandidateScore × Store)
write_best d now e t reason previous score s = do
  s' ←
      log d
        (entry best_candidate_selected (task_aggregate e t) (some e) (some t) none
          (best_online score.candidate_id score.round_number previous reason) now)
        (record s { tasks = update (is_task e t) (set_best score.candidate_id now) s.tasks })
  ok (score, s')

unfoldable pub set_best_candidate :
    Draw → ℕ → Identifier → Identifier → Identifier → Json → Store → Result (CandidateScore × Store)
unfolding joins
set_best_candidate d now e t candidate_id reason s = do
  row ← or_raise (select_one (λ r. is_score candidate_id r && joins e t s r) s.scores) key_error
  require (is_publicly_valid row.score) value_error
  task ← or_raise (get_task e t s) key_error
  (if option_eq task.best_candidate_id (some candidate_id)
      then ok (row.score, s)
      else write_best d now e t reason task.best_candidate_id row.score s)

-- The UPDATE and the event of `select_and_set_best_candidate`.
unfoldable pub write_ranked :
    Draw
    → ℕ
    → Identifier
    → Identifier
    → Bool
    → CandidateScore
    → Store
    → Result (Option CandidateScore × Store)
write_ranked d now e t required best s = do
  require (row_count (is_task e t) s.tasks == 1) key_error
  s' ←
      log d
        (entry best_candidate_selected (task_aggregate e t) (some e) (some t) none
          (best_ranked best.candidate_id best.round_number required) now)
        (record s { tasks = update (is_task e t) (set_best best.candidate_id now) s.tasks })
  ok (some best, s')

unfoldable pub persist_ranked :
    Draw
    → ℕ
    → Identifier
    → Identifier
    → Bool
    → Store
    → Option CandidateScore
    → Result (Option CandidateScore × Store)
persist_ranked d now e t required s none = ok (none, s)
persist_ranked d now e t required s (some best) = do
  task ← or_raise (get_task e t s) key_error
  (if option_eq task.best_candidate_id (some best.candidate_id)
      then ok (some best, s)
      else write_ranked d now e t required best s)

-- The scores of the task, in the order of the table: the SELECT has no ORDER BY.
unfoldable pub task_scores : Identifier → Identifier → Store → List CandidateScore
unfolding joins
task_scores e t s = map (λ (r : ScoreRow). r.score) (select_all (joins e t s) s.scores)

unfoldable pub select_and_set_best_candidate :
    Draw → ℕ → Identifier → Identifier → Bool → Store → Result (Option CandidateScore × Store)
select_and_set_best_candidate d now e t required s =
    persist_ranked d now e t required s (select_best_candidate (task_scores e t s) required)
