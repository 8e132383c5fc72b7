-- ===== src/Storage/Store/Samples/Scores.antt =====
-- A store with a candidate, its score, and the choice of it as the best one.
use mathlib.Core.List.{Memᴰ}
use kernel_generation_china.Prelude.{ℕ, ◌+◌, ◌≡◌, refl, ◌⊎◌, true, false, none, some, [], ◌∷◌, List}
use kernel_generation_china.Prelude.Table.{select_one, select_all, update, row_count}
use kernel_generation_china.Prelude.Result.{ok}
use kernel_generation_china.Domain.Enums.{rounds_running, profile_finished}
use kernel_generation_china.Domain.Float.{zero_float, one, two, Libm}
use kernel_generation_china.Domain.Scoring.{CandidateScore, is_publicly_valid}
use kernel_generation_china.Domain.Scoring.Ranking.{
  max_from, eligible, ranks_before, select_best_candidate,
}
use kernel_generation_china.Domain.Scoring.Rewards.{valid_reward, compute_reward}
use kernel_generation_china.Storage.Events.{
  Draw, append, reuse_or_insert, insert_event, new_event, chosen_id, chosen_time,
}
use kernel_generation_china.Storage.Store.Tables.{
  Task, Round, Candidate, ScoreRow, Store, sha256, get_task, get_candidate, get_score, log,
}
use kernel_generation_china.Storage.Store.Evidence.{NewCandidate}
use kernel_generation_china.Storage.Store.Scores.{
  CandidateScore-discrete, joins, upsert_score, write_score, save_candidate_score, write_ranked,
  persist_ranked, task_scores, select_and_set_best_candidate,
}
use kernel_generation_china.Storage.Store.Calls.{
  StoreInput, creates_experiment, creates_task, moves_task, creates_round, registers_candidate,
  saves_score, selects_best, committed_store, serve_store, state_of,
}
use kernel_generation_china.Storage.Store.Contiguity.{IsStore}
use kernel_generation_china.Storage.Store.Linking.{IsLinked}
use kernel_generation_china.Storage.Store.Safety.{empty_store, serve_store-IsStore}
use kernel_generation_china.Storage.Store.References.{serve_store-IsLinked}
use kernel_generation_china.Storage.Store.Outcomes.{stores_greatest}
use kernel_generation_china.Storage.Store.Scored.{save_score_reads}

abbrev libm : Libm
libm = record {
  add = λ a b. b;
  sub = λ a b. a;
  mul = λ a b. a;
  div = λ a b. a;
  log = λ a. a;
  log2 = λ a. one;
  exp = λ a. two;
  fsum = λ xs. one;
}

abbrev draw : ℕ → Draw
draw i = record { uuid = 100 + i; clock = 7 }

abbrev source : NewCandidate
source = record {
  candidate_id = 9;
  experiment_id = 1;
  task_id = 2;
  round_number = 1;
  source_sha256 = sha256 77;
  source_artifact_path = 4;
  response_sha256 = none;
}

abbrev score : CandidateScore
score = record {
  candidate_id = 9;
  round_number = 1;
  compile_passed = true;
  correctness_passed = true;
  anti_bypass_passed = true;
  hidden_correctness_passed = none;
  minimum_speedup = some one;
  geomean_speedup = some two;
  candidate_kernel_coverage = none;
  stability_cv = none;
}

abbrev inputs : List StoreInput
inputs =
    record { draw = draw 0; now = 10; call = creates_experiment 1 5 }
    ∷ record { draw = draw 1; now = 11; call = creates_task 1 2 1 none }
    ∷ record { draw = draw 2; now = 12; call = moves_task 1 2 rounds_running none }
    ∷ record { draw = draw 3; now = 13; call = creates_round 1 2 1 }
    ∷ record { draw = draw 4; now = 14; call = creates_round 1 2 2 }
    ∷ record { draw = draw 5; now = 15; call = registers_candidate source }
    ∷ record { draw = draw 6; now = 16; call = saves_score score }
    ∷ record { draw = draw 7; now = 17; call = selects_best 1 2 false }
    ∷ []

serve_store-IsStore_example : IsStore (serve_store libm empty_store inputs)
serve_store-IsStore_example = serve_store-IsStore libm inputs

serve_store-IsLinked_example : IsLinked (serve_store libm empty_store inputs)
serve_store-IsLinked_example = serve_store-IsLinked libm inputs

abbrev judged_task : Task
judged_task = record {
  experiment_id = 1;
  task_id = 2;
  task_version = 1;
  state = rounds_running;
  current_round = 1;
  best_candidate_id = none;
  task_spec_sha256 = none;
  created_at = 11;
  updated_at = 12;
  version = 3;
}

abbrev judged_round : Round
judged_round = record {
  experiment_id = 1;
  task_id = 2;
  round_number = 1;
  state = profile_finished;
  created_at = 13;
  updated_at = 14;
  version = 8;
}

abbrev candidate : Candidate
candidate = record {
  candidate_id = 9;
  experiment_id = 1;
  task_id = 2;
  round_number = 1;
  source_sha256 = sha256 77;
  source_artifact_path = 4;
  response_sha256 = none;
  created_at = 15;
}

abbrev judged : Store
judged = record empty_store {
  tasks = judged_task ∷ [];
  rounds = judged_round ∷ [];
  candidates = candidate ∷ [];
}

abbrev scored : Store
scored = committed_store judged (state_of (save_candidate_score libm (draw 6) 16 score judged))

saves : save_candidate_score libm (draw 6) 16 score judged ≡ ok (score, scored)
unfolding save_candidate_score write_score upsert_score get_candidate get_score select_one log
    append reuse_or_insert insert_event new_event chosen_id chosen_time compute_reward valid_reward
    is_publicly_valid CandidateScore-discrete
saves = refl

save_score_reads_example :
    (score ≡ score)
    × ((row : ScoreRow) × (get_score 9 scored ≡ some row) × (row.score ≡ score))
    × (save_candidate_score libm (draw 7) 17 score scored ≡ ok (score, scored))
save_score_reads_example =
    save_score_reads libm (draw 6) (draw 7) 16 17 score judged scored score saves

-- The store of `scored`, written out.
abbrev ranked : Store
ranked = record judged {
  scores =
      record {
        score = score;
        reward = record {
          reward = one;
          compile_reward = zero_float;
          correctness_reward = zero_float;
          anti_bypass_reward = zero_float;
          speedup_component = one;
          coverage_component = zero_float;
          stability_penalty = zero_float;
        };
        updated_at = 16;
      }
      ∷ [];
}

abbrev chosen : Store
chosen =
    committed_store ranked (state_of (select_and_set_best_candidate (draw 7) 17 1 2 false ranked))

chooses : select_and_set_best_candidate (draw 7) 17 1 2 false ranked ≡ ok (some score, chosen)
unfolding select_and_set_best_candidate task_scores joins persist_ranked write_ranked
    select_best_candidate max_from select_all select_one get_task get_candidate row_count update log
    append reuse_or_insert insert_event new_event chosen_id chosen_time is_publicly_valid
chooses = refl

stores_greatest_example :
    ((some score ≡ none)
      × (chosen ≡ ranked)
      × ((y : CandidateScore) → Memᴰ y (task_scores 1 2 ranked) → eligible false y ≡ false))
    ⊎ ((b : CandidateScore) × (some score ≡ some b)
        × Memᴰ b (task_scores 1 2 ranked)
        × (eligible false b ≡ true)
        × ((y : CandidateScore)
            → Memᴰ y (task_scores 1 2 ranked)
            → eligible false y ≡ true
            → ranks_before b y ≡ true)
        × ((k : Task) × (get_task 1 2 chosen ≡ some k)
            × (k.best_candidate_id ≡ some b.candidate_id)))
stores_greatest_example = stores_greatest (draw 7) 17 1 2 false ranked chosen (some score) chooses
