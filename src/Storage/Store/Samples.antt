-- ===== src/Storage/Store/Samples.antt =====
-- A store with a running task, and its first round.
mod Scores
use kernel_generation_china.Prelude.{
  ℕ, ◌+◌, ◌-◌, ◌<◌, ◌≡◌, ◌≢◌, refl, ap, ◌⊎◌, true, none, some, List, [], ◌∷◌, false, ℕ_discrete,
  arith,
}
use kernel_generation_china.Prelude.Table.{select_one, update, row_count}
use kernel_generation_china.Prelude.Result.{Error, concurrent_update, ok, err}
use kernel_generation_china.Domain.Enums.{
  round_created, prompt_committed, round_finished, rounds_running, is_rounds_running,
  RoundState-discrete,
}
use kernel_generation_china.Domain.StateMachine.{
  contains, allowed_transitions, can_transition, transition, round_transitions, round_state_machine,
}
use kernel_generation_china.Storage.Events.{
  Draw, append, reuse_or_insert, insert_event, new_event, chosen_id, chosen_time,
}
use kernel_generation_china.Storage.Store.Tables.{
  Candidate, sha256, Digest-discrete, get_candidate, Task, Round, Store, get_task, get_round, log,
  logged,
}
use kernel_generation_china.Storage.Store.Rounds.{
  new_round, check_next, add_round, replay_or_create_round, create_round, swap_round, check_round,
  transition_round,
}
use kernel_generation_china.Storage.Store.Lifecycle.{validate_sha256}
use kernel_generation_china.Storage.Store.Evidence.{
  NewCandidate, digest_text, same_candidate, candidate_row, replay_or_register, register_candidate,
}
use kernel_generation_china.Storage.Store.Replays.{register_replay, register_conflict}
use kernel_generation_china.Storage.Store.Calls.{committed_store, state_of}
use kernel_generation_china.Storage.Store.Swaps.{compare_and_swap}
use kernel_generation_china.Storage.Store.Safety.{empty_store, create_round_gated}

abbrev draw : ℕ → Draw
draw i = record { uuid = 100 + i; clock = 7 }

abbrev running_task : Task
running_task = record {
  experiment_id = 1;
  task_id = 2;
  task_version = 1;
  state = rounds_running;
  current_round = 0;
  best_candidate_id = none;
  task_spec_sha256 = none;
  created_at = 11;
  updated_at = 12;
  version = 2;
}

abbrev running : Store
running = record empty_store { tasks = running_task ∷ [] }

abbrev first_round : Round
first_round = record {
  experiment_id = 1;
  task_id = 2;
  round_number = 1;
  state = round_created;
  created_at = 13;
  updated_at = 13;
  version = 1;
}

abbrev opened : Store
opened = committed_store running (state_of (create_round (draw 3) 13 1 2 1 running))

opens : create_round (draw 3) 13 1 2 1 running ≡ ok (first_round, opened)
unfolding create_round replay_or_create_round get_round get_task select_one check_next logged log
    add_round new_round update append reuse_or_insert insert_event new_event chosen_id chosen_time
opens = refl

create_round_gated_example :
    (((get_round 1 2 1 running ≡ some first_round) × (opened ≡ running))
      ⊎ ((task : Task) × (get_round 1 2 1 running ≡ none)
          × (get_task 1 2 running ≡ some task)
          × (is_rounds_running task.state ≡ true)
          × (1 ≡ task.current_round + 1)
          × ((1 < 1)
              → (p : Round) × (get_round 1 2 (1 - 1) running ≡ some p)
                × (p.state ≡ round_finished))))
    × (get_round 1 2 1 opened ≡ some first_round)
    × (create_round (draw 9) 20 1 2 1 opened ≡ ok (first_round, opened))
create_round_gated_example =
    create_round_gated (draw 3) (draw 9) 13 20 1 2 1 running first_round opened opens

abbrev prompted : Round
prompted = record first_round { state = prompt_committed; updated_at = 15; version = 2 }

abbrev asked : Store
asked =
    committed_store opened
      (state_of (transition_round (draw 5) 15 1 2 1 prompt_committed (some 1) none opened))

swaps :
    transition_round (draw 5) 15 1 2 1 prompt_committed (some 1) none opened ≡ ok (prompted, asked)
unfolding create_round replay_or_create_round get_round get_task select_one check_next logged log
    add_round new_round update append reuse_or_insert insert_event new_event chosen_id chosen_time
    transition_round swap_round check_round transition can_transition contains allowed_transitions
    round_transitions round_state_machine RoundState-discrete row_count
swaps = refl

compare_and_swap_example :
    ((x : Error) × (transition_round (draw 6) 16 1 2 1 prompt_committed (some 1) none asked
        ≡ err x))
    × ((row : Round) × (get_round 1 2 1 opened ≡ some row)
        × (can_transition round_state_machine row.state prompt_committed ≡ true)
        × (prompted ≡ record row { state = prompt_committed; updated_at = 15; version = 1 + 1 })
        × (get_round 1 2 1 asked ≡ some prompted))
compare_and_swap_example =
    compare_and_swap (draw 5) (draw 6) 15 16 1 2 1 1 prompt_committed prompt_committed none none
      opened prompted asked swaps

abbrev source : ℕ → NewCandidate
source digest = record {
  candidate_id = 9;
  experiment_id = 1;
  task_id = 2;
  round_number = 1;
  source_sha256 = sha256 digest;
  source_artifact_path = 4;
  response_sha256 = none;
}

abbrev candidate : Candidate
candidate = record {
  candidate_id = 9;
  experiment_id = 1;
  task_id = 2;
  round_number = 1;
  source_sha256 = sha256 77;
  source_artifact_path = 4;
  response_sha256 = none;
  created_at = 20;
}

-- The store of `opened`, written out.
abbrev ready : Store
ready = record running { rounds = first_round ∷ [] }

abbrev stored : Store
stored = committed_store ready (state_of (register_candidate (draw 7) 20 (source 77) ready))

registers : register_candidate (draw 7) 20 (source 77) ready ≡ ok (candidate, stored)
unfolding register_candidate validate_sha256 replay_or_register get_candidate get_round select_one
    logged log candidate_row append reuse_or_insert insert_event new_event chosen_id chosen_time
registers = refl

register_replay_example : register_candidate (draw 8) 30 (source 77) stored ≡ ok (candidate, stored)
register_replay_example =
    register_replay (draw 7) (draw 8) 20 30 (source 77) ready candidate stored registers

other_source : source 78 ≢ source 77
other_source h =
    let same : ◌≡◌ {A = ℕ} 78 77 = ap (λ (n : NewCandidate). digest_text n.source_sha256) h in
    omega arith

well_formed : validate_sha256 (some (sha256 78)) ≡ ok tt
unfolding validate_sha256
well_formed = refl

no_response : validate_sha256 none ≡ ok tt
unfolding validate_sha256
no_response = refl

register_conflict_example :
    register_candidate (draw 8) 30 (source 78) stored ≡ err concurrent_update
register_conflict_example =
    register_conflict (draw 7) (draw 8) 20 30 (source 77) (source 78) ready candidate stored
      registers refl other_source well_formed no_response
