-- ===== src/Storage/Store/Rounds.antt =====
-- `create_round` and `transition_round` of storage/state_store.py.
use kernel_generation_china.Prelude.{
  ℕ, ◌+◌, ◌-◌, Bool, false, not, ◌&&◌, ◌||◌, Option, none, some, [], ◌∷◌, ◌++◌, leb, ltb, ◌==◌,
}
use kernel_generation_china.Prelude.Table.{update, row_count}
use kernel_generation_china.Prelude.Result.{
  Result, ok, value_error, key_error, invalid_transition, concurrent_update, require, or_raise,
  ◌>>=◌, ◌>>◌,
}
use kernel_generation_china.Domain.Enums.{
  RoundState, round_created, is_round_finished, is_rounds_running,
}
use kernel_generation_china.Domain.StateMachine.{transition, round_state_machine}
use kernel_generation_china.Storage.Events.{
  Identifier, Json, Draw, round_entered, round_aggregate, empty, previous_round,
}
use kernel_generation_china.Storage.Store.Tables.{
  Task, Round, Store, is_task, is_round, get_task, get_round, entry, logged, version_matches,
}

unfoldable pub new_round : ℕ → Identifier → Identifier → ℕ → Round
new_round now e t n = record {
  experiment_id = e;
  task_id = t;
  round_number = n;
  state = round_created;
  created_at = now;
  updated_at = now;
  version = 1;
}

abbrev pub set_round : ℕ → ℕ → Task → Task
set_round n now x = record x { current_round = n; updated_at = now; version = x.version + 1 }

abbrev pub has_finished : Option Round → Bool
has_finished none = false
has_finished (some r) = is_round_finished r.state

-- The tests of `create_round` on the row of the task.
unfoldable pub check_next : Identifier → Identifier → ℕ → Store → Task → Result (Unit {0})
check_next e t n s task = do
  require (is_rounds_running task.state) invalid_transition
  require (n == task.current_round + 1) invalid_transition
  require (not (ltb 1 n) || has_finished (get_round e t (n - 1) s)) invalid_transition

-- The INSERT and the UPDATE of `create_round`.
unfoldable pub add_round : ℕ → Identifier → Identifier → ℕ → Store → Store
add_round now e t n s = record s {
  rounds = s.rounds ++ new_round now e t n ∷ [];
  tasks = update (is_task e t) (set_round n now) s.tasks;
}

-- `create_round` after its first SELECT.
unfoldable pub replay_or_create_round :
    Draw → ℕ → Identifier → Identifier → ℕ → Store → Option Round → Result (Round × Store)
replay_or_create_round d now e t n s (some r) = ok (r, s)
replay_or_create_round d now e t n s none = do
  task ← or_raise (get_task e t s) key_error
  check_next e t n s task
  logged d
      (entry (round_entered round_created) (round_aggregate e t n) (some e) (some t) (some n) empty
        now)
      (get_round e t n) (add_round now e t n s)

unfoldable pub create_round :
    Draw → ℕ → Identifier → Identifier → ℕ → Store → Result (Round × Store)
create_round d now e t n s = do
  require (leb 1 n) value_error
  replay_or_create_round d now e t n s (get_round e t n s)

abbrev pub enter_round : RoundState → ℕ → Round → Round
enter_round target now x = record x { state = target; updated_at = now; version = x.version + 1 }

abbrev pub round_at : Identifier → Identifier → ℕ → ℕ → Round → Bool
round_at e t n v x = is_round e t n x && x.version == v

-- The UPDATE of `transition_round` on the row that its SELECT has found. `extra` is the canonical
-- text of `event_payload`, none if that is None or empty.
unfoldable pub swap_round :
    Draw
    → ℕ
    → Identifier
    → Identifier
    → ℕ
    → RoundState
    → Option Json
    → Store
    → Round
    → Result (Round × Store)
swap_round d now e t n target extra s row = do
  require (row_count (round_at e t n row.version) s.rounds == 1) concurrent_update
  logged d
      (entry (round_entered target) (round_aggregate e t n) (some e) (some t) (some n)
        (previous_round row.state extra) now)
      (get_round e t n)
      (record s { rounds = update (round_at e t n row.version) (enter_round target now) s.rounds })

-- The tests of `transition_round` on that row.
unfoldable pub check_round : RoundState → Option ℕ → Round → Result (Unit {0})
check_round target expected row = do
  transition round_state_machine row.state target
  require (version_matches expected row.version) concurrent_update

unfoldable pub transition_round :
    Draw
    → ℕ
    → Identifier
    → Identifier
    → ℕ
    → RoundState
    → Option ℕ
    → Option Json
    → Store
    → Result (Round × Store)
transition_round d now e t n target expected extra s = do
  row ← or_raise (get_round e t n s) key_error
  check_round target expected row
  swap_round d now e t n target extra s row
