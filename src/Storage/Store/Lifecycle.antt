-- ===== src/Storage/Store/Lifecycle.antt =====
-- `create_experiment`, `transition_experiment`, `create_task` and `transition_task` of
-- storage/state_store.py. `now` is the argument of that name, or what utc_now returns for it.
use kernel_generation_china.Prelude.{
  ℕ, ◌+◌, Bool, true, false, ◌&&◌, Option, none, some, List, [], ◌∷◌, ◌++◌, leb, ◌==◌, is_same,
  if◌then◌else◌,
}
use kernel_generation_china.Prelude.Table.{update, row_count}
use kernel_generation_china.Prelude.Result.{
  Result, ok, err, value_error, key_error, integrity_error, invalid_transition, concurrent_update,
  require, or_raise, ◌>>=◌, ◌>>◌,
}
use kernel_generation_china.Domain.Enums.{
  ExperimentState, created, running, finished, failed, TaskState, task_created,
  ExperimentState-discrete,
}
use kernel_generation_china.Domain.StateMachine.{contains, transition, task_state_machine}
use kernel_generation_china.Storage.Events.{
  Identifier, Json, Draw, experiment_created, experiment_entered, task_entered,
  experiment_aggregate, task_aggregate, empty, task_version, previous_experiment, previous_task,
}
use kernel_generation_china.Storage.Store.Tables.{
  Digest, sha256, malformed, OptionDigest-discrete, Experiment, Task, Store, is_experiment, is_task,
  get_experiment, get_task, entry, logged, version_matches,
}

-- `_validate_sha256`
unfoldable pub validate_sha256 : Option Digest → Result (Unit {0})
validate_sha256 none = ok tt
validate_sha256 (some (sha256 n)) = ok tt
validate_sha256 (some (malformed n)) = err value_error

unfoldable pub new_experiment : ℕ → Identifier → Json → Experiment
new_experiment now i config = record {
  experiment_id = i;
  state = created;
  config = config;
  created_at = now;
  updated_at = now;
  version = 1;
}

-- `create_experiment` after its first SELECT.
unfoldable pub replay_or_create_experiment :
    Draw → ℕ → Identifier → Json → Store → Option Experiment → Result (Experiment × Store)
replay_or_create_experiment d now i config s (some x) =
    if x.config == config then ok (x, s) else err concurrent_update
replay_or_create_experiment d now i config s none = do
  logged d (entry experiment_created (experiment_aggregate i) (some i) none none empty now)
      (get_experiment i)
      (record s { experiments = s.experiments ++ new_experiment now i config ∷ [] })

unfoldable pub create_experiment :
    Draw → ℕ → Identifier → Json → Store → Result (Experiment × Store)
create_experiment d now i config s =
    replay_or_create_experiment d now i config s (get_experiment i s)

unfoldable pub experiment_transitions : ExperimentState → List ExperimentState
experiment_transitions created = running ∷ failed ∷ ExperimentState.cancelled ∷ []
experiment_transitions running = finished ∷ failed ∷ ExperimentState.cancelled ∷ []
experiment_transitions finished = []
experiment_transitions failed = []
experiment_transitions ExperimentState.cancelled = []

abbrev pub enter_experiment : ExperimentState → ℕ → Experiment → Experiment
enter_experiment target now x = record x {
  state = target;
  updated_at = now;
  version = x.version + 1;
}

abbrev pub experiment_at : Identifier → ℕ → Experiment → Bool
experiment_at i v x = is_experiment i x && x.version == v

unfoldable pub transition_experiment :
    Draw → ℕ → Identifier → ExperimentState → Option ℕ → Store → Result (Experiment × Store)
unfolding ExperimentState-discrete
transition_experiment d now i target expected s = do
  row ← or_raise (get_experiment i s) key_error
  require (contains ExperimentState-discrete (experiment_transitions row.state) target)
      invalid_transition
  require (version_matches expected row.version) concurrent_update
  require (row_count (experiment_at i row.version) s.experiments == 1) concurrent_update
  logged d
      (entry (experiment_entered target) (experiment_aggregate i) (some i) none none
        (previous_experiment row.state) now)
      (get_experiment i)
      (record s {
        experiments =
            update (experiment_at i row.version) (enter_experiment target now) s.experiments;
      })

unfoldable pub new_task : ℕ → Identifier → Identifier → ℕ → Option Digest → Task
new_task now e t version digest = record {
  experiment_id = e;
  task_id = t;
  task_version = version;
  state = task_created;
  current_round = 0;
  best_candidate_id = none;
  task_spec_sha256 = digest;
  created_at = now;
  updated_at = now;
  version = 1;
}

abbrev pub is_known : Option Experiment → Bool
is_known none = false
is_known (some x) = true

-- `create_task` after its first SELECT; the INSERT meets the foreign key on the experiment.
unfoldable pub replay_or_create_task :
    Draw
    → ℕ
    → Identifier
    → Identifier
    → ℕ
    → Option Digest
    → Store
    → Option Task
    → Result (Task × Store)
unfolding OptionDigest-discrete
replay_or_create_task d now e t version digest s (some x) =
    if x.task_version == version && is_same OptionDigest-discrete x.task_spec_sha256 digest
    then ok (x, s)
    else err concurrent_update
replay_or_create_task d now e t version digest s none = do
  require (is_known (get_experiment e s)) integrity_error
  logged d
      (entry (task_entered task_created) (task_aggregate e t) (some e) (some t) none
        (task_version version) now)
      (get_task e t) (record s { tasks = s.tasks ++ new_task now e t version digest ∷ [] })

unfoldable pub create_task :
    Draw → ℕ → Identifier → Identifier → ℕ → Option Digest → Store → Result (Task × Store)
create_task d now e t version digest s = do
  require (leb 1 version) value_error
  validate_sha256 digest
  replay_or_create_task d now e t version digest s (get_task e t s)

abbrev pub enter_task : TaskState → ℕ → Task → Task
enter_task target now x = record x { state = target; updated_at = now; version = x.version + 1 }

abbrev pub task_at : Identifier → Identifier → ℕ → Task → Bool
task_at e t v x = is_task e t x && x.version == v

unfoldable pub transition_task :
    Draw → ℕ → Identifier → Identifier → TaskState → Option ℕ → Store → Result (Task × Store)
transition_task d now e t target expected s = do
  row ← or_raise (get_task e t s) key_error
  transition task_state_machine row.state target
  require (version_matches expected row.version) concurrent_update
  require (row_count (task_at e t row.version) s.tasks == 1) concurrent_update
  logged d
      (entry (task_entered target) (task_aggregate e t) (some e) (some t) none
        (previous_task row.state) now)
      (get_task e t)
      (record s { tasks = update (task_at e t row.version) (enter_task target now) s.tasks })
