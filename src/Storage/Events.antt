-- ===== src/Storage/Events.antt =====
-- src/ascend_kernel_lab/storage/event_log.py. Identifiers are numbers: the code compares them for
-- equality and SQLite orders them as texts; 0 stands for the empty text. A canonical JSON text is
-- a number too, and payloads that the storage layer builds itself are constructors.
pub mod Appending
pub mod Reading
mod Samples
use kernel_generation_china.Prelude.{
  ℕ, suc, ◌+◌, ◌≡◌, Bool, true, false, not, ◌&&◌, ◌||◌, Option, none, some, List, [], ◌∷◌, ◌++◌,
  arith, leb, ltb, ◌==◌, option_eq, is_same, ℕ_discrete, if◌then◌else◌, length,
}
use kernel_generation_china.Prelude.Int.{ℤ}
use kernel_generation_china.Prelude.Table.{select_one, select_all}
use kernel_generation_china.Prelude.Result.{
  Result, ok, err, value_error, integrity_error, idempotency_conflict, require, ◌>>=◌, ◌>>◌,
}
use kernel_generation_china.Domain.Scoring.Rewards.{RewardBreakdown}
use kernel_generation_china.Domain.Enums.{
  RoundState, TaskState, ExperimentState, JobStatus, EvaluationStage,
}

abbrev pub Identifier : Type 0
Identifier = ℕ

abbrev pub Json : Type 0
Json = ℕ

pub data EventType : Type 0 where
  job_enqueued job_lease_expired job_leased job_succeeded : EventType
  job_retry_scheduled job_dead job_cancelled : EventType
  experiment_created candidate_registered candidate_score_committed : EventType
  best_candidate_selected artifact_registered : EventType
  experiment_entered : ExperimentState → EventType
  task_entered : TaskState → EventType
  round_entered : RoundState → EventType
  custom : Identifier → EventType

-- `aggregate_type` with `aggregate_id`; the code joins the parts of the latter by "/".
pub data Aggregate : Type 0 where
  job_aggregate candidate_aggregate artifact_aggregate experiment_aggregate : Identifier → Aggregate
  task_aggregate : Identifier → Identifier → Aggregate
  round_aggregate : Identifier → Identifier → ℕ → Aggregate
  custom_aggregate : Identifier → Identifier → Aggregate

pub data Payload : Type 0 where
  empty : Payload
  enqueued : EvaluationStage → ℤ → Payload
  status_after : JobStatus → Payload
  lease : Identifier → ℕ → ℕ → Payload
  attempt : ℕ → Payload
  failure : ℕ → Bool → Json → Payload
  task_version : ℕ → Payload
  previous_experiment : ExperimentState → Payload
  previous_task : TaskState → Payload
  previous_round : RoundState → Option Json → Payload
  candidate_source : Identifier → Identifier → Payload
  reward : RewardBreakdown → Payload
  best_online : Identifier → ℕ → Option Identifier → Json → Payload
  best_ranked : Identifier → ℕ → Bool → Payload
  artifact_digest : Identifier → Identifier → ℕ → Payload
  custom_payload : Json → Payload

unfoldable pub EventType-discrete : Discrete EventType
EventType-discrete = hlevel ℕ_discrete

unfoldable pub Aggregate-discrete : Discrete Aggregate
Aggregate-discrete = hlevel ℕ_discrete

unfoldable pub Payload-discrete : Discrete Payload
Payload-discrete = hlevel ℕ_discrete

-- One row; `occurred_at` is in microseconds, the resolution of datetime.
pub record Event : Type 0 where
  pub sequence : ℕ
  pub event_id : Identifier
  pub event_type : EventType
  pub aggregate : Aggregate
  pub experiment_id : Option Identifier
  pub task_id : Option Identifier
  pub round_number : Option ℕ
  pub payload : Payload
  pub occurred_at : ℕ

-- The keyword arguments of `append`.
pub record NewEvent : Type 0 where
  pub event_type : EventType
  pub aggregate : Aggregate
  pub experiment_id : Option Identifier
  pub task_id : Option Identifier
  pub round_number : Option ℕ
  pub payload : Payload
  pub event_id : Option Identifier
  pub occurred_at : Option ℕ

-- The table, and the number that AUTOINCREMENT gave out last.
pub record EventLog : Type 0 where
  pub rows : List Event
  pub last : ℕ

-- What one call reads from outside: uuid.uuid4().hex and utc_now().
pub record Draw : Type 0 where
  pub uuid : Identifier
  pub clock : ℕ

abbrev pub empty_log : EventLog
empty_log = record { rows = []; last = 0 }

-- `event_id or uuid4().hex`: the empty text counts as absent.
unfoldable pub chosen_id : Draw → Option Identifier → Identifier
chosen_id d none = d.uuid
chosen_id d (some i) = if i == 0 then d.uuid else i

unfoldable pub chosen_time : Draw → Option ℕ → ℕ
chosen_time d none = d.clock
chosen_time d (some t) = t

abbrev pub same_time : ℕ → Option ℕ → Bool
same_time t none = true
same_time t (some r) = t == r

-- The comparison of an existing row with the requested event.
unfoldable pub same_event : Event → NewEvent → Bool
unfolding EventType-discrete Aggregate-discrete Payload-discrete
same_event e n =
    is_same EventType-discrete e.event_type n.event_type
    && is_same Aggregate-discrete e.aggregate n.aggregate
    && option_eq e.experiment_id n.experiment_id
    && option_eq e.task_id n.task_id
    && option_eq e.round_number n.round_number
    && is_same Payload-discrete e.payload n.payload
    && same_time e.occurred_at n.occurred_at

-- CHECK (round_number IS NULL OR round_number >= 1)
abbrev pub round_check : Option ℕ → Bool
round_check none = true
round_check (some r) = leb 1 r

abbrev pub with_id : Identifier → Event → Bool
with_id i e = e.event_id == i

-- The row that the INSERT writes and the SELECT after it reads back.
unfoldable pub new_event : Draw → NewEvent → EventLog → Event
unfolding chosen_id chosen_time
new_event d n l = record {
  sequence = suc l.last;
  event_id = chosen_id d n.event_id;
  event_type = n.event_type;
  aggregate = n.aggregate;
  experiment_id = n.experiment_id;
  task_id = n.task_id;
  round_number = n.round_number;
  payload = n.payload;
  occurred_at = chosen_time d n.occurred_at;
}

unfoldable pub insert_event : Draw → NewEvent → EventLog → Result (Event × EventLog)
insert_event d n l =
    if round_check n.round_number
    then ok (new_event d n l, record { rows = l.rows ++ new_event d n l ∷ []; last = suc l.last })
    else err integrity_error

-- The branch of `_append_in_transaction` for the row with that id, if there is one.
unfoldable pub reuse_or_insert :
    Draw → NewEvent → EventLog → Option Event → Result (Event × EventLog)
reuse_or_insert d n l none = insert_event d n l
reuse_or_insert d n l (some e) = if same_event e n then ok (e, l) else err idempotency_conflict

unfoldable pub append : Draw → NewEvent → EventLog → Result (Event × EventLog)
append d n l = reuse_or_insert d n l (select_one (with_id (chosen_id d n.event_id)) l.rows)

-- The optional filters of `read`: aggregate, experiment and task.
pub record Filter : Type 0 where
  pub aggregate : Option Aggregate
  pub experiment_id : Option Identifier
  pub task_id : Option Identifier

abbrev pub no_filter : Filter
no_filter = record { aggregate = none; experiment_id = none; task_id = none }

abbrev pub aggregate_passes : Option Aggregate → Aggregate → Bool
aggregate_passes none a = true
aggregate_passes (some b) a = is_same Aggregate-discrete a b

abbrev pub column_passes : Option Identifier → Option Identifier → Bool
column_passes none c = true
column_passes (some i) c = option_eq c (some i)

unfoldable pub passes : Filter → Event → Bool
unfolding Aggregate-discrete
passes f e =
    aggregate_passes f.aggregate e.aggregate
    && column_passes f.experiment_id e.experiment_id
    && column_passes f.task_id e.task_id

unfoldable pub take {ℓ} : {A : Type ℓ} → ℕ → List A → List A
take ℕ.zero xs = []
take (suc n) [] = []
take (suc n) (x ∷ xs) = x ∷ take n xs

-- The rows stand in the order of their sequence numbers, so ORDER BY sequence keeps it.
unfoldable pub read : ℕ → ℕ → Filter → EventLog → Result (List Event)
unfolding select_all take passes
read after limit f l = do
  require (leb 1 limit && leb limit 10000) value_error
  ok (take limit (select_all (λ e. ltb after e.sequence && passes f e) l.rows))
