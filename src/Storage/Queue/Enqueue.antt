-- ===== src/Storage/Queue/Enqueue.antt =====
-- `EvaluationJob.__post_init__`, `get` and `enqueue`.
use kernel_generation_china.Prelude.{
  ℕ, Bool, true, false, not, ◌&&◌, Option, none, some, [], ◌∷◌, ◌++◌, leb, ◌==◌, option_eq, is_same,
  if◌then◌else◌, Ordering,
}
use kernel_generation_china.Prelude.Int.{ℤ, compare_ℤ}
use kernel_generation_china.Prelude.Table.{select_one}
use kernel_generation_china.Prelude.Result.{
  Result, ok, err, value_error, integrity_error, assertion_error, idempotency_conflict, require,
  or_raise, ◌>>=◌, ◌>>◌,
}
use kernel_generation_china.Domain.Enums.{EvaluationStage-discrete, queued}
use kernel_generation_china.Storage.Events.{
  Identifier, NewEvent, Draw, job_enqueued, job_aggregate, enqueued, append,
}
use kernel_generation_china.Storage.Queue.Jobs.{Job, EvaluationJob, Queue, with_job_id, with_key}

abbrev pub is_present : Identifier → Bool
is_present i = not (i == 0)

abbrev pub key_is_present : Option Identifier → Bool
key_is_present none = true
key_is_present (some k) = is_present k

-- The constructor of a request refuses empty identifiers and counts below one.
unfoldable pub check_job : EvaluationJob → Result EvaluationJob
check_job j = do
  require
      (is_present j.job_id
        && is_present j.experiment_id
        && is_present j.task_id
        && is_present j.candidate_id)
      value_error
  require (leb 1 j.round_number) value_error
  require (leb 1 j.max_attempts) value_error
  require (key_is_present j.idempotency_key) value_error
  ok j

unfoldable pub get : Identifier → Queue → Option Job
get job_id q = select_one (with_job_id job_id) q.jobs

abbrev pub same_int : ℤ → ℤ → Bool
same_int a b = elim (compare_ℤ a b) [ Ordering.eq ↦ true | _ ↦ false ]

unfoldable pub same_enqueue_request : Job → EvaluationJob → Bool
unfolding EvaluationStage-discrete
same_enqueue_request r j =
    r.experiment_id == j.experiment_id
    && r.task_id == j.task_id
    && r.round_number == j.round_number
    && r.candidate_id == j.candidate_id
    && is_same EvaluationStage-discrete r.stage j.stage
    && r.payload == j.payload
    && same_int r.priority j.priority
    && r.max_attempts == j.max_attempts
    && r.available_at == j.available_at
    && option_eq r.idempotency_key j.idempotency_key

-- The row that the INSERT writes.
unfoldable pub queued_job : ℕ → EvaluationJob → Job
queued_job now j = record {
  job_id = j.job_id;
  experiment_id = j.experiment_id;
  task_id = j.task_id;
  round_number = j.round_number;
  candidate_id = j.candidate_id;
  stage = j.stage;
  payload = j.payload;
  priority = j.priority;
  status = queued;
  attempt_count = 0;
  max_attempts = j.max_attempts;
  available_at = j.available_at;
  lease_owner = none;
  lease_token = none;
  lease_expires_at = none;
  heartbeat_at = none;
  result = none;
  last_error = none;
  idempotency_key = j.idempotency_key;
  created_at = now;
  updated_at = now;
}

unfoldable pub enqueued_event : EvaluationJob → NewEvent
enqueued_event j = record {
  event_type = job_enqueued;
  aggregate = job_aggregate j.job_id;
  experiment_id = some j.experiment_id;
  task_id = some j.task_id;
  round_number = some j.round_number;
  payload = enqueued j.stage j.priority;
  event_id = none;
  occurred_at = none;
}

-- The row that a request may be a replay of: by id, or else by idempotency key.
unfoldable pub by_key : Option Identifier → Queue → Option Job
by_key none q = none
by_key (some k) q = select_one (with_key k) q.jobs

unfoldable pub existing_job : EvaluationJob → Queue → Option Job
existing_job j q = elim (get j.job_id q) [ none ↦ by_key j.idempotency_key q | some r ↦ some r ]

-- The INSERT with the CHECK constraints of the table, then the event.
unfoldable pub insert_job : ℕ → Draw → EvaluationJob → Queue → Result (Job × Queue)
insert_job now d j q = do
  require (leb 1 j.round_number && leb 1 j.max_attempts) integrity_error
  let jobs = q.jobs ++ queued_job now j ∷ []
  (e, events) ← append d (enqueued_event j) q.events
  let q' : Queue = record { jobs = jobs; events = events }
  row ← or_raise (get j.job_id q') assertion_error
  ok (row, q')

unfoldable pub replay_or_insert :
    ℕ → Draw → EvaluationJob → Queue → Option Job → Result (Job × Queue)
replay_or_insert now d j q none = insert_job now d j q
replay_or_insert now d j q (some r) =
    if same_enqueue_request r j then ok (r, q) else err idempotency_conflict

unfoldable pub enqueue : ℕ → Draw → EvaluationJob → Queue → Result (Job × Queue)
enqueue now d j q = replay_or_insert now d j q (existing_job j q)
