-- ===== src/Storage/Queue/Finish.antt =====
-- `complete`, `fail`, `cancel` and `list`.
use kernel_generation_china.Prelude.{
  ℕ, ◌+◌, Bool, true, false, not, ◌&&◌, ◌||◌, none, some, List, [], ◌∷◌, leb, ◌==◌, if◌then◌else◌,
}
use kernel_generation_china.Prelude.Table.{select_one, select_all, update, row_count, order_by}
use kernel_generation_china.Prelude.Result.{
  Result, ok, err, value_error, lease_lost, require, or_raise, ◌>>=◌, ◌>>◌,
}
use kernel_generation_china.Domain.Enums.{
  JobStatus, retry_wait, succeeded, dead, JobStatus-discrete,
}
use kernel_generation_china.Storage.Events.{
  Identifier, Json, Draw, EventType, job_succeeded, job_retry_scheduled, job_dead, job_cancelled,
  attempt, failure, empty, take,
}
use kernel_generation_china.Storage.Queue.Jobs.{
  Job, Queue, Seconds, micros, reported, with_job_id, is_waiting, holds_lease, listed_before,
}
use kernel_generation_china.Storage.Queue.Claim.{log_row, exhausted, update_leased}
use kernel_generation_china.Domain.StateMachine.{contains}

unfoldable pub succeed : ℕ → Json → Job → Job
succeed now result j = record j {
  status = succeeded;
  result = some result;
  lease_owner = none;
  lease_token = none;
  lease_expires_at = none;
  heartbeat_at = none;
  updated_at = now;
}

unfoldable pub complete :
    Draw → Identifier → Identifier → Identifier → Json → ℕ → Queue → Result (Job × Queue)
complete d job_id worker token result now q = do
  jobs ← update_leased job_id worker token now (succeed now result) q
  log_row d job_id job_succeeded (λ j. attempt j.attempt_count) jobs q

-- `retry_delay_seconds` is finite and not below zero.
unfoldable pub validate_delay : Seconds → Result ℕ
validate_delay (micros n) = ok n
validate_delay _ = err value_error

unfoldable pub status_after_failure : Bool → Job → JobStatus
status_after_failure retryable j = if exhausted j || not retryable then dead else retry_wait

unfoldable pub release_failed : JobStatus → ℕ → ℕ → Json → Job → Job
release_failed status available now error j = record j {
  status = status;
  available_at = available;
  last_error = some (reported error);
  lease_owner = none;
  lease_token = none;
  lease_expires_at = none;
  heartbeat_at = none;
  updated_at = now;
}

abbrev pub failure_event : JobStatus → EventType
failure_event retry_wait = job_retry_scheduled
failure_event _ = job_dead

-- The lease is checked by a SELECT, and the UPDATE after it names the job alone.
unfoldable pub fail :
    Draw
    → Identifier
    → Identifier
    → Identifier
    → Json
    → Bool
    → Seconds
    → ℕ
    → Queue
    → Result (Job × Queue)
fail d job_id worker token error retryable delay now q = do
  duration ← validate_delay delay
  old ← or_raise (select_one (holds_lease job_id worker token now) q.jobs) lease_lost
  let status = status_after_failure retryable old
  let jobs = update (with_job_id job_id) (release_failed status (now + duration) now error) q.jobs
  log_row d job_id (failure_event status) (λ j. failure j.attempt_count retryable error) jobs q

unfoldable pub cancel_row : ℕ → Job → Job
cancel_row now j = record j { status = JobStatus.cancelled; updated_at = now }

unfoldable pub is_cancellable : Identifier → Job → Bool
is_cancellable job_id j = with_job_id job_id j && is_waiting j

-- `cancel` once its UPDATE has changed one row.
unfoldable pub log_cancel : Draw → Identifier → ℕ → Queue → Result (Bool × Queue)
log_cancel d job_id now q = do
  (row, q') ←
      log_row d job_id job_cancelled (λ j. empty)
        (update (is_cancellable job_id) (cancel_row now) q.jobs) q
  ok (true, q')

unfoldable pub cancel : Draw → Identifier → ℕ → Queue → Result (Bool × Queue)
cancel d job_id now q =
    if row_count (is_cancellable job_id) q.jobs == 1
    then log_cancel d job_id now q
    else ok (false, q)

-- `if statuses:` no status, or an empty set of them, selects every row.
abbrev pub status_passes : List JobStatus → Job → Bool
status_passes [] j = true
status_passes (s ∷ ss) j = contains JobStatus-discrete (s ∷ ss) j.status

unfoldable pub list : List JobStatus → ℕ → Queue → Result (List Job)
list statuses limit q = do
  require (leb 1 limit && leb limit 10000) value_error
  ok (take limit (order_by listed_before (select_all (status_passes statuses) q.jobs)))
