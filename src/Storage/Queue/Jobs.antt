-- ===== src/Storage/Queue/Jobs.antt =====
-- The rows of evaluation_jobs (storage/database.py), the request of domain/models.py and the
-- WHERE and ORDER BY clauses of storage/job_queue.py. Times are in microseconds.
use kernel_generation_china.Prelude.{
  ℕ, Bool, true, false, ◌&&◌, ◌||◌, Option, none, some, List, leb, ltb, ◌==◌, null_eq, null_le,
  null_gt, then_by, compare,
}
use kernel_generation_china.Prelude.Int.{ℤ, compare_ℤ}
use kernel_generation_china.Domain.Enums.{
  EvaluationStage, JobStatus, succeeded, dead, is_queued, is_retry_wait, is_leased,
}
use kernel_generation_china.Storage.Events.{Identifier, Json, EventLog}

-- A float argument that is a duration in seconds: NaN or infinite, below zero, or a whole number
-- of microseconds.
pub data Seconds : Type 0 where
  not_finite : Seconds
  negative : Seconds
  micros : ℕ → Seconds

pub data JobError : Type 0 where
  lease_expired : ℕ → JobError
  reported : Json → JobError

-- A request, `EvaluationJob`.
pub record EvaluationJob : Type 0 where
  pub job_id : Identifier
  pub experiment_id : Identifier
  pub task_id : Identifier
  pub round_number : ℕ
  pub candidate_id : Identifier
  pub stage : EvaluationStage
  pub payload : Json
  pub priority : ℤ
  pub max_attempts : ℕ
  pub available_at : ℕ
  pub idempotency_key : Option Identifier

-- A row, `StoredEvaluationJob`.
pub record Job : Type 0 where
  pub job_id : Identifier
  pub experiment_id : Identifier
  pub task_id : Identifier
  pub round_number : ℕ
  pub candidate_id : Identifier
  pub stage : EvaluationStage
  pub payload : Json
  pub priority : ℤ
  pub status : JobStatus
  pub attempt_count : ℕ
  pub max_attempts : ℕ
  pub available_at : ℕ
  pub lease_owner : Option Identifier
  pub lease_token : Option Identifier
  pub lease_expires_at : Option ℕ
  pub heartbeat_at : Option ℕ
  pub result : Option Json
  pub last_error : Option JobError
  pub idempotency_key : Option Identifier
  pub created_at : ℕ
  pub updated_at : ℕ

-- The two tables that the queue writes.
pub record Queue : Type 0 where
  pub jobs : List Job
  pub events : EventLog

-- `StoredEvaluationJob.is_terminal`
abbrev pub status_is_terminal : JobStatus → Bool
status_is_terminal succeeded = true
status_is_terminal dead = true
status_is_terminal JobStatus.cancelled = true
status_is_terminal _ = false

unfoldable pub is_terminal : Job → Bool
is_terminal j = status_is_terminal j.status

-- WHERE job_id = ?
abbrev pub with_job_id : Identifier → Job → Bool
with_job_id i j = j.job_id == i

-- WHERE idempotency_key = ?
abbrev pub with_key : Identifier → Job → Bool
with_key k j = null_eq j.idempotency_key k

-- WHERE status IN (QUEUED, RETRY_WAIT)
abbrev pub is_waiting : Job → Bool
is_waiting j = is_queued j.status || is_retry_wait j.status

-- WHERE status = LEASED AND lease_expires_at <= ?
unfoldable pub is_expired : ℕ → Job → Bool
is_expired now j = is_leased j.status && null_le j.lease_expires_at now

-- WHERE status IN (QUEUED, RETRY_WAIT) AND available_at <= ? AND attempt_count < max_attempts
unfoldable pub is_ready : ℕ → Job → Bool
is_ready now j = is_waiting j && leb j.available_at now && ltb j.attempt_count j.max_attempts

-- WHERE job_id = ? AND status = LEASED AND lease_owner = ? AND lease_token = ?
--   AND lease_expires_at > ?
unfoldable pub holds_lease : Identifier → Identifier → Identifier → ℕ → Job → Bool
holds_lease job_id worker token now j =
    j.job_id == job_id
    && is_leased j.status
    && null_eq j.lease_owner worker
    && null_eq j.lease_token token
    && null_gt j.lease_expires_at now

abbrev pub expiry : Option ℕ → ℕ
expiry none = 0
expiry (some t) = t

-- ORDER BY lease_expires_at, job_id, among rows whose lease_expires_at is not NULL
unfoldable pub expires_before : Job → Job → Bool
expires_before a b =
    then_by (compare (expiry a.lease_expires_at) (expiry b.lease_expires_at))
      (leb a.job_id b.job_id)

-- ORDER BY priority DESC, available_at ASC, created_at ASC, job_id ASC
unfoldable pub claimed_before : Job → Job → Bool
claimed_before a b = then_by (compare_ℤ b.priority a.priority) (
    then_by (compare a.available_at b.available_at)
      (then_by (compare a.created_at b.created_at) (leb a.job_id b.job_id)))

-- ORDER BY created_at, job_id
unfoldable pub listed_before : Job → Job → Bool
listed_before a b = then_by (compare a.created_at b.created_at) (leb a.job_id b.job_id)
