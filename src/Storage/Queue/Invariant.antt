-- ===== src/Storage/Queue/Invariant.antt =====
-- What holds of every row of the queue, and of the rows together.
use kernel_generation_china.Prelude.{
  ℕ, ◌≤◌, ◌<◌, ◌≡◌, ◌≢◌, Bool, true, none, some, arith, All, Pairwise,
}
use kernel_generation_china.Domain.Enums.{JobStatus, queued, retry_wait, leased, succeeded, dead}
use kernel_generation_china.Storage.Events.{Identifier}
use kernel_generation_china.Storage.Events.Appending.{IsLog}
use kernel_generation_china.Storage.Queue.Jobs.{Job, Queue, is_expired, is_ready, is_waiting}
use kernel_generation_china.Storage.Queue.Claim.{expire, take_lease, extend_lease, exhausted}
use kernel_generation_china.Storage.Queue.Finish.{
  succeed, status_after_failure, release_failed, cancel_row,
}

-- The CHECK constraint of the table on the lease columns.
abbrev pub HasLeaseColumns : Job → Type 0
HasLeaseColumns j =
    (w : Identifier) × (t : Identifier) × (e : ℕ) × (h : ℕ) × (j.lease_owner ≡ some w)
    × (j.lease_token ≡ some t)
    × (j.lease_expires_at ≡ some e)
    × (j.heartbeat_at ≡ some h)

abbrev pub HasNoLeaseColumns : Job → Type 0
HasNoLeaseColumns j =
    (j.lease_owner ≡ none)
    × (j.lease_token ≡ none)
    × (j.lease_expires_at ≡ none)
    × (j.heartbeat_at ≡ none)

-- What the status says of the attempts.
abbrev pub AttemptsFit : JobStatus → ℕ → ℕ → Type 0
AttemptsFit queued n max = n ≡ 0
AttemptsFit retry_wait n max = (1 ≤ n) × (n < max)
AttemptsFit leased n max = 1 ≤ n
AttemptsFit succeeded n max = 1 ≤ n
AttemptsFit dead n max = 1 ≤ n
AttemptsFit JobStatus.cancelled n max = n < max

abbrev pub ColumnsFit : JobStatus → Job → Type 0
ColumnsFit leased j = HasLeaseColumns j
ColumnsFit _ j = HasNoLeaseColumns j

abbrev pub ResultFits : JobStatus → Job → Type 0
ResultFits succeeded j = (r : ℕ) × (j.result ≡ some r)
ResultFits _ j = j.result ≡ none

pub record IsJob (j : Job) : Type 0 where
  pub round : 1 ≤ j.round_number
  pub positive : 1 ≤ j.max_attempts
  pub bounded : j.attempt_count ≤ j.max_attempts
  pub attempts : AttemptsFit j.status j.attempt_count j.max_attempts
  pub columns : ColumnsFit j.status j
  pub result : ResultFits j.status j

-- Two rows share neither a job id nor an idempotency key.
abbrev pub Apart : Job → Job → Type 0
Apart a b =
    (b.job_id ≢ a.job_id)
    × ((k : Identifier) → a.idempotency_key ≡ some k → b.idempotency_key ≢ some k)

pub record IsQueue (q : Queue) : Type 0 where
  pub rows : All IsJob q.jobs
  pub apart : Pairwise Apart q.jobs
  pub log : IsLog q.events

-- Each SET clause keeps a row well formed, under the WHERE clause that it stands with.
pub expire-IsJob : (now : ℕ) (j : Job) → is_expired now j ≡ true → IsJob j → IsJob (expire now j j)
unfolding expire is_expired exhausted
expire-IsJob now j h v = ground arith

pub take_lease-IsJob :
    (worker token now expires : ℕ) (j : Job)
    → is_ready now j ≡ true
    → IsJob j
    → IsJob (take_lease worker token now expires j)
unfolding take_lease is_ready
take_lease-IsJob worker token now expires j h v = ground arith

pub extend_lease-IsJob :
    (now expires : ℕ) (j : Job) → j.status ≡ leased → IsJob j → IsJob (extend_lease now expires j)
unfolding extend_lease
extend_lease-IsJob now expires j h v = ground arith

pub succeed-IsJob :
    (now result : ℕ) (j : Job) → j.status ≡ leased → IsJob j → IsJob (succeed now result j)
unfolding succeed
succeed-IsJob now result j h v = ground arith

pub release_failed-IsJob :
    (retryable : Bool) (available now error : ℕ) (j : Job)
    → j.status ≡ leased
    → IsJob j
    → IsJob (release_failed (status_after_failure retryable j) available now error j)
unfolding release_failed status_after_failure exhausted
release_failed-IsJob retryable available now error j h v = ground arith

pub cancel_row-IsJob :
    (now : ℕ) (j : Job) → is_waiting j ≡ true → IsJob j → IsJob (cancel_row now j)
unfolding cancel_row
cancel_row-IsJob now j h v = ground arith
