-- ===== src/Storage/Queue/Statuses.antt =====
-- The diagram of the statuses that the calls follow.
use kernel_generation_china.Prelude.{ℕ, ◌+◌, ◌≤◌, ◌≡◌, refl, Bool, true, false, some, arith}
use kernel_generation_china.Prelude.Result.{ok}
use kernel_generation_china.Domain.Enums.{JobStatus, queued, retry_wait, leased, succeeded, dead}
use kernel_generation_china.Storage.Events.{Identifier, Draw}
use kernel_generation_china.Storage.Queue.Jobs.{Job, Queue, is_expired, is_ready, holds_lease}
use kernel_generation_china.Storage.Queue.Enqueue.{get}
use kernel_generation_china.Storage.Queue.Claim.{expire, exhausted, take_lease, extend_lease}
use kernel_generation_china.Storage.Queue.Finish.{
  succeed, status_after_failure, release_failed, cancel_row, is_cancellable,
}
use kernel_generation_china.Storage.Queue.Calls.{Call, run}
use kernel_generation_china.Storage.Queue.Invariant.{IsQueue}
use kernel_generation_china.Storage.Queue.Sweep.{swept}
use kernel_generation_china.Storage.Queue.Changes.{
  Change, keeps, expires, leases, extends, succeeds, releases, cancelled,
}
use kernel_generation_china.Storage.Queue.Safety.{run-Change}

-- The diagram of the statuses.
abbrev pub follows : JobStatus → JobStatus → Bool
follows queued queued = true
follows queued leased = true
follows queued JobStatus.cancelled = true
follows retry_wait retry_wait = true
follows retry_wait leased = true
follows retry_wait JobStatus.cancelled = true
follows leased leased = true
follows leased retry_wait = true
follows leased succeeded = true
follows leased dead = true
follows succeeded succeeded = true
follows dead dead = true
follows JobStatus.cancelled JobStatus.cancelled = true
follows _ _ = false

follows_self : (s : JobStatus) → follows s s ≡ true
follows_self queued = refl
follows_self _ = refl

abbrev Advances : Job → Job → Type 0
Advances j k =
    (follows j.status k.status ≡ true)
    × (j.attempt_count ≤ k.attempt_count)
    × (k.attempt_count ≤ j.attempt_count + 1)

Change-Advances : (now : ℕ) (c : Call) (j k : Job) → Change now c j k → Advances j k
unfolding is_expired is_ready holds_lease is_cancellable swept expire take_lease extend_lease
    succeed release_failed cancel_row exhausted status_after_failure
Change-Advances now c j k (keeps e) = ground (arith, follows_self j.status)
Change-Advances now c j k (expires h e) = ground arith
Change-Advances now c j k (leases a b s x p h e) = ground arith
Change-Advances now c j k (extends i w a s x p h e) = ground arith
Change-Advances now c j k (succeeds i w a r p h e) = ground arith
Change-Advances now c j k (releases i w a r again s x p h e) = ground arith
Change-Advances now c j k (cancelled i p h e) = ground arith

-- On a well-formed queue every call that commits keeps each row, under its id, and moves its
-- status along an edge of the diagram or not at all: only a row that was queued, waiting for a
-- retry or leased is leased after it, and only from leased does a row go over to succeeded, to
-- dead or to waiting for a retry. The count of attempts stays or grows by one.
pub status_edges :
    (draws : ℕ → Draw) (now : ℕ) (c : Call) (q q' : Queue) (i : Identifier) (j : Job)
    → IsQueue q
    → get i q ≡ some j
    → run draws now c q ≡ ok q'
    → (k : Job) × (get i q' ≡ some k)
      × (follows j.status k.status ≡ true)
      × (j.attempt_count ≤ k.attempt_count)
      × (k.attempt_count ≤ j.attempt_count + 1)
status_edges draws now c q q' i j v g h =
    let (k, found, change) = run-Change draws now c q q' i j v h g in
    let (edge, low, high) = Change-Advances now c j k change in (k, found, edge, low, high)
