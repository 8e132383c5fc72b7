-- ===== src/Storage/Queue/Retries.antt =====
-- A row that is tried again: the attempts run out, and its request can no longer be replayed.
use kernel_generation_china.Prelude.{
  ℕ, ◌+◌, ◌≤◌, ◌<◌, ◌≡◌, ◌≢◌, refl, sym, ap, ◌∙◌, subst, ◌↔◌, ◌⊎◌, Bool, true, false, some, List,
  arith, ◌==◌, ==→eq, if◌then◌else◌,
}
use mathlib.Core.List.{Memᴰ}
use mathlib.Core.Option
use kernel_generation_china.Prelude.Table.{
  select_one, update, select_one_test, select_one_mem, select_one-update,
}
use kernel_generation_china.Prelude.Result.{
  ok, err, or_raise, lease_lost, idempotency_conflict, >>=-eq-ok,
}
use kernel_generation_china.Storage.Queue.Sweep.{unique_rows, log_row_lem}
use kernel_generation_china.Storage.Queue.Leases.{holds_only}
use kernel_generation_china.Domain.Enums.{JobStatus, retry_wait, dead}
use kernel_generation_china.Storage.Events.{Json, Draw}
use kernel_generation_china.Storage.Queue.Jobs.{
  Job, EvaluationJob, Queue, micros, with_job_id, holds_lease,
}
use kernel_generation_china.Storage.Queue.Enqueue.{get, enqueue, same_enqueue_request}
use kernel_generation_china.Storage.Queue.Claim.{exhausted}
use kernel_generation_china.Storage.Queue.Finish.{
  fail, validate_delay, status_after_failure, release_failed,
}
use kernel_generation_china.Storage.Queue.Invariant.{IsQueue}
use kernel_generation_china.Storage.Queue.Admission.{conflict, existing_of_get}

other_time :
    (r : Job) (j : EvaluationJob)
    → r.available_at ≢ j.available_at
    → same_enqueue_request r j ≡ false
unfolding same_enqueue_request
other_time r j h = ground arith

pub released_id :
    (s : JobStatus) (available now error : ℕ) (z : Job)
    → (release_failed s available now error z).job_id ≡ z.job_id
unfolding release_failed
released_id s available now error z = refl

module _ (d : Draw) (i w t now x : ℕ) (error : Json) (again : Bool) (q : Queue) (row : Job)
    (q' : Queue) (j : Job) where
  in_table : get i q ≡ some j → Memᴰ j q.jobs
  unfolding get
  in_table g = select_one_mem (with_job_id i) q.jobs j g

  own_id : get i q ≡ some j → j.job_id ≡ i
  unfolding get
  own_id g = ==→eq j.job_id i (select_one_test (with_job_id i) q.jobs j g)

  read_table :
      {jobs : List Job}
      → q'.jobs ≡ jobs
      → select_one (with_job_id i) jobs ≡ some row
      → get i q' ≡ some row
  unfolding get
  read_table same found = ap (select_one (with_job_id i)) same ∙ found

  -- What an update by job id alone makes of the row.
  written :
      (f : Job → Job)
      → ((z : Job) → (f z).job_id ≡ z.job_id)
      → get i q ≡ some j
      → select_one (with_job_id i) (update (with_job_id i) f q.jobs) ≡ some row
      → row ≡ f j
  unfolding get
  written f keep g read =
      let hit : with_job_id i j ≡ true = select_one_test (with_job_id i) q.jobs j g in
      let found : some row ≡ some (f j) =
        sym read
        ∙ select_one-update (with_job_id i) (with_job_id i) f
            (λ z _. ap (λ (k : ℕ). k == i) (keep z)) q.jobs
        ∙ ap (Option.map (λ z. if with_job_id i z then f z else z)) g
        ∙ rw hit in
      ground arith

  dead_iff :
      ((release_failed (status_after_failure again j) (now + x) now error j).status ≡ dead)
      ↔ ((j.max_attempts ≤ j.attempt_count) ⊎ (again ≡ false))
  unfolding release_failed status_after_failure exhausted
  dead_iff = ground arith

  retry_iff :
      ((release_failed (status_after_failure again j) (now + x) now error j).status ≡ retry_wait)
      ↔ ((j.attempt_count < j.max_attempts) × (again ≡ true))
  unfolding release_failed status_after_failure exhausted
  retry_iff = ground arith

  -- On a well-formed queue, a failure that commits was reported under the live lease of the row.
  -- It returns the row, under its id, without a lease, with the error and available after the
  -- delay: dead if its attempts are used up or no retry is wanted, and else waiting for a retry.
  pub fail_releases :
      IsQueue q
      → get i q ≡ some j
      → fail d i w t error again (micros x) now q ≡ ok (row, q')
      → (holds_lease i w t now j ≡ true)
        × (row ≡ release_failed (status_after_failure again j) (now + x) now error j)
        × (get i q' ≡ some row)
        × ((row.status ≡ dead) ↔ ((j.max_attempts ≤ j.attempt_count) ⊎ (again ≡ false)))
        × ((row.status ≡ retry_wait) ↔ ((j.attempt_count < j.max_attempts) × (again ≡ true)))
  unfolding fail validate_delay
  fail_releases v g h =
      let (old, found, h1) =
        >>=-eq-ok (or_raise (select_one (holds_lease i w t now) q.jobs) lease_lost) _ h in
      let at : select_one (holds_lease i w t now) q.jobs ≡ some old = ground arith in
      let held : holds_lease i w t now old ≡ true =
        select_one_test (holds_lease i w t now) q.jobs old at in
      let one : old ≡ j =
        unique_rows q.jobs v.apart old j (select_one_mem (holds_lease i w t now) q.jobs old at)
          (in_table g) (holds_only i w t now q old held ∙ sym (own_id g)) in
      let (same, read, log) = log_row_lem d i _ _ _ q row q' h1 in
      let is : row ≡ release_failed (status_after_failure again j) (now + x) now error j =
        subst (λ z. row ≡ release_failed (status_after_failure again z) (now + x) now error j) one
          (written (release_failed (status_after_failure again old) (now + x) now error)
            (released_id (status_after_failure again old) (now + x) now error) g read) in
      (
        subst (λ z. holds_lease i w t now z ≡ true) one held,
        is,
        read_table same read,
        subst (λ z. (z.status ≡ dead) ↔ ((j.max_attempts ≤ j.attempt_count) ⊎ (again ≡ false)))
            (sym is) dead_iff,
        subst (λ z. (z.status ≡ retry_wait) ↔ ((j.attempt_count < j.max_attempts) × (again ≡ true)))
            (sym is) retry_iff,
      )

  -- A request whose row has failed and waits for a retry, or is dead, cannot be replayed: the
  -- failure has overwritten the time from which the row is available, and `enqueue`
  -- compares that time with the one requested. Unless the two happen to agree, it refuses the
  -- unchanged request as a conflict.
  pub replay_conflicts :
      (r : EvaluationJob) (d' : Draw) (later : ℕ)
      → IsQueue q
      → r.job_id ≡ i
      → get i q ≡ some j
      → fail d i w t error again (micros x) now q ≡ ok (row, q')
      → now + x ≢ r.available_at
      → enqueue later d' r q' ≡ err idempotency_conflict
  unfolding release_failed
  replay_conflicts r d' later v id g h apart =
      let (held, is, found, _, _) = fail_releases v g h in
      conflict later d' r q' row
        (existing_of_get r q' row (subst (λ k. get k q' ≡ some row) (sym id) found))
        (other_time row r (λ e. apart (sym (ap (λ (z : Job). z.available_at) is ∙ refl) ∙ e)))
