-- ===== src/Storage/Queue/Samples/Endings.antt =====
-- Runs of the calls that end a lease, and of `enqueue`.
use kernel_generation_china.Prelude.{
  ◌+◌, ◌≤◌, ◌<◌, ◌≡◌, refl, ◌⊎◌, ◌↔◌, true, false, none, some, [], ◌∷◌, map, arith,
}
use kernel_generation_china.Prelude.Table.{
  select_one, select_all, update, row_count, insert_by, order_by,
}
use kernel_generation_china.Prelude.Result.{ok, err, lease_lost, idempotency_conflict}
use kernel_generation_china.Domain.Enums.{succeeded, dead, retry_wait}
use kernel_generation_china.Storage.Events.{
  append, reuse_or_insert, insert_event, new_event, chosen_id, chosen_time, empty_log,
}
use kernel_generation_china.Storage.Events.Appending.{Extends, empty-IsLog}
use kernel_generation_china.Storage.Queue.Jobs.{
  Job, Queue, reported, lease_expired, micros, is_terminal, is_expired, holds_lease, expires_before,
}
use kernel_generation_china.Storage.Queue.Enqueue.{
  get, queued_job, enqueued_event, by_key, existing_job, insert_job, replay_or_insert, enqueue,
}
use kernel_generation_china.Storage.Queue.Claim.{
  extend_lease, log_row, exhausted, expire, expire_row, sweep_row, sweep_rows, expired_rows,
  sweep_expired_leases, heartbeat,
}
use kernel_generation_china.Storage.Queue.Finish.{
  succeed, complete, validate_delay, status_after_failure, release_failed, fail, is_cancellable,
  cancel,
}
use kernel_generation_china.Storage.Queue.Calls.{enqueues, sweeps, fails, cancels, run, committed}
use kernel_generation_china.Storage.Queue.Invariant.{IsQueue}
use kernel_generation_china.Storage.Queue.Sweep.{swept, sweep_exact}
use kernel_generation_china.Storage.Queue.Admission.{enqueue_replay}
use kernel_generation_china.Storage.Queue.Safety.{empty_queue, terminal_kept}
use kernel_generation_china.Storage.Queue.Leases.{
  heartbeat_live, no_lease_refused, complete_live, IsSucceeded,
}
use kernel_generation_china.Storage.Queue.Retries.{fail_releases, replay_conflicts}
use kernel_generation_china.Storage.Queue.Samples.{
  busy, busy-IsQueue, draws, leased_row, request, row,
}

-- At 200 the lease of job 1 has run out.
abbrev expired_row : Job
expired_row = record leased_row {
  status = retry_wait;
  available_at = 200;
  lease_owner = none;
  lease_token = none;
  lease_expires_at = none;
  heartbeat_at = none;
  last_error = some (lease_expired 200);
  updated_at = 200;
}

abbrev after_sweep : Queue
after_sweep = committed busy (run draws 200 sweeps busy)

sweeps_first : sweep_expired_leases draws 200 busy ≡ ok (expired_row ∷ [], after_sweep)
unfolding run sweep_expired_leases sweep_rows sweep_row expired_rows expires_before is_expired
    select_all order_by insert_by log_row expire_row expire exhausted update select_one append
    reuse_or_insert insert_event new_event chosen_id chosen_time
sweeps_first = refl

sweep_exact_example :
    (after_sweep.jobs ≡ map (swept 200) busy.jobs) × Extends busy.events after_sweep.events
sweep_exact_example =
    sweep_exact draws 200 busy (expired_row ∷ []) after_sweep busy-IsQueue sweeps_first

expired_lease : (j : Job) → get 1 busy ≡ some j → holds_lease 1 3 4 100 j ≡ false
unfolding get select_one holds_lease
expired_lease j h = ground arith

no_lease_refused_example :
    (heartbeat 1 3 4 (micros 60) 100 busy ≡ err lease_lost)
    × (complete (draws 0) 1 3 4 6 100 busy ≡ err lease_lost)
    × (fail (draws 0) 1 3 4 7 true (micros 0) 100 busy ≡ err lease_lost)
no_lease_refused_example =
    no_lease_refused 1 3 4 100 busy (draws 0) 59 0 6 7 true busy-IsQueue expired_lease

complete_live_example :
    (q' : Queue) × (complete (draws 0) 1 3 4 6 50 busy ≡ ok (succeed 50 6 leased_row, q'))
    × (get 1 q' ≡ some (succeed 50 6 leased_row))
    × IsSucceeded 6 (succeed 50 6 leased_row)
unfolding get select_one holds_lease
complete_live_example =
    complete_live 1 3 4 50 busy leased_row (draws 0) 6 busy-IsQueue refl refl refl

abbrev failed : Job
failed = record leased_row {
  status = retry_wait;
  available_at = 80;
  last_error = some (reported 7);
  lease_owner = none;
  lease_token = none;
  lease_expires_at = none;
  heartbeat_at = none;
  updated_at = 50;
}

abbrev after_failure : Queue
after_failure = committed busy (run draws 50 (fails 1 3 4 7 true (micros 30)) busy)

fails_first : fail (draws 0) 1 3 4 7 true (micros 30) 50 busy ≡ ok (failed, after_failure)
unfolding run fail validate_delay holds_lease status_after_failure exhausted release_failed log_row
    update select_one append reuse_or_insert insert_event new_event chosen_id chosen_time
fails_first = refl

fail_releases_example :
    (holds_lease 1 3 4 50 leased_row ≡ true)
    × (failed ≡ release_failed (status_after_failure true leased_row) (50 + 30) 50 7 leased_row)
    × (get 1 after_failure ≡ some failed)
    × ((failed.status ≡ dead) ↔ ((2 ≤ 1) ⊎ (true ≡ false)))
    × ((failed.status ≡ retry_wait) ↔ ((1 < 2) × (true ≡ true)))
unfolding get select_one
fail_releases_example =
    fail_releases (draws 0) 1 3 4 50 30 7 true busy failed after_failure leased_row busy-IsQueue
      refl fails_first

replay_conflicts_example : enqueue 60 (draws 1) (request 1) after_failure ≡ err idempotency_conflict
unfolding get select_one
replay_conflicts_example =
    replay_conflicts (draws 0) 1 3 4 50 30 7 true busy failed after_failure leased_row (request 1)
      (draws 1) 60 busy-IsQueue refl refl fails_first (λ e. omega arith)

abbrev done_row : Job
done_row = record leased_row {
  status = succeeded;
  result = some 6;
  lease_owner = none;
  lease_token = none;
  lease_expires_at = none;
  heartbeat_at = none;
  updated_at = 50;
}

abbrev done_queue : Queue
done_queue = record { jobs = done_row ∷ row 2 ∷ []; events = empty_log }

done-IsQueue : IsQueue done_queue
done-IsQueue = record {
  rows = (
    record {
      round = omega arith;
      positive = omega arith;
      bounded = omega arith;
      attempts = omega arith;
      columns = (refl, refl, refl, refl);
      result = (6, refl);
    },
    busy-IsQueue.rows.1,
  );
  apart = (((omega arith, λ k h. ground arith), tt), (tt, tt));
  log = empty-IsLog;
}

is_done : is_terminal done_row ≡ true
unfolding is_terminal
is_done = refl

nothing_cancelled : run draws 60 (cancels 1) done_queue ≡ ok done_queue
unfolding run cancel row_count is_cancellable
nothing_cancelled = refl

terminal_kept_example : get 1 done_queue ≡ some done_row
unfolding get select_one
terminal_kept_example =
    terminal_kept draws 60 (cancels 1) done_queue done_queue 1 done_row done-IsQueue refl is_done
      nothing_cancelled

abbrev one_job : Queue
one_job = committed empty_queue (run draws 10 (enqueues (request 1)) empty_queue)

enqueues_first : enqueue 10 (draws 0) (request 1) empty_queue ≡ ok (row 1, one_job)
unfolding run enqueue replay_or_insert existing_job get by_key insert_job queued_job enqueued_event
    select_one append reuse_or_insert insert_event new_event chosen_id chosen_time
enqueues_first = refl

enqueue_replay_example : enqueue 40 (draws 1) (request 1) one_job ≡ ok (row 1, one_job)
enqueue_replay_example =
    enqueue_replay 10 40 (draws 0) (draws 1) (request 1) empty_queue (row 1) one_job enqueues_first

heartbeat_live_example :
    (q' : Queue) × (heartbeat 1 3 4 (micros 60) 50 busy ≡ ok (extend_lease 50 110 leased_row, q'))
    × (get 1 q' ≡ some (extend_lease 50 110 leased_row))
    × (q'.events ≡ busy.events)
    × (holds_lease 1 3 4 109 (extend_lease 50 110 leased_row) ≡ true)
unfolding get select_one holds_lease
heartbeat_live_example =
    heartbeat_live 1 3 4 50 busy leased_row 59 109 busy-IsQueue refl refl (omega arith)
