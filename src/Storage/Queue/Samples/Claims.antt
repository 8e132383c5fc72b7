-- ===== src/Storage/Queue/Samples/Claims.antt =====
-- Runs of `claim` and of a whole history of calls.
use mathlib.Core.List.{Memᴰ}
use kernel_generation_china.Prelude.{
  ◌+◌, ◌≤◌, ◌≡◌, refl, ◌⊎◌, true, false, none, some, List, [], ◌∷◌, map, arith,
}
use kernel_generation_china.Prelude.Table.{
  select_one, select_all, update, row_count, insert_by, order_by,
}
use kernel_generation_china.Prelude.Result.{ok}
use kernel_generation_china.Domain.Enums.{queued, leased}
use kernel_generation_china.Storage.Events.{
  append, reuse_or_insert, insert_event, new_event, chosen_id, chosen_time,
}
use kernel_generation_china.Storage.Queue.Jobs.{
  Job, Queue, micros, is_expired, is_ready, claimed_before,
}
use kernel_generation_china.Storage.Queue.Enqueue.{get}
use kernel_generation_china.Storage.Queue.Claim.{
  log_row, validate_duration, sweep_rows, expired_rows, sweep_expired_leases, next_ready,
  take_lease, claim_rows, claim_selected, claim,
}
use kernel_generation_china.Storage.Queue.Calls.{
  Input, enqueues, sweeps, claims, completes, run, committed, serve,
}
use kernel_generation_china.Storage.Queue.Invariant.{IsQueue}
use kernel_generation_china.Storage.Queue.Sweep.{swept}
use kernel_generation_china.Storage.Queue.Safety.{empty_queue, serve-IsQueue, lease_isolated}
use kernel_generation_china.Storage.Queue.Statuses.{follows, status_edges}
use kernel_generation_china.Storage.Queue.Selection.{claim_first}
use kernel_generation_china.Storage.Queue.Samples.{
  busy, busy-IsQueue, draws, leased_row, request, row,
}

abbrev inputs : List Input
inputs =
    record { draws = draws; now = 10; call = enqueues (request 1) }
    ∷ record { draws = λ i. draws (10 + i); now = 20; call = claims 4 3 (micros 80) }
    ∷ record { draws = λ i. draws (20 + i); now = 30; call = completes 1 3 9 6 }
    ∷ record { draws = λ i. draws (30 + i); now = 200; call = sweeps }
    ∷ []

serve-IsQueue_example : IsQueue (serve empty_queue inputs)
serve-IsQueue_example = serve-IsQueue inputs

-- The second worker claims job 2 while job 1 stays leased.
abbrev claimed : Job
claimed = record (row 2) {
  status = leased;
  attempt_count = 1;
  lease_owner = some 8;
  lease_token = some 9;
  lease_expires_at = some 150;
  heartbeat_at = some 50;
  updated_at = 50;
}

abbrev after_claim : Queue
after_claim = committed busy (run draws 50 (claims 9 8 (micros 100)) busy)

runs_claim : run draws 50 (claims 9 8 (micros 100)) busy ≡ ok after_claim
unfolding run claim validate_duration sweep_expired_leases sweep_rows expired_rows is_expired
    select_all order_by insert_by next_ready is_ready claimed_before claim_selected row_count
    log_row claim_rows update take_lease select_one append reuse_or_insert insert_event new_event
    chosen_id chosen_time
runs_claim = refl

lease_isolated_example : get 1 after_claim ≡ some leased_row
unfolding get select_one
lease_isolated_example =
    lease_isolated draws 50 (claims 9 8 (micros 100)) busy after_claim 1 3 4 100 leased_row
      busy-IsQueue refl refl refl refl refl (omega arith) (λ p. p) runs_claim

status_edges_example :
    (k : Job) × (get 2 after_claim ≡ some k)
    × (follows queued k.status ≡ true)
    × (0 ≤ k.attempt_count)
    × (k.attempt_count ≤ 0 + 1)
unfolding get select_one
status_edges_example =
    status_edges draws 50 (claims 9 8 (micros 100)) busy after_claim 2 (row 2) busy-IsQueue refl
      runs_claim

claims_second : claim draws 9 8 (micros 100) 50 busy ≡ ok (some claimed, after_claim)
unfolding run claim validate_duration sweep_expired_leases sweep_rows expired_rows is_expired
    select_all order_by insert_by next_ready is_ready claimed_before claim_selected row_count
    log_row claim_rows update take_lease select_one append reuse_or_insert insert_event new_event
    chosen_id chosen_time
claims_second = refl

claim_first_example :
    ((some claimed ≡ none)
      × ((j : Job) → Memᴰ j (map (swept 50) busy.jobs) → is_ready 50 j ≡ false))
    ⊎ ((s : Job) × (some claimed ≡ some (take_lease 8 9 50 (50 + 100) s))
        × (get s.job_id after_claim ≡ some claimed)
        × (is_ready 50 s ≡ true)
        × Memᴰ s (map (swept 50) busy.jobs)
        × ((j : Job)
            → Memᴰ j (map (swept 50) busy.jobs)
            → is_ready 50 j ≡ true
            → claimed_before s j ≡ true))
claim_first_example =
    claim_first draws 9 8 100 50 busy (some claimed) after_claim busy-IsQueue claims_second
