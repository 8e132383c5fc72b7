-- ===== src/Storage/Queue/Claim.antt =====
-- `_sweep_expired_in_transaction`, `sweep_expired_leases`, `claim` and `heartbeat`. The draw
-- number i of a call is what uuid4 and utc_now return for the i-th event that it appends.
use mathlib.Core.List.{head?}
use kernel_generation_china.Prelude.{
  ℕ, suc, ◌+◌, Bool, ◌&&◌, Option, none, some, List, [], ◌∷◌, leb, ◌==◌, if◌then◌else◌, length,
}
use kernel_generation_china.Prelude.Table.{select_one, select_all, update, row_count, order_by}
use kernel_generation_china.Prelude.Result.{
  Result, ok, err, value_error, runtime_error, assertion_error, lease_lost, require, or_raise,
  ◌>>=◌, ◌>>◌,
}
use kernel_generation_china.Domain.Enums.{retry_wait, leased, dead}
use kernel_generation_china.Storage.Events.{
  Identifier, EventType, Payload, NewEvent, Draw, job_lease_expired, job_leased, job_aggregate,
  status_after, lease, append,
}
use kernel_generation_china.Storage.Queue.Jobs.{
  Job, Queue, Seconds, micros, lease_expired, with_job_id, is_expired, is_ready, holds_lease,
  expires_before, claimed_before,
}
use kernel_generation_china.Storage.Queue.Enqueue.{is_present}

abbrev pub job_event : EventType → Payload → Job → NewEvent
job_event type payload j = record {
  event_type = type;
  aggregate = job_aggregate j.job_id;
  experiment_id = some j.experiment_id;
  task_id = some j.task_id;
  round_number = some j.round_number;
  payload = payload;
  event_id = none;
  occurred_at = none;
}

-- What each change of a row ends with: the row is read back and its event appended, in the
-- transaction that has written `jobs`.
unfoldable pub log_row :
    Draw → Identifier → EventType → (Job → Payload) → List Job → Queue → Result (Job × Queue)
log_row d job_id type payload jobs q = do
  row ← or_raise (select_one (with_job_id job_id) jobs) assertion_error
  (e, events) ← append d (job_event type (payload row) row) q.events
  ok (row, record { jobs = jobs; events = events })

-- `_validate_duration`: finite and above zero.
unfoldable pub validate_duration : Seconds → Result ℕ
validate_duration (micros (suc n)) = ok (suc n)
validate_duration _ = err value_error

unfoldable pub exhausted : Job → Bool
exhausted j = leb j.max_attempts j.attempt_count

-- The SET clause of the sweep, for a row that was selected as `old`.
unfoldable pub expire : ℕ → Job → Job → Job
expire now old j = record j {
  status = if exhausted old then dead else retry_wait;
  available_at = now;
  lease_owner = none;
  lease_token = none;
  lease_expires_at = none;
  heartbeat_at = none;
  last_error = some (lease_expired now);
  updated_at = now;
}

-- The UPDATE of the sweep for one selected row.
unfoldable pub expire_row : ℕ → Job → List Job → List Job
expire_row now old = update (λ j. with_job_id old.job_id j && is_expired now j) (expire now old)

-- The body of the loop.
unfoldable pub sweep_row : Draw → ℕ → Job → Queue → Result (Job × Queue)
sweep_row d now old q =
    log_row d old.job_id job_lease_expired (λ j. status_after j.status) (expire_row now old q.jobs)
      q

-- The loop over the selected rows, from draw `i` on.
unfoldable pub sweep_rows : (ℕ → Draw) → ℕ → ℕ → List Job → Queue → Result (List Job × Queue)
sweep_rows draws i now [] q = ok ([], q)
sweep_rows draws i now (old ∷ rest) q = do
  (current, q1) ← sweep_row (draws i) now old q
  (others, q2) ← sweep_rows draws (suc i) now rest q1
  ok (current ∷ others, q2)

unfoldable pub expired_rows : ℕ → Queue → List Job
expired_rows now q = order_by expires_before (select_all (is_expired now) q.jobs)

unfoldable pub sweep_expired_leases : (ℕ → Draw) → ℕ → Queue → Result (List Job × Queue)
sweep_expired_leases draws now q = sweep_rows draws 0 now (expired_rows now q) q

-- SELECT ... ORDER BY ... LIMIT 1
unfoldable pub next_ready : ℕ → Queue → Option Job
next_ready now q = head? (order_by claimed_before (select_all (is_ready now) q.jobs))

-- The SET clause of the claim.
unfoldable pub take_lease : Identifier → Identifier → ℕ → ℕ → Job → Job
take_lease worker token now expires j = record j {
  status = leased;
  attempt_count = j.attempt_count + 1;
  lease_owner = some worker;
  lease_token = some token;
  lease_expires_at = some expires;
  heartbeat_at = some now;
  updated_at = now;
}

-- WHERE job_id = ? with the conditions of the selection once more.
abbrev pub is_selected : Job → ℕ → Job → Bool
is_selected selected now j = with_job_id selected.job_id j && is_ready now j

unfoldable pub claim_rows : Identifier → Identifier → ℕ → ℕ → Job → List Job → List Job
claim_rows worker token now duration selected =
    update (is_selected selected now) (take_lease worker token now (now + duration))

-- `claim` once a row has been selected.
unfoldable pub claim_selected :
    Draw → Identifier → Identifier → ℕ → ℕ → Queue → Option Job → Result (Option Job × Queue)
claim_selected d worker token now duration q none = ok (none, q)
claim_selected d worker token now duration q (some selected) = do
  require (row_count (is_selected selected now) q.jobs == 1) runtime_error
  (row, q') ←
      log_row d selected.job_id job_leased (λ j. lease worker j.attempt_count (now + duration))
        (claim_rows worker token now duration selected q.jobs) q
  ok (some row, q')

-- `token` is what secrets.token_urlsafe returns.
unfoldable pub claim :
    (ℕ → Draw) → Identifier → Identifier → Seconds → ℕ → Queue → Result (Option Job × Queue)
claim draws token worker lease_seconds now q = do
  require (is_present worker) value_error
  duration ← validate_duration lease_seconds
  (expired, q') ← sweep_expired_leases draws now q
  claim_selected (draws (length expired)) worker token now duration q' (next_ready now q')

unfoldable pub extend_lease : ℕ → ℕ → Job → Job
extend_lease now expires j = record j {
  heartbeat_at = some now;
  lease_expires_at = some expires;
  updated_at = now;
}

-- An UPDATE under the caller's lease raises when its row count is not one.
unfoldable pub update_leased :
    Identifier → Identifier → Identifier → ℕ → (Job → Job) → Queue → Result (List Job)
update_leased job_id worker token now f q =
    if row_count (holds_lease job_id worker token now) q.jobs == 1
    then ok (update (holds_lease job_id worker token now) f q.jobs)
    else err lease_lost

unfoldable pub heartbeat :
    Identifier → Identifier → Identifier → Seconds → ℕ → Queue → Result (Job × Queue)
heartbeat job_id worker token lease_seconds now q = do
  duration ← validate_duration lease_seconds
  jobs ← update_leased job_id worker token now (extend_lease now (now + duration)) q
  row ← or_raise (select_one (with_job_id job_id) jobs) assertion_error
  ok (row, record q { jobs = jobs })
