-- ===== src/Worker/Service.antt =====
-- `run_once` of worker/service.py with `_post_failure_health_error`, `_quarantine` and
-- `_Heartbeat.finalize`: one claim, the execution of the job, and the report to the queue.
use Prim.Native.String.{String}
use text.Mathlib.Text.{◌==◌ as str_eq}
use mathlib.Core.Option
use kernel_generation_china.Prelude.{
  ℕ, Bool, true, false, ◌&&◌, ◌||◌, Option, none, some, if◌then◌else◌,
}
use kernel_generation_china.Prelude.Result.{
  Result, ok, err, lease_lost, assertion_error, or_raise, ◌>>=◌,
}
use kernel_generation_china.Storage.Events.{Identifier, Json, Draw}
use kernel_generation_china.Storage.Queue.Jobs.{Job, Queue, Seconds, micros, holds_lease}
use kernel_generation_china.Storage.Queue.Claim.{claim, heartbeat, exhausted}
use kernel_generation_china.Storage.Queue.Finish.{complete, fail}
use kernel_generation_china.Evaluation.Values.{
  Value, string, mapping, Fields, empty, field, Conversions, get, get_value, is_truthy,
}
use kernel_generation_china.Evaluation.Stages.{status_text}
use kernel_generation_china.Prelude.Table.{select_one}
use kernel_generation_china.Worker.Canonical.{canonical_json_dumps}
use kernel_generation_china.Worker.Health.{requires_health_check}

-- What `_execute` does: it returns the result of the stage, raises WorkerPayloadError with a
-- message, or raises another exception, with its name and its message cut to 16,384 characters.
pub data Execution : Type 0 where
  returned : Fields → Execution
  rejected : String → Execution
  raised : (name message : String) → Execution

-- What `backend.health_check()` does: it raises, or it returns a status.
pub data HealthCheck : Type 0 where
  check_raised : HealthCheck
  check_passed : HealthCheck
  check_failed : String → HealthCheck

abbrev pub error_record : String → String → Fields
error_record type message = field "type" (string type) (field "message" (string message) empty)

unfoldable pub quarantine_reason : String → Fields
quarantine_reason status = field "type" (string "DeviceQuarantined") (
    field "message" (string "post-failure device health check did not pass")
      (field "health_status" (string status) empty))

-- The reason of the quarantine that follows, none if the device is not checked or passes.
abbrev pub failed_check : HealthCheck → Option Fields
failed_check check_raised = some (quarantine_reason "error")
failed_check check_passed = none
failed_check (check_failed status) = some (quarantine_reason status)

unfoldable pub post_failure_health_error : Conversions → Fields → HealthCheck → Option Fields
post_failure_health_error c result health =
    if requires_health_check c (mapping result) then failed_check health else none

-- How the attempt is reported.
pub record Attempt : Type 0 where
  pub result : Option Fields
  pub error : Option Fields
  pub retryable : Bool
  pub retryable_stage_result : Bool
  pub quarantine : Option Fields

abbrev pub wants_retry : Conversions → Fields → Bool
wants_retry c result =
    let status = status_text c (get "status" result) in
    is_truthy (get_value "retryable" result) && (str_eq status "error" || str_eq status "timeout")

abbrev pub stage_error : String → Value → Fields
stage_error status (mapping error) = error
stage_error status _ = error_record "RetryableStageError" status

abbrev pub judged : Conversions → Fields → Option Fields → Attempt
judged c result (some reason) = record {
  result = some result;
  error = some reason;
  retryable = true;
  retryable_stage_result = false;
  quarantine = some reason;
}
judged c result none =
    let again = wants_retry c result in
    record {
      result = some result;
      error =
          if again
          then some (stage_error (status_text c (get "status" result)) (get_value "error" result))
          else none;
      retryable = again;
      retryable_stage_result = again;
      quarantine = none;
    }

abbrev pub not_executed : Fields → Bool → Attempt
not_executed error again = record {
  result = none;
  error = some error;
  retryable = again;
  retryable_stage_result = false;
  quarantine = none;
}

-- The try block of `run_once`; a job is private if its payload has a case set.
unfoldable pub attempt_of : Conversions → Bool → HealthCheck → Execution → Attempt
attempt_of c private health (returned result) =
    judged c result (post_failure_health_error c result health)
attempt_of c private health (rejected message) =
    not_executed
      (if private
        then error_record "HiddenWorkerPayloadError"
            "hidden evaluation payload was rejected; details redacted"
        else error_record "WorkerPayloadError" message)
      false
attempt_of c private health (raised name message) =
    not_executed
      (if private
        then error_record "HiddenInfrastructureError"
            "hidden evaluation infrastructure failed; details redacted"
        else error_record name message)
      true

pub record WorkerService : Type 0 where
  pub worker_id : Identifier
  pub lease_seconds : Seconds
  pub retry_delay_seconds : ℕ
  pub stopped : Bool
  pub quarantined : Option Fields

-- What the worker meets during one call: the clock, what uuid4 and token_urlsafe return, the
-- execution, the health check, whether the heartbeat thread lost the lease, and what the calls of
-- other workers and of that thread have made of the queue meanwhile.
pub record Surroundings : Type 0 where
  pub draws : ℕ → Draw
  pub token : Identifier
  pub claimed_at : ℕ
  pub execute : Job → Execution
  pub is_private : Job → Bool
  pub health : HealthCheck
  pub lost : Bool
  pub meanwhile : Queue → Queue
  pub finalized_at : ℕ
  pub ended_at : ℕ
  pub end_draw : Draw

module _ (c : Conversions) (dumps : Value → Json) (w : WorkerService) (s : Surroundings) where
  -- The token of the lease; a leased job has one.
  abbrev pub lease_token : Job → Identifier
  lease_token j = Option.get_or j.lease_token 0

  abbrev pub complete_result : Job → Option Fields → Queue → Result Queue
  complete_result j result q = do
    value ← or_raise result assertion_error
    text ← canonical_json_dumps dumps value
    (row, q') ← complete s.end_draw j.job_id w.worker_id (lease_token j) text s.ended_at q
    ok q'

  -- `fail` encodes the error once it has selected the leased row, hence that SELECT comes first
  -- here; the delay is always one that `fail` accepts.
  abbrev pub fail_attempt : Job → Fields → Bool → Queue → Result Queue
  fail_attempt j error retryable q = do
    let delay = micros (if retryable then w.retry_delay_seconds else 0)
    leased ←
        or_raise (select_one (holds_lease j.job_id w.worker_id (lease_token j) s.ended_at) q.jobs)
          lease_lost
    text ← canonical_json_dumps dumps error
    (row, q') ←
        fail s.end_draw j.job_id w.worker_id (lease_token j) text retryable delay s.ended_at q
    ok q'

  -- The report, once the lease has been found to be held.
  unfoldable pub report : Job → Attempt → Queue → Result Queue
  report j a q = elim a.error [
    | none ↦ complete_result j a.result q
    | some error ↦
        if a.retryable_stage_result && exhausted j
        then complete_result j a.result q
        else fail_attempt j error a.retryable q
  ]

  abbrev pub after_heartbeat : Job → Attempt → Queue → Result (Job × Queue) → Result Queue
  after_heartbeat j a q (ok (row, q')) = report j a q'
  after_heartbeat j a q (err lease_lost) = ok q
  after_heartbeat j a q (err e) = err e

  -- `finalize` and what follows: a lease that was lost ends the attempt without a report. Where the
  -- report raises, the result is that exception alone; the lease that `finalize` has extended
  -- stays extended in the database.
  unfoldable pub finish_attempt : Job → Attempt → Queue → Result Queue
  finish_attempt j a q =
      if s.lost
      then ok q
      else after_heartbeat j a q
          (heartbeat j.job_id w.worker_id (lease_token j) w.lease_seconds s.finalized_at q)

  abbrev pub quarantine : Option Fields → WorkerService
  quarantine none = w
  quarantine (some reason) = record w { quarantined = some reason }

  abbrev pub run_job : Option Job → Queue → Result (Bool × WorkerService × Queue)
  run_job none q = ok (false, w, q)
  run_job (some j) q = do
    let a = attempt_of c (s.is_private j) s.health (s.execute j)
    q' ← finish_attempt j a (s.meanwhile q)
    ok (true, quarantine a.quarantine, q')

  abbrev pub is_quarantined : Option Fields → Bool
  is_quarantined none = false
  is_quarantined (some reason) = true

  unfoldable pub run_once : Queue → Result (Bool × WorkerService × Queue)
  run_once q = if is_quarantined w.quarantined || w.stopped then ok (false, w, q) else (do
    (job, q') ← claim s.draws s.token w.worker_id w.lease_seconds s.claimed_at q
    run_job job q')
