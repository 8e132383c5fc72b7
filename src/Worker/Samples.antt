-- ===== src/Worker/Samples.antt =====
-- A worker that ends its attempt at the leased job of the queue's samples.
use kernel_generation_china.Prelude.{ℕ, ◌≡◌, subst, refl, true, false, ◌↔◌, none, some, arith}
use kernel_generation_china.Prelude.Int.{pos}
use kernel_generation_china.Prelude.Table.{select_one}
use kernel_generation_china.Prelude.Result.{ok}
use kernel_generation_china.Storage.Queue.Jobs.{Job, Queue, micros, holds_lease}
use kernel_generation_china.Storage.Queue.Enqueue.{get}
use kernel_generation_china.Storage.Queue.Leases.{HoldsNoLease}
use kernel_generation_china.Storage.Queue.Samples.{draws, leased_row, busy, busy-IsQueue}
use kernel_generation_china.Evaluation.Values.{
  Value, string, sequence, mapping, end, item, Fields, empty, field, Conversions,
}
use kernel_generation_china.Worker.Health.{
  requires_health_check, Inside, reports_failure, health_check_iff,
}
use kernel_generation_china.Worker.Canonical.{is_key, compatible_fields, IsCompatible}
use kernel_generation_china.Worker.Service.{
  Execution, returned, check_passed, WorkerService, Surroundings, finish_attempt, attempt_of,
}
use kernel_generation_china.Worker.Reports.{IsReported, lost_writes_nothing, held_reports}

-- On texts without letters to change.
abbrev conversions : Conversions
conversions = record {
  str = λ v. "";
  to_float = λ v. none;
  to_int = λ v. ok (pos 1);
  lower = λ s. s;
  upper = λ s. s;
}

abbrev dumps : Value → ℕ
dumps value = 6

abbrev timeout : Value
timeout =
    mapping (
      field "stages" (sequence (item (mapping (field "status" (string "timeout") empty)) end))
        empty)

health_check_iff_example :
    (requires_health_check conversions timeout ≡ true)
    ↔ ((m : Fields) × Inside m timeout × (reports_failure conversions m ≡ true))
health_check_iff_example = health_check_iff conversions timeout

abbrev worker : WorkerService
worker = record {
  worker_id = 3;
  lease_seconds = micros 60;
  retry_delay_seconds = 5;
  stopped = false;
  quarantined = none;
}

abbrev result : Fields
result = field "status" (string "pass") empty

abbrev surroundings : ℕ → Surroundings
surroundings now = record {
  draws = draws;
  token = 4;
  claimed_at = 20;
  execute = λ j. returned result;
  is_private = λ j. false;
  health = check_passed;
  lost = false;
  meanwhile = λ q. q;
  finalized_at = now;
  ended_at = now;
  end_draw = draws 0;
}

late : HoldsNoLease 1 3 4 100 busy
unfolding get select_one holds_lease
late j h = ground arith

lost_writes_nothing_example :
    finish_attempt conversions dumps worker
      (surroundings 100)
      leased_row
      (attempt_of conversions false check_passed (returned result))
      busy
    ≡ ok busy
lost_writes_nothing_example =
    lost_writes_nothing conversions dumps worker (surroundings 100) leased_row 59 false check_passed
      (returned result) busy refl busy-IsQueue late

returns_text : (v : Fields) → ◌≡◌ {A = Execution} (returned result) (returned v) → IsCompatible v
unfolding compatible_fields is_key
returns_text v h = let same : result ≡ v = ground arith in subst IsCompatible same (result, refl)

held_reports_example :
    (q' : Queue) × (row : Job) × (finish_attempt conversions dumps worker
        (surroundings 50)
        leased_row
        (attempt_of conversions false check_passed (returned result))
        busy
      ≡ ok q')
    × (get 1 q' ≡ some row)
    × IsReported conversions dumps worker
        (surroundings 50)
        leased_row
        (attempt_of conversions false check_passed (returned result))
        leased_row
        row
unfolding get select_one holds_lease
held_reports_example =
    held_reports conversions dumps worker (surroundings 50) leased_row 59 false check_passed
      (returned result) busy refl leased_row returns_text refl busy-IsQueue refl refl (omega arith)
      refl
