-- ===== src/Storage/Queue/Samples.antt =====
-- A queue of two jobs, one of which is leased to a worker.
mod Claims
mod Endings
use kernel_generation_china.Prelude.{ℕ, ◌+◌, refl, none, some, [], ◌∷◌, arith}
use kernel_generation_china.Prelude.Int.{pos}
use kernel_generation_china.Domain.Enums.{EvaluationStage, queued, leased}
use kernel_generation_china.Storage.Events.{Draw, empty_log}
use kernel_generation_china.Storage.Events.Appending.{empty-IsLog}
use kernel_generation_china.Storage.Queue.Jobs.{EvaluationJob, Job, Queue}
use kernel_generation_china.Storage.Queue.Invariant.{IsQueue}

abbrev pub draws : ℕ → Draw
draws i = record { uuid = 100 + i; clock = 7 }

abbrev pub request : ℕ → EvaluationJob
request i = record {
  job_id = i;
  experiment_id = 1;
  task_id = 1;
  round_number = 1;
  candidate_id = 2;
  stage = EvaluationStage.full_evaluation;
  payload = 5;
  priority = pos 0;
  max_attempts = 2;
  available_at = 0;
  idempotency_key = some i;
}

abbrev pub row : ℕ → Job
row i = record {
  job_id = i;
  experiment_id = 1;
  task_id = 1;
  round_number = 1;
  candidate_id = 2;
  stage = EvaluationStage.full_evaluation;
  payload = 5;
  priority = pos 0;
  status = queued;
  attempt_count = 0;
  max_attempts = 2;
  available_at = 0;
  lease_owner = none;
  lease_token = none;
  lease_expires_at = none;
  heartbeat_at = none;
  result = none;
  last_error = none;
  idempotency_key = some i;
  created_at = 10;
  updated_at = 10;
}

-- Job 1 is leased to worker 3 under token 4 until 100; job 2 waits.
abbrev pub leased_row : Job
leased_row = record (row 1) {
  status = leased;
  attempt_count = 1;
  lease_owner = some 3;
  lease_token = some 4;
  lease_expires_at = some 100;
  heartbeat_at = some 20;
}

abbrev pub busy : Queue
busy = record { jobs = leased_row ∷ row 2 ∷ []; events = empty_log }

pub busy-IsQueue : IsQueue busy
busy-IsQueue = record {
  rows = (
    record {
      round = omega arith;
      positive = omega arith;
      bounded = omega arith;
      attempts = omega arith;
      columns = (3, 4, 100, 20, refl, refl, refl, refl);
      result = refl;
    },
    (
      record {
        round = omega arith;
        positive = omega arith;
        bounded = omega arith;
        attempts = refl;
        columns = (refl, refl, refl, refl);
        result = refl;
      },
      tt,
    ),
  );
  apart = (((omega arith, λ k h. ground arith), tt), (tt, tt));
  log = empty-IsLog;
}
