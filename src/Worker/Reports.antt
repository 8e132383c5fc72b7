-- ===== src/Worker/Reports.antt =====
-- What an attempt leaves in the queue.
use kernel_generation_china.Prelude.{
  ℕ, suc, ◌+◌, ◌<◌, ◌≡◌, refl, sym, ap, ◌∙◌, subst, inl, inr, Bool, true, false, ◌&&◌, ◌||◌, Option,
  none, some, Bool-cases, arith, if◌then◌else◌,
}
use kernel_generation_china.Prelude.Table.{select_one}
use kernel_generation_china.Prelude.Result.{Result, ok, or_raise}
use kernel_generation_china.Domain.Enums.{succeeded}
use kernel_generation_china.Storage.Events.{Json, EventLog, with_id}
use kernel_generation_china.Storage.Queue.Jobs.{Job, Queue, micros, holds_lease}
use kernel_generation_china.Storage.Queue.Enqueue.{get}
use kernel_generation_china.Storage.Queue.Claim.{heartbeat, extend_lease, exhausted}
use kernel_generation_china.Storage.Queue.Finish.{succeed, status_after_failure, release_failed}
use kernel_generation_china.Storage.Queue.Calls.{heartbeats, run}
use kernel_generation_china.Storage.Queue.Invariant.{IsQueue}
use kernel_generation_china.Storage.Queue.Safety.{run-IsQueue}
use kernel_generation_china.Storage.Queue.Leases.{
  HoldsNoLease, no_lease_refused, IsFresh, complete_live, heartbeat_live,
}
use kernel_generation_china.Storage.Queue.Failing.{fail_live, selected}
use kernel_generation_china.Evaluation.Values.{Value, Fields, Conversions}
use kernel_generation_china.Worker.Canonical.{IsCompatible, IsCompatible-dumps}
use kernel_generation_china.Worker.Documents.{
  HasResult, attempt-HasResult, IsReportable, attempt-IsReportable,
}
use kernel_generation_china.Worker.Service.{
  Execution, returned, HealthCheck, Attempt, attempt_of, WorkerService, Surroundings, lease_token,
  complete_result, fail_attempt, report, after_heartbeat, finish_attempt,
}

abbrev is_clean : Option Fields → Bool
is_clean none = true
is_clean (some e) = false

-- The attempt is reported by `complete`.
abbrev pub completes : Job → Attempt → Bool
completes j a = is_clean a.error || (a.retryable_stage_result && exhausted j)

module _ (c : Conversions) (dumps : Value → Json) (w : WorkerService) (s : Surroundings)
    (j : Job) where
  -- The row that a report leaves.
  pub record IsReported (a : Attempt) (k : Job) (row : Job) : Type 0 where
    pub finished : completes j a ≡ true → row.status ≡ succeeded
    pub failed : completes j a ≡ false → row.status ≡ status_after_failure a.retryable k
    pub released : (row.lease_owner ≡ none) × (row.lease_token ≡ none)

  -- The report is made, and its row stands under the id of the job.
  abbrev pub Reported : Attempt → Job → Result Queue → Type 0
  Reported a k r =
      (q' : Queue) × (row : Job) × (r ≡ ok q') × (get j.job_id q' ≡ some row) × IsReported a k row

  module _ (a : Attempt) (q : Queue) (k : Job) (v : IsQueue q) (at : get j.job_id q ≡ some k)
      (held : holds_lease j.job_id w.worker_id (lease_token c dumps w s j) s.ended_at k ≡ true)
      (fresh : IsFresh s.end_draw q) where
    completed :
        (x : Fields)
        → a.result ≡ some x
        → IsCompatible x
        → completes j a ≡ true
        → Reported a k (complete_result c dumps w s j a.result q)
    unfolding succeed
    completed x is fit done =
        let (text, encoded) = IsCompatible-dumps dumps x fit in
        let (q', committed, read, _) =
          complete_live j.job_id w.worker_id (lease_token c dumps w s j) s.ended_at q k s.end_draw
            text v at held fresh in
        (
          q',
          succeed s.ended_at text k,
          rw (is, or_raise) (rw encoded (rw committed refl)),
          read,
          record { finished = λ h. refl; failed = λ h. cc; released = (refl, refl) },
        )

    not_completed :
        (error : Fields)
        → IsCompatible error
        → completes j a ≡ false
        → Reported a k (fail_attempt c dumps w s j error a.retryable q)
    unfolding release_failed
    not_completed error fit unfinished =
        let (text, encoded) = IsCompatible-dumps dumps error fit in
        let test : Job → Bool =
          holds_lease j.job_id w.worker_id (lease_token c dumps w s j) s.ended_at in
        let found : select_one test q.jobs ≡ some k =
          selected j.job_id w.worker_id (lease_token c dumps w s j) s.ended_at q k
            (select_one test q.jobs) refl v at held in
        let delay : ℕ = if a.retryable then w.retry_delay_seconds else 0 in
        let (q', committed, read) =
          fail_live j.job_id w.worker_id (lease_token c dumps w s j) s.ended_at q k s.end_draw text
            a.retryable delay v at held fresh in
        (
          q',
          release_failed (status_after_failure a.retryable k) (s.ended_at + delay) s.ended_at text
              k,
          rw (found, or_raise) (rw encoded (rw committed refl)),
          read,
          record { finished = λ h. cc; failed = λ h. refl; released = (refl, refl) },
        )

    report_cases :
        (o : Option Fields)
        → a.error ≡ o
        → HasResult a
        → IsReportable a
        → Reported a k (report c dumps w s j a q)
    unfolding report
    report_cases none e has fit =
        let (x, is) = has.clean e in
        let path : report c dumps w s j a q ≡ complete_result c dumps w s j a.result q =
          rw e refl in
        subst (Reported a k) (sym path) (completed x is (fit.result x is) (rw e refl))
    report_cases (some error) e has fit =
        elim (Bool-cases (a.retryable_stage_result && exhausted j)) [
          | inl last ↦
              let (x, is) = has.again (ground arith) in
              let path : report c dumps w s j a q ≡ complete_result c dumps w s j a.result q =
                rw (e, last) refl in
              subst (Reported a k) (sym path) (completed x is (fit.result x is) (rw (e, last) refl))
          | inr pending ↦
              let path : report c dumps w s j a q ≡ fail_attempt c dumps w s j error a.retryable q =
                rw (e, pending) refl in
              subst (Reported a k) (sym path)
                (not_completed error (fit.error error e) (rw (e, pending) refl))
        ]

  -- A heartbeat does not change what decides the report.
  after_extension :
      (a : Attempt) (now until : ℕ) (k row : Job)
      → IsReported a (extend_lease now until k) row
      → IsReported a k row
  unfolding status_after_failure exhausted extend_lease
  after_extension a now until k row r = record {
    finished = r.finished;
    failed = r.failed;
    released = r.released;
  }

  -- The worker claimed the job, and at the end of the attempt `k` is its row.
  module _ (n : ℕ) (private : Bool) (health : HealthCheck) (x : Execution) (q : Queue)
      (lease : w.lease_seconds ≡ micros (suc n)) where
    abbrev attempt : Attempt
    attempt = attempt_of c private health x

    -- If at the end of an attempt the worker holds no live lease of the job under its token, on a
    -- well-formed queue, the attempt ends without an error and the queue stays as it is, whatever
    -- the execution did and whether or not the heartbeat thread has noticed.
    pub lost_writes_nothing :
        IsQueue q
        → HoldsNoLease j.job_id w.worker_id (lease_token c dumps w s j) s.finalized_at q
        → finish_attempt c dumps w s j attempt q ≡ ok q
    unfolding finish_attempt
    lost_writes_nothing v none_held = elim (Bool-cases s.lost) [
      | inl lost ↦ rw lost refl
      | inr kept ↦
          let refused =
            no_lease_refused j.job_id w.worker_id (lease_token c dumps w s j) s.finalized_at q
              s.end_draw n 0 0 0 false v none_held in
          rw (kept, lease, refused.0) refl
    ]

    -- If at the end of an attempt the worker holds the live lease of the job, on a well-formed
    -- queue, the heartbeat thread has met no error, the report is made before the lease ends anew,
    -- the drawn event id is new, and `canonical_json_dumps` encodes the document that the
    -- execution returned, if it returned one, then the report is made, whether the execution
    -- returned or raised, and the row of the job has no lease: it has succeeded if the attempt has
    -- no error or asks for a retry of a job whose attempts are used up, and else it is dead or
    -- waits for a retry, as `fail` decides.
    pub held_reports :
        (k : Job)
        → ((result : Fields) → x ≡ returned result → IsCompatible result)
        → s.lost ≡ false
        → IsQueue q
        → get j.job_id q ≡ some k
        → holds_lease j.job_id w.worker_id (lease_token c dumps w s j) s.finalized_at k ≡ true
        → s.ended_at < s.finalized_at + suc n
        → IsFresh s.end_draw q
        → (q' : Queue) × (row : Job) × (finish_attempt c dumps w s j attempt q ≡ ok q')
          × (get j.job_id q' ≡ some row)
          × IsReported attempt k row
    unfolding finish_attempt run
    held_reports k fit kept v at held time fresh =
        let t = lease_token c dumps w s j in
        let (q1, beat, at1, same, held1) =
          heartbeat_live j.job_id w.worker_id t s.finalized_at q k n s.ended_at v at held time in
        let k1 : Job = extend_lease s.finalized_at (s.finalized_at + suc n) k in
        let v1 : IsQueue q1 =
          (run-IsQueue s.draws s.finalized_at (heartbeats j.job_id w.worker_id t (micros (suc n))) q
            q1 v (rw beat refl)).0 in
        let fresh1 : IsFresh s.end_draw q1 =
          subst (λ (z : EventLog). select_one (with_id s.end_draw.uuid) z.rows ≡ none) (sym same)
            fresh in
        let (q', row, made, read, is) =
          report_cases attempt q1 k1 v1 at1 held1 fresh1 attempt.error refl
            (attempt-HasResult c private health x) (attempt-IsReportable c private health x fit) in
        (
          q',
          row,
          ap
                (λ b.
                  if b
                  then ok q
                  else after_heartbeat c dumps w s j attempt q
                      (heartbeat j.job_id w.worker_id t w.lease_seconds s.finalized_at q))
                kept
              ∙ ap
                  (λ z.
                    after_heartbeat c dumps w s j attempt q
                      (heartbeat j.job_id w.worker_id t z s.finalized_at q))
                  lease
              ∙ ap (after_heartbeat c dumps w s j attempt q) beat
              ∙ made,
          read,
          after_extension attempt s.finalized_at (s.finalized_at + suc n) k row is,
        )
