-- ===== src/Storage/Queue/Failing.antt =====
-- `fail` by the worker that holds the lease.
use kernel_generation_china.Prelude.{
  ℕ, ◌+◌, ◌≤◌, ◌≡◌, refl, sym, ap, ◌∙◌, subst, Bool, true, false, Option, none, some, List,
  All-Memᴰ, ◌==◌, if◌then◌else◌,
}
use mathlib.Core.List.{Memᴰ}
use mathlib.Core.Option
use kernel_generation_china.Prelude.Table.{
  select_one, update, select_one_test, select_one_mem, select_one-none, select_one-update,
}
use kernel_generation_china.Prelude.Result.{ok, or_raise}
use kernel_generation_china.Storage.Events.{Json, Draw, failure}
use kernel_generation_china.Storage.Queue.Jobs.{Job, Queue, micros, with_job_id, holds_lease}
use kernel_generation_china.Storage.Queue.Enqueue.{get}
use kernel_generation_china.Storage.Queue.Finish.{
  validate_delay, status_after_failure, release_failed, failure_event, fail,
}
use kernel_generation_china.Storage.Queue.Invariant.{IsQueue}
use kernel_generation_china.Storage.Queue.Sweep.{unique_rows}
use kernel_generation_china.Storage.Queue.Leases.{
  holds_only, IsFresh, log_row_total, row_IsJob, read_back,
}
use kernel_generation_china.Storage.Queue.Retries.{released_id}

module _ (i w t now : ℕ) (q : Queue) (j : Job) where
  in_jobs : get i q ≡ some j → Memᴰ j q.jobs
  unfolding get
  in_jobs g = select_one_mem (with_job_id i) q.jobs j g

  pub selected :
      (o : Option Job)
      → select_one (holds_lease i w t now) q.jobs ≡ o
      → IsQueue q
      → get i q ≡ some j
      → holds_lease i w t now j ≡ true
      → o ≡ some j
  selected none e v g h =
      let missed : holds_lease i w t now j ≡ false =
        All-Memᴰ (λ x. holds_lease i w t now x ≡ false) j q.jobs (in_jobs g)
          (select_one-none (holds_lease i w t now) q.jobs e) in
      cc
  selected (some x) e v g h =
      let held : holds_lease i w t now x ≡ true =
        select_one_test (holds_lease i w t now) q.jobs x e in
      ap some (
        unique_rows q.jobs v.apart x j (select_one_mem (holds_lease i w t now) q.jobs x e)
          (in_jobs g) (holds_only i w t now q x held ∙ sym (holds_only i w t now q j h)))

  released_row :
      (f : Job → Job)
      → ((x : Job) → (f x).job_id ≡ x.job_id)
      → get i q ≡ some j
      → select_one (with_job_id i) (update (with_job_id i) f q.jobs) ≡ some (f j)
  unfolding get
  released_row f keep g =
      let hit : with_job_id i j ≡ true = select_one_test (with_job_id i) q.jobs j g in
      select_one-update (with_job_id i) (with_job_id i) f (λ x _. ap (λ (k : ℕ). k == i) (keep x))
        q.jobs
      ∙ ap (Option.map (λ x. if with_job_id i x then f x else x)) g
      ∙ rw hit

  round_kept :
      (again : Bool) (x error : ℕ)
      → (release_failed (status_after_failure again j) (now + x) now error j).round_number
        ≡ j.round_number
  unfolding release_failed
  round_kept again x error = refl

  -- On a well-formed queue, under a drawn event id that is new, `fail` by the worker that holds the
  -- live lease of the job commits, for any delay, and the row under the job's id is released.
  pub fail_live :
      (d : Draw) (error : Json) (again : Bool) (x : ℕ)
      → IsQueue q
      → get i q ≡ some j
      → holds_lease i w t now j ≡ true
      → IsFresh d q
      → (q' : Queue) × (fail d i w t error again (micros x) now q
          ≡ ok (release_failed (status_after_failure again j) (now + x) now error j, q'))
        × (get i q' ≡ some (release_failed (status_after_failure again j) (now + x) now error j))
  unfolding fail validate_delay
  fail_live d error again x v g h fresh =
      let s = status_after_failure again j in
      let f : Job → Job = release_failed s (now + x) now error in
      let jobs : List Job = update (with_job_id i) f q.jobs in
      let row : select_one (with_job_id i) jobs ≡ some (f j) =
        released_row f (λ z. released_id s (now + x) now error z) g in
      let found : select_one (holds_lease i w t now) q.jobs ≡ some j =
        selected (select_one (holds_lease i w t now) q.jobs) refl v g h in
      let (q', logged, same) =
        log_row_total d i (failure_event s) (λ z. failure z.attempt_count again error) jobs q (f j)
          row
          (subst (λ n. 1 ≤ n) (sym (round_kept again x error)) (row_IsJob i w t now q j v g).round)
          fresh in
      (q', rw (found, or_raise) logged, read_back i w t now q j jobs q' same (f j) row)
