-- ===== src/Storage/Queue/Steps.antt =====
-- Each call that writes leaves every row changed as `Change` says, and the log grown.
use kernel_generation_china.Prelude.{
  ℕ, ◌+◌, ◌≡◌, refl, sym, ap, ◌∙◌, subst, ◌⊎◌, inl, inr, Bool, true, Option, none, some, List, map,
  arith, All-of_Memᴰ, ◌==◌, ==→eq, Bool-cases, if◌then◌else◌,
}
use mathlib.Core.List.{Memᴰ, map-map, map-id}
use kernel_generation_china.Prelude.Table.{
  select_one, update, row_count, update-map, select_one_test, select_one_mem,
}
use kernel_generation_china.Prelude.Result.{
  ok, or_raise, require, value_error, lease_lost, runtime_error, assertion_error, >>=-eq-ok,
}
use kernel_generation_china.Storage.Events.{
  Identifier, Json, Draw, job_succeeded, job_leased, job_cancelled, empty,
}
use kernel_generation_china.Storage.Events.Appending.{LogGrows, LogGrows-refl, LogGrows-trans}
use kernel_generation_china.Storage.Queue.Jobs.{
  Job, Queue, Seconds, with_job_id, is_expired, holds_lease,
}
use kernel_generation_china.Storage.Queue.Enqueue.{get, is_present}
use kernel_generation_china.Storage.Queue.Claim.{
  log_row, validate_duration, is_selected, claim_rows, take_lease, claim_selected, claim,
  sweep_expired_leases, extend_lease, update_leased, heartbeat, next_ready,
}
use kernel_generation_china.Storage.Queue.Finish.{
  succeed, complete, validate_delay, status_after_failure, release_failed, fail, cancel_row,
  is_cancellable, log_cancel, cancel,
}
use kernel_generation_china.Storage.Queue.Calls.{
  Call, claims, heartbeats, completes, fails, cancels,
}
use kernel_generation_china.Storage.Queue.Invariant.{IsQueue}
use kernel_generation_china.Storage.Queue.Sweep.{
  swept, swept-expired, swept-live, log_row_lem, sweep_log, unique_rows,
}
use kernel_generation_china.Storage.Queue.Changes.{
  Change, keeps, expires, leases, extends, succeeds, releases, cancelled, Rewrites,
}

-- A single UPDATE changes the rows that pass its test, and keeps the others.
update-Rewrites :
    (now : ℕ) (c : Call) (p : Job → Bool) (f : Job → Job) (q q' : Queue)
    → q'.jobs ≡ update p f q.jobs
    → LogGrows q.events q'.events
    → ((j : Job) → Memᴰ j q.jobs → p j ≡ true → Change now c j (f j))
    → Rewrites now c q q'
update-Rewrites now c p f q q' jobs log change = record {
  f = λ j. if p j then f j else j;
  jobs = jobs ∙ update-map p f q.jobs;
  each = All-of_Memᴰ (λ j. Change now c j (if p j then f j else j)) q.jobs each;
  log = log;
}
  where
    each : (j : Job) → Memᴰ j q.jobs → Change now c j (if p j then f j else j)
    each j i = elim (Bool-cases (p j)) [ inl e ↦ rw e (change j i e) | inr e ↦ rw e (keeps refl) ]

unchanged : (now : ℕ) (c : Call) (q : Queue) → Rewrites now c q q
unchanged now c q = record {
  f = λ j. j;
  jobs = sym (map-id q.jobs);
  each = All-of_Memᴰ (λ j. Change now c j j) q.jobs (λ j i. keeps refl);
  log = LogGrows-refl q.events;
}

swept-Change : (now : ℕ) (c : Call) (j : Job) → Change now c j (swept now j)
swept-Change now c j = elim (Bool-cases (is_expired now j)) [
  | inl e ↦ expires e (swept-expired now j e)
  | inr e ↦ keeps (swept-live now j e)
]

pub sweep-Rewrites :
    (c : Call) (draws : ℕ → Draw) (now : ℕ) (q : Queue) (rows : List Job) (q' : Queue)
    → IsQueue q
    → sweep_expired_leases draws now q ≡ ok (rows, q')
    → Rewrites now c q q'
sweep-Rewrites c draws now q rows q' v h =
    let (jobs, log) = sweep_log draws now q rows q' v h in
    record {
      f = swept now;
      jobs = jobs;
      each = All-of_Memᴰ (λ j. Change now c j (swept now j)) q.jobs (λ j i. swept-Change now c j);
      log = log;
    }

update_leased_lem :
    (i w t now : ℕ) (f : Job → Job) (q : Queue) (jobs : List Job)
    → update_leased i w t now f q ≡ ok jobs
    → jobs ≡ update (holds_lease i w t now) f q.jobs
unfolding update_leased
update_leased_lem i w t now f q jobs h = ground arith

pub heartbeat-Rewrites :
    (i w t : Identifier) (s : Seconds) (now : ℕ) (q : Queue) (row : Job) (q' : Queue)
    → heartbeat i w t s now q ≡ ok (row, q')
    → Rewrites now (heartbeats i w t s) q q'
unfolding heartbeat
heartbeat-Rewrites i w t s now q row q' h =
    let (d, valid, h1) = >>=-eq-ok (validate_duration s) _ h in
    let f : Job → Job = extend_lease now (now + d) in
    let (jobs, updated, h2) = >>=-eq-ok (update_leased i w t now f q) _ h1 in
    let (r, found, h3) =
      >>=-eq-ok (or_raise (select_one (with_job_id i) jobs) assertion_error) _ h2 in
    let same : q' ≡ record q { jobs = jobs } = ground arith in
    update-Rewrites now _ (holds_lease i w t now) f q q'
      (ap (λ (x : Queue). x.jobs) same ∙ update_leased_lem i w t now f q jobs updated)
      (subst (λ (x : Queue). LogGrows q.events x.events) (sym same) (LogGrows-refl q.events))
      (λ j m e. extends i w t s (now + d) refl e refl)

pub complete-Rewrites :
    (d : Draw) (i w t : Identifier) (r : Json) (now : ℕ) (q : Queue) (row : Job) (q' : Queue)
    → complete d i w t r now q ≡ ok (row, q')
    → Rewrites now (completes i w t r) q q'
unfolding complete
complete-Rewrites d i w t r now q row q' h =
    let f : Job → Job = succeed now r in
    let (jobs, updated, h1) = >>=-eq-ok (update_leased i w t now f q) _ h in
    let (same, found, log) = log_row_lem d i job_succeeded _ jobs q row q' h1 in
    update-Rewrites now _ (holds_lease i w t now) f q q'
      (same ∙ update_leased_lem i w t now f q jobs updated) log
      (λ j m e. succeeds i w t r refl e refl)

holds-id : (i w t now : ℕ) (j : Job) → holds_lease i w t now j ≡ true → j.job_id ≡ i
unfolding holds_lease
holds-id i w t now j h = ground arith

pub fail-Rewrites :
    (d : Draw) (i w t : Identifier) (e : Json) (again : Bool) (s : Seconds) (now : ℕ) (q : Queue)
    (row : Job) (q' : Queue)
    → IsQueue q
    → fail d i w t e again s now q ≡ ok (row, q')
    → Rewrites now (fails i w t e again s) q q'
unfolding fail
fail-Rewrites d i w t e again s now q row q' v h =
    let (x, valid, h1) = >>=-eq-ok (validate_delay s) _ h in
    let (old, found, h2) =
      >>=-eq-ok (or_raise (select_one (holds_lease i w t now) q.jobs) lease_lost) _ h1 in
    let (same, read, log) = log_row_lem d i _ _ _ q row q' h2 in
    let at : select_one (holds_lease i w t now) q.jobs ≡ some old = ground arith in
    let held : holds_lease i w t now old ≡ true =
      select_one_test (holds_lease i w t now) q.jobs old at in
    let inside : Memᴰ old q.jobs = select_one_mem (holds_lease i w t now) q.jobs old at in
    update-Rewrites now _ (with_job_id i)
      (release_failed (status_after_failure again old) (now + x) now e) q q' same log
      λ j m hit.
        let one : old ≡ j =
          unique_rows q.jobs v.apart old j inside m
            (holds-id i w t now old held ∙ sym (==→eq j.job_id i hit)) in
        releases i w t e again s (now + x) refl
          (subst (λ z. holds_lease i w t now z ≡ true) one held)
          (ap (λ z. release_failed (status_after_failure again z) (now + x) now e j) one)

log_cancel-Rewrites :
    (d : Draw) (i : Identifier) (now : ℕ) (q : Queue) (b : Bool) (q' : Queue)
    → log_cancel d i now q ≡ ok (b, q')
    → Rewrites now (cancels i) q q'
unfolding log_cancel
log_cancel-Rewrites d i now q b q' h =
    let jobs : List Job = update (is_cancellable i) (cancel_row now) q.jobs in
    let ((row, q1), logged, h1) = >>=-eq-ok (log_row d i job_cancelled (λ j. empty) jobs q) _ h in
    let (same, read, log) = log_row_lem d i _ _ _ q row q1 logged in
    let one : q1 ≡ q' = ground arith in
    subst (λ (x : Queue). Rewrites now (cancels i) q x) one
      (update-Rewrites now _ (is_cancellable i) (cancel_row now) q q1 same log
        (λ j m e. cancelled i refl e refl))

pub cancel-Rewrites :
    (d : Draw) (i : Identifier) (now : ℕ) (q : Queue) (b : Bool) (q' : Queue)
    → cancel d i now q ≡ ok (b, q')
    → Rewrites now (cancels i) q q'
unfolding cancel
cancel-Rewrites d i now q b q' h = elim (Bool-cases (row_count (is_cancellable i) q.jobs == 1)) [
  | inl hit ↦ log_cancel-Rewrites d i now q b q' (rw hit at h)
  | inr miss ↦
      let same : q ≡ q' = ground arith in
      subst (λ (x : Queue). Rewrites now (cancels i) q x) same (unchanged now (cancels i) q)
]

-- `claim` after its sweep.
pub claim_selected-rows :
    (d : Draw) (w t now x : ℕ) (q : Queue) (o : Option Job) (row : Option Job) (q' : Queue)
    → claim_selected d w t now x q o ≡ ok (row, q')
    → ((o ≡ none) × (row ≡ none) × (q' ≡ q))
      ⊎ ((sel : Job) × (got : Job) × (o ≡ some sel)
          × (row ≡ some got)
          × (q'.jobs ≡ claim_rows w t now x sel q.jobs)
          × (get sel.job_id q' ≡ some got)
          × LogGrows q.events q'.events)
unfolding claim_selected get
claim_selected-rows d w t now x q none row q' h = inl (refl, ground arith, ground arith)
claim_selected-rows d w t now x q (some sel) row q' h =
    let (u, counted, h1) =
      >>=-eq-ok (require (row_count (is_selected sel now) q.jobs == 1) runtime_error) _ h in
    let ((got, q1), logged, h2) =
      >>=-eq-ok (log_row d sel.job_id job_leased _ (claim_rows w t now x sel q.jobs) q) _ h1 in
    let (same, read, log) = log_row_lem d sel.job_id _ _ _ q got q1 logged in
    let one : q1 ≡ q' = ground arith in
    inr (
      sel,
      got,
      refl,
      ground arith,
      ap (λ (z : Queue). z.jobs) (sym one) ∙ same,
      ap (λ (z : Queue). select_one (with_job_id sel.job_id) z.jobs) (sym one)
          ∙ ap (select_one (with_job_id sel.job_id)) same
          ∙ read,
      subst (λ (z : Queue). LogGrows q.events z.events) one log,
    )

claim_rows-map :
    (w t : Identifier) (now x : ℕ) (sel : Job) (q : Queue)
    → claim_rows w t now x sel q.jobs
      ≡ map (λ j. if is_selected sel now j then take_lease w t now (now + x) j else j) q.jobs
unfolding claim_rows
claim_rows-map w t now x sel q =
    update-map (is_selected sel now) (take_lease w t now (now + x)) q.jobs

selected-Change :
    (t w : Identifier) (s : Seconds) (now x : ℕ) (sel j : Job)
    → Change now (claims t w s) j (
        if is_selected sel now (swept now j)
        then take_lease w t now (now + x) (swept now j)
        else swept now j)
selected-Change t w s now x sel j = elim (Bool-cases (is_selected sel now (swept now j))) [
  | inl e ↦ rw e (leases t w s (now + x) refl (ground arith) refl)
  | inr e ↦ rw e (swept-Change now (claims t w s) j)
]

pub claim-Rewrites :
    (draws : ℕ → Draw) (t w : Identifier) (s : Seconds) (now : ℕ) (q : Queue) (row : Option Job)
    (q' : Queue)
    → IsQueue q
    → claim draws t w s now q ≡ ok (row, q')
    → Rewrites now (claims t w s) q q'
unfolding claim
claim-Rewrites draws t w s now q row q' v h =
    let (u, present, h1) = >>=-eq-ok (require (is_present w) value_error) _ h in
    let (x, valid, h2) = >>=-eq-ok (validate_duration s) _ h1 in
    let ((gone, q1), swept_all, h3) = >>=-eq-ok (sweep_expired_leases draws now q) _ h2 in
    let (jobs, log) = sweep_log draws now q gone q1 v swept_all in
    elim (claim_selected-rows _ w t now x q1 (next_ready now q1) row q' h3) [
      | inl (nothing, no_row, same) ↦
          subst (λ (z : Queue). Rewrites now (claims t w s) q z) (sym same)
            (sweep-Rewrites (claims t w s) draws now q gone q1 v swept_all)
      | inr (sel, got, found, is_row, rows, read, log') ↦ record {
        f = λ j.
            if is_selected sel now (swept now j)
            then take_lease w t now (now + x) (swept now j)
            else swept now j;
        jobs =
            rows ∙ claim_rows-map w t now x sel q1 ∙ ap (map _) jobs ∙ map-map _ (swept now) q.jobs;
        each = All-of_Memᴰ _ q.jobs (λ j m. selected-Change t w s now x sel j);
        log = LogGrows-trans q.events q1.events q'.events log log';
      }
    ]
