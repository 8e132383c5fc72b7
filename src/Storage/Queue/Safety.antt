-- ===== src/Storage/Queue/Safety.antt =====
-- What holds of the queue whatever its callers do: the invariant, the fate of a finished row, and
-- the protection that a live lease gives.
use kernel_generation_china.Prelude.{
  ℕ, ◌<◌, ◌≡◌, refl, sym, ap, ◌∙◌, subst, ◌⊎◌, inl, inr, true, some, List, [], ◌∷◌, arith, ==→eq,
}
use kernel_generation_china.Prelude.Table.{select_one_test}
use kernel_generation_china.Prelude.Result.{Result, ok, err}
use kernel_generation_china.Domain.Enums.{leased}
use kernel_generation_china.Storage.Events.{Identifier, Draw, empty_log}
use kernel_generation_china.Storage.Events.Appending.{Extends, empty-IsLog}
use kernel_generation_china.Storage.Queue.Jobs.{
  Job, EvaluationJob, Queue, with_job_id, is_terminal, is_expired, is_ready, holds_lease,
}
use kernel_generation_china.Storage.Queue.Enqueue.{get, enqueue}
use kernel_generation_china.Storage.Queue.Claim.{sweep_expired_leases, claim, heartbeat}
use kernel_generation_china.Storage.Queue.Finish.{is_cancellable, complete, fail, cancel}
use kernel_generation_china.Storage.Queue.Calls.{
  Call, enqueues, sweeps, claims, heartbeats, completes, fails, cancels, state_of, run, committed,
  Input, serve,
}
use kernel_generation_china.Storage.Queue.Invariant.{IsQueue}
use kernel_generation_china.Storage.Queue.Sweep.{swept}
use kernel_generation_china.Storage.Queue.Changes.{
  Change, keeps, expires, leases, extends, succeeds, releases, cancelled, Rewrites,
  Rewrites-IsQueue, Rewrites-get,
}
use kernel_generation_china.Storage.Queue.Steps.{
  sweep-Rewrites, heartbeat-Rewrites, complete-Rewrites, fail-Rewrites, cancel-Rewrites,
  claim-Rewrites,
}
use kernel_generation_china.Storage.Queue.Admission.{enqueue-IsQueue, enqueue-get}

abbrev pub empty_queue : Queue
empty_queue = record { jobs = []; events = empty_log }

state_of_ok {ℓ} :
    {A : Type ℓ} (r : Result (A × Queue)) (q : Queue)
    → state_of r ≡ ok q
    → (a : A) × (r ≡ ok (a, q))
state_of_ok (ok (a, q')) q h = (a, ground arith)
state_of_ok (err e) q h = cc

-- A call that is no enqueue rewrites the rows in place.
run-Rewrites :
    (draws : ℕ → Draw) (now : ℕ) (c : Call) (q q' : Queue)
    → IsQueue q
    → run draws now c q ≡ ok q'
    → Rewrites now c q q'
      ⊎ ((j : EvaluationJob) × (r : Job) × (c ≡ enqueues j)
          × (enqueue now (draws 0) j q ≡ ok (r, q')))
unfolding run
run-Rewrites draws now (enqueues j) q q' v h =
    let (r, e) = state_of_ok (enqueue now (draws 0) j q) q' h in inr (j, r, refl, e)
run-Rewrites draws now sweeps q q' v h =
    let (r, e) = state_of_ok (sweep_expired_leases draws now q) q' h in
    inl (sweep-Rewrites sweeps draws now q r q' v e)
run-Rewrites draws now (claims t w s) q q' v h =
    let (r, e) = state_of_ok (claim draws t w s now q) q' h in
    inl (claim-Rewrites draws t w s now q r q' v e)
run-Rewrites draws now (heartbeats i w t s) q q' v h =
    let (r, e) = state_of_ok (heartbeat i w t s now q) q' h in
    inl (heartbeat-Rewrites i w t s now q r q' e)
run-Rewrites draws now (completes i w t x) q q' v h =
    let (r, e) = state_of_ok (complete (draws 0) i w t x now q) q' h in
    inl (complete-Rewrites (draws 0) i w t x now q r q' e)
run-Rewrites draws now (fails i w t x again s) q q' v h =
    let (r, e) = state_of_ok (fail (draws 0) i w t x again s now q) q' h in
    inl (fail-Rewrites (draws 0) i w t x again s now q r q' v e)
run-Rewrites draws now (cancels i) q q' v h =
    let (r, e) = state_of_ok (cancel (draws 0) i now q) q' h in
    inl (cancel-Rewrites (draws 0) i now q r q' e)

pub run-IsQueue :
    (draws : ℕ → Draw) (now : ℕ) (c : Call) (q q' : Queue)
    → IsQueue q
    → run draws now c q ≡ ok q'
    → IsQueue q' × Extends q.events q'.events
run-IsQueue draws now c q q' v h = elim (run-Rewrites draws now c q q' v h) [
  | inl r ↦ (Rewrites-IsQueue now c q q' r v, (r.log v.log).1)
  | inr (j, r, is, e) ↦
      let (v', log) = enqueue-IsQueue now (draws 0) j q r q' v e in (v', (log v.log).1)
]

-- What a call that commits makes of the row with a given id.
pub run-Change :
    (draws : ℕ → Draw) (now : ℕ) (c : Call) (q q' : Queue) (i : Identifier) (j : Job)
    → IsQueue q
    → run draws now c q ≡ ok q'
    → get i q ≡ some j
    → (k : Job) × (get i q' ≡ some k) × Change now c j k
run-Change draws now c q q' i j v h g = elim (run-Rewrites draws now c q q' v h) [
  | inl r ↦ Rewrites-get now c q q' r i j g
  | inr (x, r, is, e) ↦ (j, enqueue-get now (draws 0) x q r q' i j e g, keeps refl)
]

serve_invariant : (q : Queue) (inputs : List Input) → IsQueue q → IsQueue (serve q inputs)
unfolding serve
serve_invariant q [] v = v
serve_invariant q (x ∷ xs) v =
    serve_invariant (committed q (run x.draws x.now x.call q)) xs
      (kept (run x.draws x.now x.call q) refl)
  where
    kept : (r : Result Queue) → run x.draws x.now x.call q ≡ r → IsQueue (committed q r)
    kept (ok q') e = (run-IsQueue x.draws x.now x.call q q' v e).0
    kept (err e') e = v

-- After any sequence of calls on an empty queue, at any times and whether they succeed or raise,
-- the queue is well formed: ids and idempotency keys are unique; the lease columns are set on
-- leased rows alone; no row has had more attempts than it may, a row that waits has an attempt
-- left, and exactly the succeeded rows have a result; the event log is in order.
pub serve-IsQueue : (inputs : List Input) → IsQueue (serve empty_queue inputs)
serve-IsQueue inputs =
    serve_invariant _ inputs (record { rows = tt; apart = tt; log = empty-IsLog })

Change-terminal : (now : ℕ) (c : Call) (j k : Job) → is_terminal j ≡ true → Change now c j k → k ≡ j
unfolding is_terminal is_expired is_ready holds_lease is_cancellable swept
Change-terminal now c j k t (keeps e) = e
Change-terminal now c j k t (expires h e) = ground arith
Change-terminal now c j k t (leases a b s x p h e) = ground arith
Change-terminal now c j k t (extends i w a s x p h e) = ground arith
Change-terminal now c j k t (succeeds i w a r p h e) = ground arith
Change-terminal now c j k t (releases i w a r again s x p h e) = ground arith
Change-terminal now c j k t (cancelled i p h e) = ground arith

-- On a well-formed queue no call that commits, whatever it is and whenever it comes, changes a row
-- that has succeeded, is dead or was cancelled.
pub terminal_kept :
    (draws : ℕ → Draw) (now : ℕ) (c : Call) (q q' : Queue) (i : Identifier) (j : Job)
    → IsQueue q
    → get i q ≡ some j
    → is_terminal j ≡ true
    → run draws now c q ≡ ok q'
    → get i q' ≡ some j
terminal_kept draws now c q q' i j v g t h =
    let (k, found, change) = run-Change draws now c q q' i j v h g in
    found ∙ ap some (Change-terminal now c j k t change)

-- The call names the job, the worker and the token of a lease.
abbrev pub Presents : Call → Identifier → Identifier → Identifier → Type 0
Presents (heartbeats i w t s) j v u = (i ≡ j) × (w ≡ v) × (t ≡ u)
Presents (completes i w t r) j v u = (i ≡ j) × (w ≡ v) × (t ≡ u)
Presents (fails i w t e again s) j v u = (i ≡ j) × (w ≡ v) × (t ≡ u)
Presents _ j v u = ⊥

module _ (now : ℕ) (c : Call) (j k : Job) (w t x : ℕ) where
  lease_held :
      (i w' t' : ℕ)
      → j.lease_owner ≡ some w
      → j.lease_token ≡ some t
      → holds_lease i w' t' now j ≡ true
      → (i ≡ j.job_id) × (w' ≡ w) × (t' ≡ t)
  unfolding holds_lease
  lease_held i w' t' o a h = ground arith

  Change-live :
      j.status ≡ leased
      → j.lease_owner ≡ some w
      → j.lease_token ≡ some t
      → j.lease_expires_at ≡ some x
      → now < x
      → ¬ Presents c j.job_id w t
      → Change now c j k
      → k ≡ j
  unfolding is_expired is_ready is_cancellable swept
  Change-live s o a y lt not (keeps e) = e
  Change-live s o a y lt not (expires h e) = ground arith
  Change-live s o a y lt not (leases _ _ _ _ p h e) = ground arith
  Change-live s o a y lt not (extends i w' t' _ _ p h e) =
      absurd (not (subst (λ z. Presents z j.job_id w t) (sym p) (lease_held i w' t' o a h)))
  Change-live s o a y lt not (succeeds i w' t' _ p h e) =
      absurd (not (subst (λ z. Presents z j.job_id w t) (sym p) (lease_held i w' t' o a h)))
  Change-live s o a y lt not (releases i w' t' _ _ _ _ p h e) =
      absurd (not (subst (λ z. Presents z j.job_id w t) (sym p) (lease_held i w' t' o a h)))
  Change-live s o a y lt not (cancelled i p h e) = ground arith

get-id : (i : Identifier) (q : Queue) (j : Job) → get i q ≡ some j → j.job_id ≡ i
unfolding get
get-id i q j g = ==→eq j.job_id i (select_one_test (with_job_id i) q.jobs j g)

-- While the lease of a row is live, only a heartbeat, completion or failure that presents its
-- worker and its token changes the row: no other call that commits, a claim or a sweep by another
-- worker, a cancellation or a call with a stale token, does.
pub lease_isolated :
    (draws : ℕ → Draw) (now : ℕ) (c : Call) (q q' : Queue) (i w t x : ℕ) (j : Job)
    → IsQueue q
    → get i q ≡ some j
    → j.status ≡ leased
    → j.lease_owner ≡ some w
    → j.lease_token ≡ some t
    → j.lease_expires_at ≡ some x
    → now < x
    → ¬ Presents c i w t
    → run draws now c q ≡ ok q'
    → get i q' ≡ some j
lease_isolated draws now c q q' i w t x j v g s o a y lt not h =
    let (k, found, change) = run-Change draws now c q q' i j v h g in
    found
    ∙ ap some (
        Change-live now c j k w t x s o a y lt
          (λ p. not (subst (λ z. Presents c z w t) (get-id i q j g) p)) change)
