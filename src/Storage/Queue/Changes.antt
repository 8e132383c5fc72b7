-- ===== src/Storage/Queue/Changes.antt =====
-- What a call can do to one row of the queue.
use kernel_generation_china.Prelude.{
  ℕ, ◌≡◌, refl, sym, ap, ◌∙◌, subst, Bool, true, some, List, [], ◌∷◌, map, arith, All, Pairwise,
  ◌==◌,
}
use mathlib.Core.Option
use kernel_generation_china.Prelude.Table.{select_one, select_one-All}
use kernel_generation_china.Domain.Enums.{leased}
use kernel_generation_china.Storage.Events.{Identifier, Json}
use kernel_generation_china.Storage.Events.Appending.{LogGrows}
use kernel_generation_china.Storage.Queue.Jobs.{
  Job, Queue, Seconds, with_job_id, is_expired, is_ready, is_waiting, holds_lease,
}
use kernel_generation_china.Storage.Queue.Enqueue.{get}
use kernel_generation_china.Storage.Queue.Claim.{expire, take_lease, extend_lease}
use kernel_generation_china.Storage.Queue.Finish.{
  succeed, status_after_failure, release_failed, cancel_row, is_cancellable,
}
use kernel_generation_china.Storage.Queue.Calls.{
  Call, claims, heartbeats, completes, fails, cancels,
}
use kernel_generation_china.Storage.Queue.Invariant.{
  Apart, IsJob, IsQueue, expire-IsJob, take_lease-IsJob, extend_lease-IsJob, succeed-IsJob,
  release_failed-IsJob, cancel_row-IsJob,
}
use kernel_generation_china.Storage.Queue.Sweep.{swept, swept-IsJob, swept-ids}

-- The row `j` becomes `k` by the call `c` at `now`.
pub data Change (now : ℕ) (c : Call) (j k : Job) : Type 0 where
  keeps : k ≡ j → Change now c j k
  expires : is_expired now j ≡ true → k ≡ expire now j j → Change now c j k
  leases :
      (token worker : Identifier) (s : Seconds) (expiry : ℕ)
      → c ≡ claims token worker s
      → is_ready now (swept now j) ≡ true
      → k ≡ take_lease worker token now expiry (swept now j)
      → Change now c j k
  extends :
      (i w t : Identifier) (s : Seconds) (expiry : ℕ)
      → c ≡ heartbeats i w t s
      → holds_lease i w t now j ≡ true
      → k ≡ extend_lease now expiry j
      → Change now c j k
  succeeds :
      (i w t : Identifier) (r : Json)
      → c ≡ completes i w t r
      → holds_lease i w t now j ≡ true
      → k ≡ succeed now r j
      → Change now c j k
  releases :
      (i w t : Identifier) (e : Json) (again : Bool) (s : Seconds) (available : ℕ)
      → c ≡ fails i w t e again s
      → holds_lease i w t now j ≡ true
      → k ≡ release_failed (status_after_failure again j) available now e j
      → Change now c j k
  cancelled :
      (i : Identifier)
      → c ≡ cancels i
      → is_cancellable i j ≡ true
      → k ≡ cancel_row now j
      → Change now c j k

-- Every row has changed by the call, and the log has grown.
pub record Rewrites (now : ℕ) (c : Call) (q q' : Queue) : Type 0 where
  pub f : Job → Job
  pub jobs : q'.jobs ≡ map f q.jobs
  pub each : All (λ j. Change now c j (f j)) q.jobs
  pub log : LogGrows q.events q'.events

holds-leased : (i w t now : ℕ) (j : Job) → holds_lease i w t now j ≡ true → j.status ≡ leased
unfolding holds_lease
holds-leased i w t now j h = ground arith

cancellable-waiting : (i : ℕ) (j : Job) → is_cancellable i j ≡ true → is_waiting j ≡ true
unfolding is_cancellable
cancellable-waiting i j h = ground arith

pub Change-IsJob : (now : ℕ) (c : Call) (j k : Job) → Change now c j k → IsJob j → IsJob k
Change-IsJob now c j k (keeps e) v = subst IsJob (sym e) v
Change-IsJob now c j k (expires h e) v = subst IsJob (sym e) (expire-IsJob now j h v)
Change-IsJob now c j k (leases t w s x p h e) v =
    subst IsJob (sym e) (take_lease-IsJob w t now x (swept now j) h (swept-IsJob now j v))
Change-IsJob now c j k (extends i w t s x p h e) v =
    subst IsJob (sym e) (extend_lease-IsJob now x j (holds-leased i w t now j h) v)
Change-IsJob now c j k (succeeds i w t r p h e) v =
    subst IsJob (sym e) (succeed-IsJob now r j (holds-leased i w t now j h) v)
Change-IsJob now c j k (releases i w t r again s x p h e) v =
    subst IsJob (sym e) (release_failed-IsJob again x now r j (holds-leased i w t now j h) v)
Change-IsJob now c j k (cancelled i p h e) v =
    subst IsJob (sym e) (cancel_row-IsJob now j (cancellable-waiting i j h) v)

-- No call changes the id or the idempotency key of a row.
pub Change-ids :
    (now : ℕ) (c : Call) (j k : Job)
    → Change now c j k
    → (k.job_id ≡ j.job_id) × (k.idempotency_key ≡ j.idempotency_key)
unfolding expire take_lease extend_lease succeed release_failed cancel_row
Change-ids now c j k (keeps e) = ground arith
Change-ids now c j k (leases t w s x p h e) = ground (arith, swept-ids now j)
Change-ids now c j k (expires h e) = ground arith
Change-ids now c j k (extends i w t s x p h e) = ground arith
Change-ids now c j k (succeeds i w t r p h e) = ground arith
Change-ids now c j k (releases i w t r again s x p h e) = ground arith
Change-ids now c j k (cancelled i p h e) = ground arith

module _ (now : ℕ) (c : Call) (f : Job → Job) where
  abbrev Changes : List Job → Type 0
  Changes = All (λ j. Change now c j (f j))

  All-IsJob-map : (xs : List Job) → Changes xs → All IsJob xs → All IsJob (map f xs)
  All-IsJob-map [] h v = tt
  All-IsJob-map (x ∷ xs) h v = (Change-IsJob now c x (f x) h.0 v.0, All-IsJob-map xs h.1 v.1)

  Apart-step :
      (a b : Job) → Change now c a (f a) → Change now c b (f b) → Apart a b → Apart (f a) (f b)
  Apart-step a b ha hb h =
      let (ia, ka) = Change-ids now c a (f a) ha in
      let (ib, kb) = Change-ids now c b (f b) hb in
      (λ e. h.0 (sym ib ∙ e ∙ ia), λ k p q. h.1 k (sym ka ∙ p) (sym kb ∙ q))

  Apart-All :
      (x : Job) (xs : List Job)
      → Change now c x (f x)
      → Changes xs
      → All (Apart x) xs
      → All (Apart (f x)) (map f xs)
  Apart-All x [] hx h v = tt
  Apart-All x (y ∷ ys) hx h v = (Apart-step x y hx h.0 v.0, Apart-All x ys hx h.1 v.1)

  Pairwise-Apart-map : (xs : List Job) → Changes xs → Pairwise Apart xs → Pairwise Apart (map f xs)
  Pairwise-Apart-map [] h v = tt
  Pairwise-Apart-map (x ∷ xs) h v = (Apart-All x xs h.0 h.1 v.0, Pairwise-Apart-map xs h.1 v.1)

  same_test :
      (i : Identifier) (j : Job) → Change now c j (f j) → with_job_id i (f j) ≡ with_job_id i j
  same_test i j h = ap (λ (x : ℕ). x == i) (Change-ids now c j (f j) h).0

  get-map :
      (i : Identifier) (xs : List Job)
      → Changes xs
      → select_one (with_job_id i) (map f xs) ≡ Option.map f (select_one (with_job_id i) xs)
  unfolding select_one
  get-map i [] h = refl
  get-map i (x ∷ xs) h = ground (arith, same_test i x h.0, get-map i xs h.1)

module _ (now : ℕ) (c : Call) (q q' : Queue) (r : Rewrites now c q q') where
  pub Rewrites-IsQueue : IsQueue q → IsQueue q'
  Rewrites-IsQueue v = record {
    rows = subst (All IsJob) (sym r.jobs) (All-IsJob-map now c r.f q.jobs r.each v.rows);
    apart =
        subst (Pairwise Apart) (sym r.jobs) (Pairwise-Apart-map now c r.f q.jobs r.each v.apart);
    log = (r.log v.log).0;
  }

  pub Rewrites-get :
      (i : Identifier) (j : Job)
      → get i q ≡ some j
      → (k : Job) × (get i q' ≡ some k) × Change now c j k
  unfolding get
  Rewrites-get i j h = (
    r.f j,
    ap (select_one (with_job_id i)) r.jobs
        ∙ get-map now c r.f i q.jobs r.each
        ∙ ap (Option.map r.f) h,
    select_one-All (with_job_id i) (λ x. Change now c x (r.f x)) q.jobs j r.each h,
  )
