-- ===== src/Storage/Queue/Sweep.antt =====
-- The sweep of expired leases as one pass: the loop of UPDATE statements over a snapshot of the
-- expired rows changes each row as `swept` says.
use kernel_generation_china.Prelude.{
  ℕ, suc, ◌≡◌, refl, sym, ap, ◌∙◌, subst, inl, inr, true, false, ◌&&◌, some, List, [], ◌∷◌, map,
  arith, All, Pairwise, ==_self, ==→eq, Bool-cases, Option-cases, if◌then◌else◌, All-imp,
  All-of_Memᴰ, All-Memᴰ,
}
use mathlib.Core.List.{Memᴰ, map-id, map-map}
use kernel_generation_china.Prelude.Result.{ok, or_raise, assertion_error, >>=-eq-ok}
use kernel_generation_china.Prelude.Table.{
  select_one, select_one-none, select_one_test, select_one_mem, update-map, All-select_all,
  select_all_mem, order_by_mem, order_by-All,
}
use kernel_generation_china.Storage.Events.{Identifier, EventType, Payload, NewEvent, Draw, append}
use kernel_generation_china.Storage.Events.Appending.{
  Extends, LogGrows, LogGrows-refl, LogGrows-trans, LogGrows-append,
}
use kernel_generation_china.Storage.Queue.Jobs.{Job, Queue, with_job_id, is_expired, expires_before}
use kernel_generation_china.Storage.Queue.Enqueue.{get}
use kernel_generation_china.Storage.Queue.Claim.{
  job_event, log_row, expire, expire_row, sweep_row, sweep_rows, expired_rows, sweep_expired_leases,
}
use kernel_generation_china.Storage.Queue.Invariant.{Apart, IsJob, IsQueue, expire-IsJob}

-- What the sweep at `now` makes of a row.
unfoldable pub swept : ℕ → Job → Job
swept now j = if is_expired now j then expire now j j else j

-- One UPDATE of the loop, and all of them, on one row.
abbrev expire_one : ℕ → Job → Job → Job
expire_one now old j = if with_job_id old.job_id j && is_expired now j then expire now old j else j

expire_all : ℕ → List Job → Job → Job
expire_all now [] j = j
expire_all now (old ∷ rest) j = expire_all now rest (expire_one now old j)

not_expired_after : (now : ℕ) (old j : Job) → is_expired now (expire now old j) ≡ false
unfolding is_expired expire
not_expired_after now old j = ground arith

expire_all-keep :
    (now : ℕ) (olds : List Job) (j : Job) → is_expired now j ≡ false → expire_all now olds j ≡ j
unfolding expire_all
expire_all-keep now [] j h = refl
expire_all-keep now (old ∷ rest) j h = ground (arith, expire_all-keep now rest j h)

pub swept-expired : (now : ℕ) (j : Job) → is_expired now j ≡ true → swept now j ≡ expire now j j
unfolding swept
swept-expired now j h = rw h

pub swept-live : (now : ℕ) (j : Job) → is_expired now j ≡ false → swept now j ≡ j
unfolding swept
swept-live now j h = rw h

expire_one-hit :
    (now : ℕ) (old j : Job)
    → is_expired now j ≡ true
    → with_job_id old.job_id j ≡ true
    → expire_one now old j ≡ expire now old j
expire_one-hit now old j e m = rw (m, e)

expire_one-miss :
    (now : ℕ) (old j : Job) → with_job_id old.job_id j ≡ false → expire_one now old j ≡ j
expire_one-miss now old j m = rw m

in_rest :
    (old j : Job) (rest : List Job)
    → with_job_id old.job_id j ≡ false
    → Memᴰ j (old ∷ rest)
    → Memᴰ j rest
in_rest old j rest m (Memᴰ.head p) = absurd (ground arith)
in_rest old j rest m (Memᴰ.tail i) = i

-- Where the snapshot holds the row if it is expired, and no other row with its id, the updates
-- together change the row as `swept` says.
expire_all-swept :
    (now : ℕ) (olds : List Job) (j : Job)
    → All (λ old. old.job_id ≡ j.job_id → old ≡ j) olds
    → (is_expired now j ≡ true → Memᴰ j olds)
    → expire_all now olds j ≡ swept now j
unfolding expire_all
expire_all-swept now [] j same listed = elim (Bool-cases (is_expired now j)) [
  | inl e ↦ no_row (listed e)
  | inr e ↦ sym (swept-live now j e)
]
  where
    no_row : Memᴰ j [] → j ≡ swept now j
    no_row i = elim i [ ]
expire_all-swept now (old ∷ rest) j same listed = elim (Bool-cases (is_expired now j)) [
  | inr e ↦ expire_all-keep now (old ∷ rest) j e ∙ sym (swept-live now j e)
  | inl e ↦ elim (Bool-cases (with_job_id old.job_id j)) [
    | inl m ↦
        ap (expire_all now rest) (expire_one-hit now old j e m)
        ∙ expire_all-keep now rest (expire now old j) (not_expired_after now old j)
        ∙ ap (λ x. expire now x j) (same.0 (sym (==→eq _ _ m)))
        ∙ sym (swept-expired now j e)
    | inr m ↦
        ap (expire_all now rest) (expire_one-miss now old j m)
        ∙ expire_all-swept now rest j same.1 (λ e'. in_rest old j rest m (listed e'))
  ]
]

-- The jobs table after the loop.
sweep_jobs : ℕ → List Job → List Job → List Job
sweep_jobs now [] jobs = jobs
sweep_jobs now (old ∷ rest) jobs = sweep_jobs now rest (expire_row now old jobs)

sweep_jobs-map :
    (now : ℕ) (olds jobs : List Job) → sweep_jobs now olds jobs ≡ map (expire_all now olds) jobs
unfolding sweep_jobs expire_row expire_all
sweep_jobs-map now [] jobs = sym (map-id jobs)
sweep_jobs-map now (old ∷ rest) jobs =
    sweep_jobs-map now rest (expire_row now old jobs)
    ∙ ap (map (expire_all now rest)) (update-map _ (expire now old) jobs)
    ∙ map-map (expire_all now rest) (expire_one now old) jobs

-- In one table a row is determined by its id.
pub unique_rows :
    (jobs : List Job)
    → Pairwise Apart jobs
    → (a b : Job) → Memᴰ a jobs
    → Memᴰ b jobs
    → a.job_id ≡ b.job_id
    → a ≡ b
unique_rows [] apart a b i k e = elim i [ ]
unique_rows (x ∷ xs) apart a b (Memᴰ.head p) (Memᴰ.head q) e = p ∙ sym q
unique_rows (x ∷ xs) apart a b (Memᴰ.head p) (Memᴰ.tail k) e =
    absurd ((All-Memᴰ (Apart x) b xs k apart.0).0 (sym e ∙ ap (λ (j : Job). j.job_id) p))
unique_rows (x ∷ xs) apart a b (Memᴰ.tail i) (Memᴰ.head q) e =
    absurd ((All-Memᴰ (Apart x) a xs i apart.0).0 (e ∙ ap (λ (j : Job). j.job_id) q))
unique_rows (x ∷ xs) apart a b (Memᴰ.tail i) (Memᴰ.tail k) e = unique_rows xs apart.1 a b i k e

-- A row is found under its id.
pub get_self :
    (q : Queue) (s : Job) → Pairwise Apart q.jobs → Memᴰ s q.jobs → get s.job_id q ≡ some s
unfolding get
get_self q s apart m = elim (Option-cases (select_one (with_job_id s.job_id) q.jobs)) [
  | inl e ↦ absurd (no_self s (All-Memᴰ _ s q.jobs m (select_one-none _ q.jobs e)))
  | inr (x, e) ↦
      e
      ∙ ap some (
          unique_rows q.jobs apart x s (select_one_mem _ q.jobs x e) m
            (==→eq x.job_id s.job_id (select_one_test _ q.jobs x e)))
]
  where
    no_self : (s : Job) → with_job_id s.job_id s ≡ false → ⊥
    no_self s f = ground (arith, ==_self s.job_id)

map_same : (f g : Job → Job) (jobs : List Job) → All (λ j. f j ≡ g j) jobs → map f jobs ≡ map g jobs
map_same f g [] h = refl
map_same f g (j ∷ jobs) h = rw (h.0, map_same f g jobs h.1)

-- The snapshot holds rows of the table.
expired_rows-in : (now : ℕ) (q : Queue) → All (λ old. Memᴰ old q.jobs) (expired_rows now q)
unfolding expired_rows
expired_rows-in now q =
    order_by-All expires_before (λ x. Memᴰ x q.jobs) _
      (All-select_all (is_expired now) (λ x. Memᴰ x q.jobs) q.jobs
        (All-of_Memᴰ (λ x. Memᴰ x q.jobs) q.jobs (λ a i. i)))

expired_rows_mem :
    (now : ℕ) (q : Queue) (j : Job)
    → Memᴰ j q.jobs
    → is_expired now j ≡ true
    → Memᴰ j (expired_rows now q)
unfolding expired_rows
expired_rows_mem now q j i e =
    order_by_mem expires_before j _ (select_all_mem (is_expired now) q.jobs j i e)

sweep_jobs-swept :
    (now : ℕ) (q : Queue)
    → Pairwise Apart q.jobs
    → sweep_jobs now (expired_rows now q) q.jobs ≡ map (swept now) q.jobs
sweep_jobs-swept now q apart =
    sweep_jobs-map now (expired_rows now q) q.jobs
    ∙ map_same (expire_all now (expired_rows now q)) (swept now) q.jobs (
        All-of_Memᴰ _ q.jobs λ j i.
          expire_all-swept now (expired_rows now q) j
            (All-imp (λ old. Memᴰ old q.jobs) _ (λ old k e. unique_rows q.jobs apart old j k i e)
              (expired_rows now q) (expired_rows-in now q))
            (expired_rows_mem now q j i))

-- What reading a row back and appending its event leaves behind.
pub log_row_lem :
    (d : Draw) (i : Identifier) (type : EventType) (payload : Job → Payload) (jobs : List Job)
    (q : Queue) (row : Job) (q' : Queue)
    → log_row d i type payload jobs q ≡ ok (row, q')
    → (q'.jobs ≡ jobs) × (select_one (with_job_id i) jobs ≡ some row) × LogGrows q.events q'.events
unfolding log_row
log_row_lem d i type payload jobs q row q' h =
    let (r, found, h1) =
      >>=-eq-ok (or_raise (select_one (with_job_id i) jobs) assertion_error) _ h in
    let event : NewEvent = job_event type (payload r) r in
    let ((e, events), appended, h2) = >>=-eq-ok (append d event q.events) _ h1 in
    let same : q' ≡ record { jobs = jobs; events = events } = ground arith in
    (
      ap (λ (x : Queue). x.jobs) same,
      ground arith,
      subst (LogGrows q.events) (sym (ap (λ (x : Queue). x.events) same))
          (LogGrows-append d event q.events e events appended),
    )

pub swept-IsJob : (now : ℕ) (j : Job) → IsJob j → IsJob (swept now j)
swept-IsJob now j v = elim (Bool-cases (is_expired now j)) [
  | inl e ↦ subst IsJob (sym (swept-expired now j e)) (expire-IsJob now j e v)
  | inr e ↦ subst IsJob (sym (swept-live now j e)) v
]

pub swept-ids :
    (now : ℕ) (j : Job)
    → ((swept now j).job_id ≡ j.job_id) × ((swept now j).idempotency_key ≡ j.idempotency_key)
unfolding swept expire
swept-ids now j = ground arith

module _ (draws : ℕ → Draw) (now : ℕ) where
  sweep_rows-step :
      (i : ℕ) (olds : List Job) (q : Queue) (rows : List Job) (q' : Queue)
      → sweep_rows draws i now olds q ≡ ok (rows, q')
      → (q'.jobs ≡ sweep_jobs now olds q.jobs) × LogGrows q.events q'.events
  unfolding sweep_rows sweep_jobs sweep_row
  sweep_rows-step i [] q rows q' h =
      let same : q ≡ q' = ground arith in
      (
        ap (λ (x : Queue). x.jobs) (sym same),
        subst (λ (x : Queue). LogGrows q.events x.events) same (LogGrows-refl q.events),
      )
  sweep_rows-step i (old ∷ rest) q rows q' h =
      let ((c, q1), e1, h1) = >>=-eq-ok (sweep_row (draws i) now old q) _ h in
      let ((os, q2), e2, h2) = >>=-eq-ok (sweep_rows draws (suc i) now rest q1) _ h1 in
      let (jobs1, found, log1) = log_row_lem (draws i) old.job_id _ _ _ q c q1 e1 in
      let (jobs2, log2) = sweep_rows-step (suc i) rest q1 os q2 e2 in
      let same : q2 ≡ q' = ground arith in
      subst
        (λ (x : Queue).
          (x.jobs ≡ sweep_jobs now rest (expire_row now old q.jobs)) × LogGrows q.events x.events)
        same
        (
          jobs2 ∙ ap (sweep_jobs now rest) jobs1,
          LogGrows-trans q.events q1.events q2.events log1 log2,
        )

  pub sweep_log :
      (q : Queue) (rows : List Job) (q' : Queue)
      → IsQueue q
      → sweep_expired_leases draws now q ≡ ok (rows, q')
      → (q'.jobs ≡ map (swept now) q.jobs) × LogGrows q.events q'.events
  unfolding sweep_expired_leases
  sweep_log q rows q' v h =
      let (jobs, log) = sweep_rows-step 0 (expired_rows now q) q rows q' h in
      (jobs ∙ sweep_jobs-swept now q v.apart, log)

  -- On a well-formed queue, a sweep that succeeds has changed the table of jobs as one pass over
  -- its rows does: each row whose lease has expired is requeued, or dead if its attempts are used
  -- up, every other row stays as it was. The events that were in the log stay there.
  pub sweep_exact :
      (q : Queue) (rows : List Job) (q' : Queue)
      → IsQueue q
      → sweep_expired_leases draws now q ≡ ok (rows, q')
      → (q'.jobs ≡ map (swept now) q.jobs) × Extends q.events q'.events
  sweep_exact q rows q' v h = let (jobs, log) = sweep_log q rows q' v h in (jobs, (log v.log).1)
