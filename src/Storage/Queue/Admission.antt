-- ===== src/Storage/Queue/Admission.antt =====
-- `enqueue`: the new row or the replay.
use kernel_generation_china.Prelude.{
  ℕ, ◌≤◌, ◌≡◌, sym, ap, ◌∙◌, subst, ◌⊎◌, inl, inr, true, false, ◌&&◌, Option, none, some, [], ◌∷◌,
  ◌++◌, arith, All, All-append, All-of_Memᴰ, All-Memᴰ, Pairwise, Pairwise-append, ==_self, leb,
  Option-cases, option_eq_self,
}
use mathlib.Core.Option
use kernel_generation_china.Prelude.Table.{select_one, select_one-none, select_one-append}
use kernel_generation_china.Prelude.Result.{
  ok, err, require, or_raise, integrity_error, assertion_error, idempotency_conflict, >>=-eq-ok,
  require-eq-ok,
}
use kernel_generation_china.Storage.Events.{Identifier, Draw, append}
use kernel_generation_china.Storage.Events.Appending.{LogGrows, LogGrows-refl, LogGrows-append}
use kernel_generation_china.Storage.Queue.Jobs.{Job, EvaluationJob, Queue, with_job_id, with_key}
use kernel_generation_china.Storage.Queue.Enqueue.{
  get, by_key, existing_job, queued_job, enqueued_event, insert_job, replay_or_insert, enqueue,
  same_enqueue_request,
}
use kernel_generation_china.Storage.Queue.Invariant.{Apart, IsJob, IsQueue}

-- The outcome of `enqueue` when no row had the id or the key.
abbrev pub Admitted : ℕ → EvaluationJob → Queue → Job → Queue → Type 0
Admitted now j q r q' =
    (existing_job j q ≡ none)
    × (q'.jobs ≡ q.jobs ++ queued_job now j ∷ [])
    × (get j.job_id q' ≡ some r)
    × (1 ≤ j.round_number)
    × (1 ≤ j.max_attempts)
    × LogGrows q.events q'.events

insert_job_lem :
    (now : ℕ) (d : Draw) (j : EvaluationJob) (q : Queue) (r : Job) (q' : Queue)
    → existing_job j q ≡ none
    → insert_job now d j q ≡ ok (r, q')
    → Admitted now j q r q'
unfolding insert_job
insert_job_lem now d j q r q' fresh h =
    let (u, checked, h1) =
      >>=-eq-ok (require (leb 1 j.round_number && leb 1 j.max_attempts) integrity_error) _ h in
    let ((e, events), appended, h2) = >>=-eq-ok (append d (enqueued_event j) q.events) _ h1 in
    let q1 : Queue = record { jobs = q.jobs ++ queued_job now j ∷ []; events = events } in
    let (row, found, h3) = >>=-eq-ok (or_raise (get j.job_id q1) assertion_error) _ h2 in
    let one : q1 ≡ q' = ground arith in
    let both : (leb 1 j.round_number && leb 1 j.max_attempts) ≡ true =
      require-eq-ok _ _ u checked in
    (
      fresh,
      ap (λ (z : Queue). z.jobs) (sym one),
      ap (get j.job_id) (sym one) ∙ ground arith,
      ground arith,
      ground arith,
      subst (λ (z : Queue). LogGrows q.events z.events) one
          (LogGrows-append d (enqueued_event j) q.events e events appended),
    )

-- `enqueue` returns the row that has the id or the key, and changes nothing, or it inserts.
pub enqueue_cases :
    (now : ℕ) (d : Draw) (j : EvaluationJob) (q : Queue) (r : Job) (q' : Queue)
    → enqueue now d j q ≡ ok (r, q')
    → ((existing_job j q ≡ some r) × (same_enqueue_request r j ≡ true) × (q' ≡ q))
      ⊎ Admitted now j q r q'
unfolding enqueue replay_or_insert
enqueue_cases now d j q r q' h = elim (Option-cases (existing_job j q)) [
  | inl e ↦ inr (insert_job_lem now d j q r q' e (ground arith))
  | inr (x, e) ↦ inl (ground arith, ground arith, ground arith)
]

queued_job-IsJob :
    (now : ℕ) (j : EvaluationJob)
    → 1 ≤ j.round_number
    → 1 ≤ j.max_attempts
    → IsJob (queued_job now j)
unfolding queued_job
queued_job-IsJob now j h k = ground arith

existing_none :
    (j : EvaluationJob) (q : Queue)
    → existing_job j q ≡ none
    → (select_one (with_job_id j.job_id) q.jobs ≡ none) × (by_key j.idempotency_key q ≡ none)
unfolding existing_job get
existing_none j q h = ground arith

key_free :
    (o : Option Identifier) (q : Queue)
    → by_key o q ≡ none
    → (k : Identifier) → o ≡ some k
    → All (λ x. with_key k x ≡ false) q.jobs
unfolding by_key
key_free none q h k e = absurd (cc)
key_free (some i) q h k e =
    let same : i ≡ k = ground arith in
    subst (λ z. All (λ x. with_key z x ≡ false) q.jobs) same (select_one-none (with_key i) q.jobs h)

-- The new row shares neither id nor key with a row of the table.
new-Apart :
    (now : ℕ) (j : EvaluationJob) (q : Queue)
    → existing_job j q ≡ none
    → All (λ x. Apart x (queued_job now j)) q.jobs
unfolding queued_job
new-Apart now j q h =
    All-of_Memᴰ (λ x. Apart x (queued_job now j)) q.jobs
      λ x m. (
        λ e.
            id_clash x (All-Memᴰ _ x q.jobs m (select_one-none _ q.jobs (existing_none j q h).0)) e,
        λ k a b.
            key_clash x k a
              (All-Memᴰ _ x q.jobs m (key_free j.idempotency_key q (existing_none j q h).1 k b)),
      )
  where
    id_clash : (x : Job) → with_job_id j.job_id x ≡ false → j.job_id ≡ x.job_id → ⊥
    id_clash x f e = ground arith

    key_clash : (x : Job) (k : Identifier) → x.idempotency_key ≡ some k → with_key k x ≡ false → ⊥
    key_clash x k a f = ground arith

pub enqueue-IsQueue :
    (now : ℕ) (d : Draw) (j : EvaluationJob) (q : Queue) (r : Job) (q' : Queue)
    → IsQueue q
    → enqueue now d j q ≡ ok (r, q')
    → IsQueue q' × LogGrows q.events q'.events
enqueue-IsQueue now d j q r q' v h = elim (enqueue_cases now d j q r q' h) [
  | inl (found, same, one) ↦
      subst (λ (z : Queue). IsQueue z × LogGrows q.events z.events) (sym one)
        (v, LogGrows-refl q.events)
  | inr (fresh, rows, read, round, positive, log) ↦ (
    record {
      rows =
          subst (All IsJob) (sym rows)
            (All-append IsJob q.jobs _ v.rows (queued_job-IsJob now j round positive, tt));
      apart =
          subst (Pairwise Apart) (sym rows)
            (Pairwise-append Apart q.jobs (queued_job now j) v.apart (new-Apart now j q fresh));
      log = (log v.log).0;
    },
    log,
  )
]

-- An insertion hides no row.
pub enqueue-get :
    (now : ℕ) (d : Draw) (j : EvaluationJob) (q : Queue) (r : Job) (q' : Queue) (i : Identifier)
    (x : Job)
    → enqueue now d j q ≡ ok (r, q')
    → get i q ≡ some x
    → get i q' ≡ some x
unfolding get Option.or_else
enqueue-get now d j q r q' i x h g = elim (enqueue_cases now d j q r q' h) [
  | inl (found, same, one) ↦ ap (λ (z : Queue). select_one (with_job_id i) z.jobs) one ∙ g
  | inr (fresh, rows, read, round, positive, log) ↦
      ap (select_one (with_job_id i)) rows
      ∙ select_one-append (with_job_id i) q.jobs (queued_job now j)
      ∙ rw g
]

-- The branch for a row that is there.
pub replay :
    (now : ℕ) (d : Draw) (j : EvaluationJob) (q : Queue) (r : Job)
    → existing_job j q ≡ some r
    → same_enqueue_request r j ≡ true
    → enqueue now d j q ≡ ok (r, q)
unfolding enqueue replay_or_insert
replay now d j q r found same = rw (found, replay_or_insert, same)

pub conflict :
    (now : ℕ) (d : Draw) (j : EvaluationJob) (q : Queue) (r : Job)
    → existing_job j q ≡ some r
    → same_enqueue_request r j ≡ false
    → enqueue now d j q ≡ err idempotency_conflict
unfolding enqueue replay_or_insert
conflict now d j q r found same = rw (found, replay_or_insert, same)

inserted_row :
    (now : ℕ) (j : EvaluationJob) (q q' : Queue) (r : Job)
    → Admitted now j q r q'
    → r ≡ queued_job now j
unfolding get Option.or_else queued_job
inserted_row now j q q' r (fresh, rows, read, round, positive, log) =
    let found : some r ≡ some (queued_job now j) =
      sym read
      ∙ ap (select_one (with_job_id j.job_id)) rows
      ∙ select_one-append (with_job_id j.job_id) q.jobs (queued_job now j)
      ∙ rw ((existing_none j q fresh).0, ==_self j.job_id) in
    ground arith

same_request_self : (now : ℕ) (j : EvaluationJob) → same_enqueue_request (queued_job now j) j ≡ true
unfolding same_enqueue_request queued_job
same_request_self now j = ground (arith, option_eq_self j.idempotency_key)

pub existing_of_get :
    (j : EvaluationJob) (q : Queue) (r : Job) → get j.job_id q ≡ some r → existing_job j q ≡ some r
unfolding existing_job
existing_of_get j q r h = rw (h, existing_job)

-- A request that `enqueue` has accepted can be replayed at any later time on the queue that it
-- left: the replay returns the same row and changes neither the rows nor the log.
pub enqueue_replay :
    (now now' : ℕ) (d d' : Draw) (j : EvaluationJob) (q : Queue) (r : Job) (q' : Queue)
    → enqueue now d j q ≡ ok (r, q')
    → enqueue now' d' j q' ≡ ok (r, q')
enqueue_replay now now' d d' j q r q' h = elim (enqueue_cases now d j q r q' h) [
  | inl (found, same, one) ↦
      replay now' d' j q' r (subst (λ (z : Queue). existing_job j z ≡ some r) (sym one) found) same
  | inr a ↦ replay now' d' j q' r (existing_of_get j q' r a.2) (
      subst (λ x. same_enqueue_request x j ≡ true) (sym (inserted_row now j q q' r a))
        (same_request_self now j))
]
