-- ===== src/Storage/Queue/Leases.antt =====
-- When `heartbeat`, `complete` and `fail` succeed, and what a caller without a live lease gets.
use kernel_generation_china.Prelude.{
  ℕ, suc, ◌+◌, ◌≤◌, ◌<◌, ◌≡◌, refl, sym, ap, ◌∙◌, subst, inl, inr, Bool, true, false, none, some,
  List, [], ◌∷◌, arith, All, All-of_Memᴰ, All-Memᴰ, Pairwise, ◌==◌, Bool-cases, if◌then◌else◌,
}
use mathlib.Core.List.{Memᴰ}
use mathlib.Core.Option
use kernel_generation_china.Prelude.Table.{
  select_one, select_one_absent, update, row_count, select_one_mem, select_one-update,
  select_one-All,
}
use kernel_generation_china.Prelude.Result.{ok, err, lease_lost, or_raise}
use kernel_generation_china.Domain.Enums.{succeeded}
use kernel_generation_china.Storage.Events.{
  Identifier, Json, Draw, EventType, Payload, NewEvent, with_id, job_succeeded, attempt,
}
use kernel_generation_china.Storage.Events.Appending.{append_fresh}
use kernel_generation_china.Storage.Queue.Jobs.{Job, Queue, micros, with_job_id, holds_lease}
use kernel_generation_china.Storage.Queue.Enqueue.{get}
use kernel_generation_china.Storage.Queue.Claim.{
  extend_lease, job_event, log_row, validate_duration, update_leased, heartbeat,
}
use kernel_generation_china.Storage.Queue.Finish.{succeed, complete, validate_delay, fail}
use kernel_generation_china.Storage.Queue.Invariant.{Apart, IsJob, IsQueue}
use kernel_generation_china.Storage.Queue.Sweep.{get_self}

count_zero : (p : Job → Bool) (xs : List Job) → All (λ j. p j ≡ false) xs → row_count p xs ≡ 0
unfolding row_count
count_zero p [] h = refl
count_zero p (x ∷ xs) h = ground (arith, count_zero p xs h.1)

-- Under unique ids a test that holds of one id at most counts one row.
count_one :
    (p : Job → Bool) (i : Identifier) (xs : List Job) (j : Job)
    → ((x : Job) → p x ≡ true → x.job_id ≡ i)
    → Pairwise Apart xs
    → Memᴰ j xs
    → p j ≡ true
    → row_count p xs ≡ 1
unfolding row_count
count_one p i [] j only apart m h = elim m [ ]
count_one p i (x ∷ xs) j only apart (Memᴰ.head e) h =
    let hit : p x ≡ true = subst (λ z. p z ≡ true) e h in
    let rest : row_count p xs ≡ 0 =
      count_zero p xs (All-of_Memᴰ (λ y. p y ≡ false) xs (λ y k. others y k hit)) in
    ground (arith, hit, rest)
  where
    others : (y : Job) → Memᴰ y xs → p x ≡ true → p y ≡ false
    others y k hit = elim (Bool-cases (p y)) [
      | inr f ↦ f
      | inl t ↦ absurd ((All-Memᴰ (Apart x) y xs k apart.0).0 (only y t ∙ sym (only x hit)))
    ]
count_one p i (x ∷ xs) j only apart (Memᴰ.tail k) h = elim (Bool-cases (p x)) [
  | inr f ↦ ground (arith, f, count_one p i xs j only apart.1 k h)
  | inl t ↦ absurd ((All-Memᴰ (Apart x) j xs k apart.0).0 (only j h ∙ sym (only x t)))
]

module _ (i w t now : ℕ) (q : Queue) where
  pub holds_only : (x : Job) → holds_lease i w t now x ≡ true → x.job_id ≡ i
  unfolding holds_lease
  holds_only x h = ground arith

  -- The row of the job, if it is there, is not leased to this worker under this token, or the
  -- lease has expired.
  abbrev pub HoldsNoLease : Type 0
  HoldsNoLease = (j : Job) → get i q ≡ some j → holds_lease i w t now j ≡ false

  no_row : IsQueue q → HoldsNoLease → All (λ j. holds_lease i w t now j ≡ false) q.jobs
  no_row v none_held = All-of_Memᴰ _ q.jobs λ j m. elim (Bool-cases (holds_lease i w t now j)) [
    | inr f ↦ f
    | inl h ↦ none_held j (subst (λ z. get z q ≡ some j) (holds_only j h) (get_self q j v.apart m))
  ]

  not_held : IsQueue q → HoldsNoLease → (row_count (holds_lease i w t now) q.jobs == 1) ≡ false
  not_held v h = rw (count_zero (holds_lease i w t now) q.jobs (no_row v h))

  none_selected : IsQueue q → HoldsNoLease → select_one (holds_lease i w t now) q.jobs ≡ none
  none_selected v h = select_one_absent (holds_lease i w t now) q.jobs (no_row v h)

  -- On a well-formed queue, a heartbeat, completion or failure by a worker that holds no live
  -- lease of the job under its token, be it that the job is unknown, not leased, leased to
  -- another worker or under another token, or the lease has run out, raises LeaseLostError,
  -- if its duration or delay is one that the call accepts.
  pub no_lease_refused :
      (d : Draw) (duration delay : ℕ) (result error : Json) (again : Bool)
      → IsQueue q
      → HoldsNoLease
      → (heartbeat i w t (micros (suc duration)) now q ≡ err lease_lost)
        × (complete d i w t result now q ≡ err lease_lost)
        × (fail d i w t error again (micros delay) now q ≡ err lease_lost)
  unfolding heartbeat complete fail validate_duration validate_delay update_leased
  no_lease_refused d duration delay result error again v h = (
    rw (not_held v h, update_leased),
    rw (not_held v h, update_leased),
    rw (none_selected v h, or_raise),
  )

  held_once :
      IsQueue q
      → (j : Job) → get i q ≡ some j
      → holds_lease i w t now j ≡ true
      → row_count (holds_lease i w t now) q.jobs ≡ 1
  unfolding get
  held_once v j g h =
      count_one (holds_lease i w t now) i q.jobs j holds_only v.apart
        (select_one_mem (with_job_id i) q.jobs j g) h

-- The drawn event id is new to the log.
abbrev pub IsFresh : Draw → Queue → Type 0
IsFresh d q = select_one (with_id d.uuid) q.events.rows ≡ none

pub log_row_total :
    (d : Draw) (i : Identifier) (type : EventType) (payload : Job → Payload) (jobs : List Job)
    (q : Queue) (row : Job)
    → select_one (with_job_id i) jobs ≡ some row
    → 1 ≤ row.round_number
    → IsFresh d q
    → (q' : Queue) × (log_row d i type payload jobs q ≡ ok (row, q')) × (q'.jobs ≡ jobs)
unfolding log_row
log_row_total d i type payload jobs q row found round fresh =
    let event : NewEvent = job_event type (payload row) row in
    let (e, m, added, rows) = append_fresh d event q.events refl (ground arith) fresh in
    (record { jobs = jobs; events = m }, rw (found, or_raise) (rw added), refl)

-- The row is SUCCEEDED with the result, and no lease is left in it.
abbrev pub IsSucceeded : Json → Job → Type 0
IsSucceeded result row =
    (row.status ≡ succeeded)
    × (row.result ≡ some result)
    × (row.lease_owner ≡ none)
    × (row.lease_token ≡ none)
    × (row.lease_expires_at ≡ none)

module _ (i w t now : ℕ) (q : Queue) (j : Job) where
  -- What an update under the lease makes of the row.
  pub updated_row :
      (f : Job → Job)
      → ((x : Job) → (f x).job_id ≡ x.job_id)
      → get i q ≡ some j
      → holds_lease i w t now j ≡ true
      → select_one (with_job_id i) (update (holds_lease i w t now) f q.jobs) ≡ some (f j)
  unfolding get
  updated_row f keep g h =
      select_one-update (with_job_id i) (holds_lease i w t now) f
        (λ x _. ap (λ (z : ℕ). z == i) (keep x)) q.jobs
      ∙ ap (Option.map (λ x. if holds_lease i w t now x then f x else x)) g
      ∙ rw h

  pub row_IsJob : IsQueue q → get i q ≡ some j → IsJob j
  unfolding get
  row_IsJob v g = select_one-All (with_job_id i) IsJob q.jobs j v.rows g

  pub read_back :
      (jobs : List Job) (q' : Queue)
      → q'.jobs ≡ jobs
      → (r : Job) → select_one (with_job_id i) jobs ≡ some r
      → get i q' ≡ some r
  unfolding get
  read_back jobs q' same r found = ap (select_one (with_job_id i)) same ∙ found

  -- On a well-formed queue, under a drawn event id that is new, `complete` by the worker that
  -- holds the live lease of the job commits: the row under the job's id is that of `succeed`, which
  -- is SUCCEEDED with the result and has no owner, no token and no end of a lease.
  pub complete_live :
      (d : Draw) (result : Json)
      → IsQueue q
      → get i q ≡ some j
      → holds_lease i w t now j ≡ true
      → IsFresh d q
      → (q' : Queue) × (complete d i w t result now q ≡ ok (succeed now result j, q'))
        × (get i q' ≡ some (succeed now result j))
        × IsSucceeded result (succeed now result j)
  unfolding complete update_leased succeed
  complete_live d result v g h fresh =
      let f : Job → Job = succeed now result in
      let jobs : List Job = update (holds_lease i w t now) f q.jobs in
      let row : select_one (with_job_id i) jobs ≡ some (f j) = updated_row f (λ x. refl) g h in
      let (q', logged, same) =
        log_row_total d i job_succeeded (λ x. attempt x.attempt_count) jobs q (f j) row
          (row_IsJob v g).round fresh in
      (
        q',
        rw (held_once i w t now q v j g h, update_leased) logged,
        read_back jobs q' same (f j) row,
        (refl, refl, refl, refl, refl),
      )

  still :
      (duration later : ℕ)
      → holds_lease i w t now j ≡ true
      → later < now + suc duration
      → holds_lease i w t later (extend_lease now (now + suc duration) j) ≡ true
  unfolding holds_lease extend_lease
  still duration later h lt = ground arith

  -- On a well-formed queue, `heartbeat` by the worker that holds the live lease of the job commits
  -- for any positive duration: the lease now ends that long after now, the log does not change, and
  -- until then the worker holds the lease still.
  pub heartbeat_live :
      (duration later : ℕ)
      → IsQueue q
      → get i q ≡ some j
      → holds_lease i w t now j ≡ true
      → later < now + suc duration
      → (q' : Queue) × (heartbeat i w t (micros (suc duration)) now q
          ≡ ok (extend_lease now (now + suc duration) j, q'))
        × (get i q' ≡ some (extend_lease now (now + suc duration) j))
        × (q'.events ≡ q.events)
        × (holds_lease i w t later (extend_lease now (now + suc duration) j) ≡ true)
  unfolding heartbeat update_leased validate_duration extend_lease
  heartbeat_live duration later v g h lt =
      let f : Job → Job = extend_lease now (now + suc duration) in
      let jobs : List Job = update (holds_lease i w t now) f q.jobs in
      let row : select_one (with_job_id i) jobs ≡ some (f j) = updated_row f (λ x. refl) g h in
      (
        record q { jobs = jobs },
        rw (held_once i w t now q v j g h, update_leased) (rw (row, or_raise) refl),
        read_back jobs (record q { jobs = jobs }) refl (f j) row,
        refl,
        still duration later h lt,
      )
