-- ===== src/Storage/Queue/Selection.antt =====
-- Which job `claim` hands out.
use kernel_generation_china.Prelude.{
  ℕ, zero, suc, ◌+◌, ◌≡◌, refl, sym, ap, ◌∙◌, compare, then_by, leb, subst, ◌⊎◌, inl, inr, Bool,
  true, false, Option, none, some, List, map, arith, All-of_Memᴰ, All-Memᴰ, Pairwise, ==_self,
  Bool-cases, if◌then◌else◌,
}
use mathlib.Core.List.{Memᴰ}
use mathlib.Core.Option
use kernel_generation_china.Prelude.Int.{ℤ, compare_ℤ}
use kernel_generation_china.Prelude.Table.{
  select_one, select_all, order_by, select_one-update, select_all_test, select_all_mem,
  order_by-All, All-select_all,
}
use kernel_generation_china.Prelude.Table.Sorting.{head_least, head_none, head_mem}
use kernel_generation_china.Prelude.Result.{ok, require, value_error, >>=-eq-ok}
use kernel_generation_china.Storage.Events.{Identifier, Draw}
use kernel_generation_china.Storage.Queue.Jobs.{
  Job, Queue, micros, with_job_id, is_ready, claimed_before,
}
use kernel_generation_china.Storage.Queue.Enqueue.{get, is_present}
use kernel_generation_china.Storage.Queue.Claim.{
  validate_duration, is_selected, claim_rows, take_lease, claim, sweep_expired_leases, next_ready,
}
use kernel_generation_china.Storage.Queue.Invariant.{Apart, IsQueue}
use kernel_generation_china.Storage.Queue.Sweep.{swept, sweep_log, get_self}
use kernel_generation_china.Storage.Queue.Steps.{claim_selected-rows, sweep-Rewrites}
use kernel_generation_china.Storage.Queue.Changes.{Rewrites-IsQueue}
use kernel_generation_china.Storage.Queue.Calls.{sweeps}

claimed_before_total : (a b : Job) → claimed_before a b ≡ false → claimed_before b a ≡ true
unfolding claimed_before
claimed_before_total a b h = ground arith

-- A key that is compared first, over an order `p`, `q`, `r` of the rest.
then_by_trans :
    (a b c : ℕ) (p q r : Bool)
    → (p ≡ true → q ≡ true → r ≡ true)
    → then_by (compare a b) p ≡ true
    → then_by (compare b c) q ≡ true
    → then_by (compare a c) r ≡ true
then_by_trans a b c p q r f h k = ground arith

-- A priority that is compared first, the higher before the lower.
priority_trans :
    (a b c : ℤ) (p q r : Bool)
    → (p ≡ true → q ≡ true → r ≡ true)
    → then_by (compare_ℤ b a) p ≡ true
    → then_by (compare_ℤ c b) q ≡ true
    → then_by (compare_ℤ c a) r ≡ true
priority_trans a b c p q r f h k = ground arith

id_trans : (a b c : ℕ) → leb a b ≡ true → leb b c ≡ true → leb a c ≡ true
id_trans a b c h k = ground arith

claimed_before_trans :
    (a b c : Job)
    → claimed_before a b ≡ true
    → claimed_before b c ≡ true
    → claimed_before a c ≡ true
unfolding claimed_before
claimed_before_trans a b c = priority_trans a.priority b.priority c.priority _ _ _ (
    then_by_trans a.available_at b.available_at c.available_at _ _ _ (
      then_by_trans a.created_at b.created_at c.created_at _ _ _
        (id_trans a.job_id b.job_id c.job_id)))

next_ready_facts :
    (now : ℕ) (q : Queue) (s : Job)
    → next_ready now q ≡ some s
    → (is_ready now s ≡ true)
      × Memᴰ s q.jobs
      × ((j : Job) → Memᴰ j q.jobs → is_ready now j ≡ true → claimed_before s j ≡ true)
unfolding next_ready
next_ready_facts now q s h =
    let ready : List Job = select_all (is_ready now) q.jobs in
    let inside : Memᴰ s (order_by claimed_before ready) = head_mem _ s h in
    (
      All-Memᴰ (λ j. is_ready now j ≡ true) s _ inside
          (order_by-All claimed_before (λ j. is_ready now j ≡ true) ready
            (select_all_test (is_ready now) q.jobs)),
      All-Memᴰ (λ j. Memᴰ j q.jobs) s _ inside
          (order_by-All claimed_before (λ j. Memᴰ j q.jobs) ready
            (All-select_all (is_ready now) (λ j. Memᴰ j q.jobs) q.jobs
              (All-of_Memᴰ (λ j. Memᴰ j q.jobs) q.jobs (λ a i. i)))),
      λ j m r.
          head_least claimed_before claimed_before_total claimed_before_trans ready s j h
            (select_all_mem (is_ready now) q.jobs j m r),
    )

next_ready-none :
    (now : ℕ) (q : Queue)
    → next_ready now q ≡ none
    → (j : Job) → Memᴰ j q.jobs
    → is_ready now j ≡ false
unfolding next_ready
next_ready-none now q h j m = elim (Bool-cases (is_ready now j)) [
  | inr e ↦ e
  | inl e ↦ absurd (
      head_none claimed_before claimed_before_total claimed_before_trans _ j h
        (select_all_mem (is_ready now) q.jobs j m e))
]

-- The row that the claim reads back.
claimed_row :
    (w t now x : ℕ) (q q' : Queue) (s got : Job)
    → Pairwise Apart q.jobs
    → Memᴰ s q.jobs
    → is_ready now s ≡ true
    → q'.jobs ≡ claim_rows w t now x s q.jobs
    → get s.job_id q' ≡ some got
    → got ≡ take_lease w t now (now + x) s
unfolding get claim_rows take_lease
claimed_row w t now x q q' s got apart m r rows read =
    let f : Job → Job = take_lease w t now (now + x) in
    let look : List Job → Option Job = select_one (with_job_id s.job_id) in
    let hit : is_selected s now s ≡ true = ground (arith, ==_self s.job_id) in
    let found : some got ≡ some (f s) =
      sym read
      ∙ ap look rows
      ∙ select_one-update (with_job_id s.job_id) (is_selected s now) f (λ j h. refl) q.jobs
      ∙ ap (Option.map (λ j. if is_selected s now j then f j else j)) (get_self q s apart m)
      ∙ rw hit in
    ground arith

-- On a well-formed queue a claim that commits first sweeps the expired leases. If it returns a
-- job, that job was ready in the swept table and came first among all ready rows, by priority,
-- then by the time from which it is available, the time of its creation and its id; it is leased
-- to the caller under the new token, for the given time from now, with one more attempt counted.
-- If it returns none, no row of the swept table was ready.
pub claim_first :
    (draws : ℕ → Draw) (t w : Identifier) (x now : ℕ) (q : Queue) (row : Option Job) (q' : Queue)
    → IsQueue q
    → claim draws t w (micros x) now q ≡ ok (row, q')
    → ((row ≡ none) × ((j : Job) → Memᴰ j (map (swept now) q.jobs) → is_ready now j ≡ false))
      ⊎ ((s : Job) × (row ≡ some (take_lease w t now (now + x) s))
          × (get s.job_id q' ≡ row)
          × (is_ready now s ≡ true)
          × Memᴰ s (map (swept now) q.jobs)
          × ((j : Job)
              → Memᴰ j (map (swept now) q.jobs)
              → is_ready now j ≡ true
              → claimed_before s j ≡ true))
unfolding claim validate_duration
claim_first draws t w zero now q row q' v h =
    let (u, present, h1) = >>=-eq-ok (require (is_present w) value_error) _ h in absurd (cc)
claim_first draws t w (suc x) now q row q' v h =
    let (u, present, h1) = >>=-eq-ok (require (is_present w) value_error) _ h in
    let ((gone, q1), swept_all, h2) = >>=-eq-ok (sweep_expired_leases draws now q) _ h1 in
    let (jobs, log) = sweep_log draws now q gone q1 v swept_all in
    let v1 : IsQueue q1 =
      Rewrites-IsQueue now sweeps q q1 (sweep-Rewrites sweeps draws now q gone q1 v swept_all) v in
    elim (claim_selected-rows _ w t now (suc x) q1 (next_ready now q1) row q' h2) [
      | inl (nothing, no_row, same) ↦
          inl (no_row, λ j m. next_ready-none now q1 nothing j (subst (Memᴰ j) (sym jobs) m))
      | inr (s, got, found, is_row, rows, read, log') ↦
          let (ready, inside, first) = next_ready_facts now q1 s found in
          inr (
            s,
            is_row
                ∙ ap some (claimed_row w t now (suc x) q1 q' s got v1.apart inside ready rows read),
            read ∙ sym is_row,
            ready,
            subst (Memᴰ s) jobs inside,
            λ j m. first j (subst (Memᴰ j) (sym jobs) m),
          )
    ]
