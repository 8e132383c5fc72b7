-- ===== src/Storage/Store/Contiguity.antt =====
-- The rounds of a task are numbered from 1 without a gap, and all but the last have finished.
use kernel_generation_china.Prelude.{
  ℕ, ◌≤◌, ◌<◌, ◌≡◌, refl, sym, ap, ◌∙◌, ◌⊎◌, inl, inr, true, Option, none, some, arith, Bool-cases,
  if◌then◌else◌,
}
use mathlib.Core.Option
use kernel_generation_china.Prelude.Table.{select_one, update, select_one_test, select_one-update}
use kernel_generation_china.Prelude.Result.{ok}
use kernel_generation_china.Domain.Enums.{RoundState, round_finished}
use kernel_generation_china.Domain.StateMachine.{
  transition, can_transition, contains, allowed_transitions, round_transitions, round_state_machine,
}
use kernel_generation_china.Storage.Events.Appending.{IsLog, LogGrows}
use kernel_generation_china.Storage.Store.Tables.{
  Task, Round, Store, is_task, is_round, get_task, get_round,
}
use kernel_generation_china.Storage.Store.Rounds.{enter_round, round_at}

pub record IsStore (s : Store) : Type 0 where
  pub rounds :
      (e t n : ℕ) (r : Round)
      → get_round e t n s ≡ some r
      → (k : Task) × (get_task e t s ≡ some k)
        × (1 ≤ n)
        × (n ≤ k.current_round)
        × (n < k.current_round → r.state ≡ round_finished)
  pub filled :
      (e t n : ℕ) (k : Task)
      → get_task e t s ≡ some k
      → 1 ≤ n
      → n ≤ k.current_round
      → (r : Round) × (get_round e t n s ≡ some r)
  pub log : IsLog s.events

pub map-some {ℓ} :
    {A : Type ℓ} (f : A → A) (o : Option A) (y : A)
    → Option.map f o ≡ some y
    → (x : A) × (o ≡ some x) × (y ≡ f x)
map-some f none y h = cc
map-some f (some x) y h = (x, refl, ground arith)

module _ (s s' : Store) where
  -- The lookups of tasks keep their current round; a new task has none.
  pub record KeepsTasks : Type 0 where
    pub forth :
        (e t : ℕ) (k : Task)
        → get_task e t s ≡ some k
        → (k' : Task) × (get_task e t s' ≡ some k') × (k'.current_round ≡ k.current_round)
    pub back :
        (e t : ℕ) (k' : Task)
        → get_task e t s' ≡ some k'
        → ((k : Task) × (get_task e t s ≡ some k) × (k'.current_round ≡ k.current_round))
          ⊎ (k'.current_round ≡ 0)

  same_rounds : s'.rounds ≡ s.rounds → (e t n : ℕ) → get_round e t n s' ≡ get_round e t n s
  unfolding get_round
  same_rounds same e t n = ap (select_one (is_round e t n)) same

  -- A call that leaves the rounds alone.
  pub keeps_rounds :
      s'.rounds ≡ s.rounds → KeepsTasks → LogGrows s.events s'.events → IsStore s → IsStore s'
  keeps_rounds same tasks grows v = record {
    rounds = λ e t n r h.
        let (k, found, low, high, done) = v.rounds e t n r (sym (same_rounds same e t n) ∙ h) in
        let (k', found', current) = tasks.forth e t k found in
        (k', found', low, omega (arith, current), λ lt. done (omega (arith, current)));
    filled = λ e t n k' h low high. elim (tasks.back e t k' h) [
      | inl (k, found, current) ↦
          let (r, at) = v.filled e t n k found low (omega (arith, current)) in
          (r, same_rounds same e t n ∙ at)
      | inr zero ↦ absurd (omega (arith, zero))
    ];
    log = (grows v.log).0;
  }

final_state :
    (x y : RoundState) → x ≡ round_finished → ¬ (transition round_state_machine x y ≡ ok y)
unfolding transition can_transition contains allowed_transitions round_transitions
    round_state_machine
final_state x y h e = ground arith

module _ (s s' : Store) (e t n v now : ℕ) (target : RoundState) (row : Round) where
  moved_lookup :
      s'.rounds ≡ update (round_at e t n v) (enter_round target now) s.rounds
      → (e' t' n' : ℕ)
      → get_round e' t' n' s'
        ≡ Option.map
            (λ x. if round_at e t n v x then enter_round target now x else x)
            (get_round e' t' n' s)
  unfolding get_round
  moved_lookup same e' t' n' =
      ap (select_one (is_round e' t' n')) same
      ∙ select_one-update (is_round e' t' n') (round_at e t n v) (enter_round target now)
          (λ x h. refl) s.rounds

  same_task : s'.tasks ≡ s.tasks → (e' t' : ℕ) → get_task e' t' s' ≡ get_task e' t' s
  unfolding get_task
  same_task same e' t' = ap (select_one (is_task e' t')) same

  -- A row that is found under two keys.
  one_key :
      (e' t' n' : ℕ) (x : Round)
      → get_round e' t' n' s ≡ some x
      → round_at e t n v x ≡ true
      → get_round e t n s ≡ some x
  unfolding get_round
  one_key e' t' n' x h hit =
      let test : is_round e' t' n' x ≡ true = select_one_test (is_round e' t' n') s.rounds x h in
      let es : e' ≡ e = ground arith in
      let ts : t' ≡ t = ground arith in let ns : n' ≡ n = ground arith in rw (es, ts, ns) at h

  -- A transition of one round.
  pub moves_round :
      s'.rounds ≡ update (round_at e t n v) (enter_round target now) s.rounds
      → s'.tasks ≡ s.tasks
      → get_round e t n s ≡ some row
      → transition round_state_machine row.state target ≡ ok target
      → LogGrows s.events s'.events
      → IsStore s
      → IsStore s'
  moves_round same tasks at edge grows inv = record {
    rounds = λ e' t' n' r h.
        let (x, found, is) = map-some _ _ r (sym (moved_lookup same e' t' n') ∙ h) in
        let (k, task, low, high, done) = inv.rounds e' t' n' x found in
        (
          k,
          same_task tasks e' t' ∙ task,
          low,
          high,
          λ lt. elim (Bool-cases (round_at e t n v x)) [
            | inr miss ↦
                let kept : r ≡ x = rw miss at is in ap (λ (z : Round). z.state) kept ∙ done lt
            | inl hit ↦
                let twice : some row ≡ some x = sym at ∙ one_key e' t' n' x found hit in
                let one : row ≡ x = ground arith in
                absurd
                  (final_state row.state target (ap (λ (z : Round). z.state) one ∙ done lt) edge)
          ],
        );
    filled = λ e' t' n' k h low high.
        let (r, found) = inv.filled e' t' n' k (sym (same_task tasks e' t') ∙ h) low high in
        (
          (if round_at e t n v r then enter_round target now r else r),
          moved_lookup same e' t' n' ∙ ap (Option.map _) found,
        );
    log = (grows inv.log).0;
  }
