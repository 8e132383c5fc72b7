-- ===== src/Storage/Store/Outcomes.antt =====
-- What a stored score and a stored choice of the best candidate read back as.
use kernel_generation_china.Prelude.{
  ℕ, ◌≡◌, refl, sym, ap, ◌∙◌, subst, ◌⊎◌, inl, inr, Bool, true, false, Option, none, some, arith,
  ◌==◌, option_eq, option_eq→eq, if◌then◌else◌,
}
use mathlib.Core.Option
use mathlib.Core.List.{Memᴰ}
use kernel_generation_china.Prelude.Table.{
  select_one, update, row_count, select_one_test, select_one-update,
}
use kernel_generation_china.Prelude.Result.{ok, key_error, require, or_raise, ◌>>=◌, >>=-eq-ok}
use kernel_generation_china.Domain.Scoring.{CandidateScore}
use kernel_generation_china.Domain.Scoring.Ranking.{eligible, ranks_before, select_best_candidate}
use kernel_generation_china.Domain.Scoring.Selection.{select_best_greatest}
use kernel_generation_china.Storage.Events.{Identifier, Draw, NewEvent, EventLog}
use kernel_generation_china.Storage.Store.Tables.{Task, Store, is_task, get_task, log}
use kernel_generation_china.Storage.Store.Scores.{
  set_best, write_ranked, persist_ranked, task_scores, select_and_set_best_candidate,
}
use kernel_generation_china.Storage.Store.Swaps.{log_lem}

pub logged_end {ℓ} :
    {A : Type ℓ} (d : Draw) (n : NewEvent) (s1 : Store) (y x : A) (s' : Store)
    → ◌>>=◌ {B = A × Store} (log d n s1) (λ z. ok (y, z)) ≡ ok (x, s')
    → (x ≡ y) × ((m : EventLog) × (s' ≡ record s1 { events = m }))
logged_end d n s1 y x s' h =
    let (z, written, h1) = >>=-eq-ok (log d n s1) _ h in
    let (m, same, grows) = log_lem d n s1 z written in
    let end : z ≡ s' = ground arith in (ground arith, (m, sym end ∙ same))

module _ (e t c now : ℕ) (s : Store) (k : Task) where
  chosen_task :
      (m : EventLog) (s' : Store)
      → get_task e t s ≡ some k
      → s' ≡ record s { tasks = update (is_task e t) (set_best c now) s.tasks; events = m }
      → (k' : Task) × (get_task e t s' ≡ some k') × (k'.best_candidate_id ≡ some c)
  unfolding get_task
  chosen_task m s' at same =
      let test : is_task e t k ≡ true = select_one_test (is_task e t) s.tasks k at in
      (
        set_best c now k,
        ap (λ (z : Store). select_one (is_task e t) z.tasks) same
            ∙ select_one-update (is_task e t) (is_task e t) (set_best c now) (λ x h. refl) s.tasks
            ∙ ap (Option.map (λ x. if is_task e t x then set_best c now x else x)) at
            ∙ rw test,
        refl,
      )

module _ (d : Draw) (now : ℕ) (e t : Identifier) (required : Bool) (s : Store) where
  -- The task has the candidate as its best one.
  abbrev HasBest : Store → CandidateScore → Type 0
  HasBest s' b =
      (k : Task) × (get_task e t s' ≡ some k) × (k.best_candidate_id ≡ some b.candidate_id)

  ranked_HasBest :
      (s' : Store) (b : CandidateScore) (x : Option CandidateScore) (k : Task) (hit : Bool)
      → get_task e t s ≡ some k
      → option_eq k.best_candidate_id (some b.candidate_id) ≡ hit
      → (if hit then ok (some b, s) else write_ranked d now e t required b s) ≡ ok (x, s')
      → (x ≡ some b) × HasBest s' b
  unfolding write_ranked
  ranked_HasBest s' b x k true at is h =
      let same : s ≡ s' = ground arith in
      (
        ground arith,
        (
          k,
          ap (get_task e t) (sym same) ∙ at,
          option_eq→eq k.best_candidate_id (some b.candidate_id) is,
        ),
      )
  ranked_HasBest s' b x k false at is h =
      let (_, one, h1) = >>=-eq-ok (require (row_count (is_task e t) s.tasks == 1) key_error) _ h in
      let (end, (m, same)) = logged_end d _ _ (some b) x s' h1 in
      (end, chosen_task e t b.candidate_id now s k m s' at same)

  persisted_HasBest :
      (s' : Store) (b : CandidateScore) (x : Option CandidateScore)
      → persist_ranked d now e t required s (some b) ≡ ok (x, s')
      → (x ≡ some b) × HasBest s' b
  unfolding persist_ranked
  persisted_HasBest s' b x h =
      let (k, found, h1) = >>=-eq-ok (or_raise (get_task e t s) key_error) _ h in
      let at : get_task e t s ≡ some k = ground arith in
      ranked_HasBest s' b x k (option_eq k.best_candidate_id (some b.candidate_id)) at refl h1

  outcome :
      (s' : Store) (o x : Option CandidateScore)
      → select_best_candidate (task_scores e t s) required ≡ o
      → persist_ranked d now e t required s o ≡ ok (x, s')
      → ((x ≡ none)
          × (s' ≡ s)
          × ((y : CandidateScore) → Memᴰ y (task_scores e t s) → eligible required y ≡ false))
        ⊎ ((b : CandidateScore) × (x ≡ some b)
            × Memᴰ b (task_scores e t s)
            × (eligible required b ≡ true)
            × ((y : CandidateScore)
                → Memᴰ y (task_scores e t s)
                → eligible required y ≡ true
                → ranks_before b y ≡ true)
            × HasBest s' b)
  unfolding persist_ranked
  outcome s' none x is h = elim (select_best_greatest (task_scores e t s) required none is) [
    | inl (_, empty) ↦ inl (ground arith, ground arith, empty)
    | inr (b, impossible, _, _, _) ↦ cc
  ]
  outcome s' (some b) x is h =
      elim (select_best_greatest (task_scores e t s) required (some b) is) [
        | inl (impossible, _) ↦ cc
        | inr (b', same, inside, good, greatest) ↦
            let (end, has) = persisted_HasBest s' b x h in
            let one : b ≡ b' = ground arith in
            inr (b', end ∙ ap some one, inside, good, greatest, subst (HasBest s') one has)
      ]

  -- A call of `select_and_set_best_candidate` that commits returns none and changes nothing, and
  -- then no score of the task is eligible; or it returns a score of the task that is eligible and
  -- ranks no lower than any eligible one, and the row of the task then names its candidate as the
  -- best. Eligible is what `select_best_candidate` asks for, which the anti-bypass check is not.
  pub stores_greatest :
      (s' : Store) (x : Option CandidateScore)
      → select_and_set_best_candidate d now e t required s ≡ ok (x, s')
      → ((x ≡ none)
          × (s' ≡ s)
          × ((y : CandidateScore) → Memᴰ y (task_scores e t s) → eligible required y ≡ false))
        ⊎ ((b : CandidateScore) × (x ≡ some b)
            × Memᴰ b (task_scores e t s)
            × (eligible required b ≡ true)
            × ((y : CandidateScore)
                → Memᴰ y (task_scores e t s)
                → eligible required y ≡ true
                → ranks_before b y ≡ true)
            × ((k : Task) × (get_task e t s' ≡ some k)
                × (k.best_candidate_id ≡ some b.candidate_id)))
  unfolding select_and_set_best_candidate
  stores_greatest s' x h = outcome s' (select_best_candidate (task_scores e t s) required) x refl h
