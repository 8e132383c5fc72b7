-- ===== src/Storage/Store/Effects.antt =====
-- What a call that commits does to the rows of tasks and rounds.
use kernel_generation_china.Prelude.{
  ℕ, ◌+◌, ◌-◌, ◌<◌, ◌≡◌, refl, ◌∙◌, ◌⊎◌, inl, inr, true, Option, none, some, arith, leb,
}
use kernel_generation_china.Prelude.Result.{
  ok, value_error, key_error, require, or_raise, >>=-eq-ok,
}
use kernel_generation_china.Domain.Enums.{round_finished, is_rounds_running}
use kernel_generation_china.Storage.Events.{Identifier, Draw, EventLog}
use kernel_generation_china.Storage.Events.Appending.{LogGrows}
use kernel_generation_china.Storage.Store.Tables.{Task, Round, Store, get_task, get_round}
use kernel_generation_china.Storage.Store.Rounds.{
  has_finished, check_next, add_round, replay_or_create_round, create_round,
}
use kernel_generation_china.Storage.Store.Swaps.{logged_lem}

module _ (d : Draw) (now : ℕ) (e t : Identifier) (n : ℕ) (s : Store) (r : Round) (s' : Store) where
  -- The round is new, and its number is the next one of a running task whose rounds so far have
  -- finished.
  abbrev pub Opened : Type 0
  Opened =
      (task : Task) × (get_round e t n s ≡ none)
      × (get_task e t s ≡ some task)
      × (is_rounds_running task.state ≡ true)
      × (n ≡ task.current_round + 1)
      × ((1 < n) → (p : Round) × (get_round e t (n - 1) s ≡ some p) × (p.state ≡ round_finished))
      × (get_round e t n s' ≡ some r)
      × ((m : EventLog) × (s' ≡ record (add_round now e t n s) { events = m })
          × LogGrows (add_round now e t n s).events m)

  finished_row :
      (o : Option Round)
      → has_finished o ≡ true
      → (p : Round) × (o ≡ some p) × (p.state ≡ round_finished)
  finished_row none h = cc
  finished_row (some p) h = (p, refl, ground arith)

  checked :
      (task : Task)
      → check_next e t n s task ≡ ok tt
      → (is_rounds_running task.state ≡ true)
        × (n ≡ task.current_round + 1)
        × ((1 < n) → has_finished (get_round e t (n - 1) s) ≡ true)
  unfolding check_next
  checked task h = ground arith

  opened :
      get_round e t n s ≡ none → replay_or_create_round d now e t n s none ≡ ok (r, s') → Opened
  unfolding replay_or_create_round
  opened absent h =
      let (task, found, h1) = >>=-eq-ok (or_raise (get_task e t s) key_error) _ h in
      let (_, valid, h2) = >>=-eq-ok (check_next e t n s task) _ h1 in
      let (runs, next, previous) = checked task valid in
      let (m, same, read, grows) = logged_lem d _ (get_round e t n) _ r s' h2 in
      let at : get_task e t s ≡ some task = ground arith in
      (
        task,
        absent,
        at,
        runs,
        next,
        λ lt. finished_row (get_round e t (n - 1) s) (previous lt),
        read,
        (m, same, grows),
      )

  replay_cases :
      (o : Option Round)
      → get_round e t n s ≡ o
      → replay_or_create_round d now e t n s o ≡ ok (r, s')
      → ((get_round e t n s ≡ some r) × (s' ≡ s)) ⊎ Opened
  unfolding replay_or_create_round
  replay_cases none found h = inr (opened found h)
  replay_cases (some x) found h = inl (found ∙ ground arith, ground arith)

  -- The two outcomes of a `create_round` that commits: the round was there and nothing changes, or
  -- it is the next round of its task.
  pub create_round_cases :
      create_round d now e t n s ≡ ok (r, s') → ((get_round e t n s ≡ some r) × (s' ≡ s)) ⊎ Opened
  unfolding create_round
  create_round_cases h =
      let (_, valid, h1) = >>=-eq-ok (require (leb 1 n) value_error) _ h in
      replay_cases (get_round e t n s) refl h1
