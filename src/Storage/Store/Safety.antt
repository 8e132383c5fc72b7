-- ===== src/Storage/Store/Safety.antt =====
-- What holds of the store whatever its callers do, and the gate of `create_round`.
use kernel_generation_china.Prelude.{
  ℕ, ◌+◌, ◌-◌, ◌<◌, ◌≡◌, refl, ◌⊎◌, inl, inr, true, none, some, List, [], leb,
}
use kernel_generation_china.Prelude.Table.{select_one}
use kernel_generation_china.Prelude.Result.{ok, value_error, require, >>=-eq-ok, require-eq-ok}
use kernel_generation_china.Domain.Enums.{round_finished, is_rounds_running}
use kernel_generation_china.Storage.Events.{Draw, empty_log}
use kernel_generation_china.Storage.Events.Appending.{empty-IsLog}
use kernel_generation_china.Storage.Store.Tables.{Task, Round, Store, get_task, get_round}
use kernel_generation_china.Storage.Store.Rounds.{create_round, replay_or_create_round}
use kernel_generation_china.Domain.Float.{Libm}
use kernel_generation_china.Storage.Store.Calls.{StoreInput, serve_store}
use kernel_generation_china.Storage.Store.Effects.{create_round_cases}
use kernel_generation_china.Storage.Store.Contiguity.{IsStore}
use kernel_generation_china.Storage.Store.Numbering.{Changed-IsStore}
use kernel_generation_china.Storage.Store.Serving.{serve_store_invariant}

abbrev pub empty_store : Store
empty_store = record {
  experiments = [];
  tasks = [];
  rounds = [];
  candidates = [];
  scores = [];
  artifacts = [];
  events = empty_log;
}

empty-IsStore : IsStore empty_store
unfolding get_round get_task select_one
empty-IsStore = record {
  rounds = λ e t n r h. cc;
  filled = λ e t n k h low high. cc;
  log = empty-IsLog;
}

-- After any sequence of calls that create or move experiments, tasks and rounds, register
-- candidates and artifacts, write scores or choose best candidates, on an empty store, whether they
-- succeed or raise: every round belongs to a task and its number is within 1 and the task's current
-- round; a round below the current one has finished; every number within these bounds has a round;
-- the event log is in order.
pub serve_store-IsStore :
    (m : Libm) (inputs : List StoreInput) → IsStore (serve_store m empty_store inputs)
serve_store-IsStore m inputs =
    serve_store_invariant m IsStore (λ s s' c. Changed-IsStore s s' c) empty_store inputs
      empty-IsStore

positive :
    (d : Draw) (now : ℕ) (e t n : ℕ) (s : Store) (r : Round) (s' : Store)
    → create_round d now e t n s ≡ ok (r, s')
    → leb 1 n ≡ true
unfolding create_round
positive d now e t n s r s' h =
    let (u, valid, h1) = >>=-eq-ok (require (leb 1 n) value_error) _ h in
    require-eq-ok (leb 1 n) value_error u valid

again :
    (d d' : Draw) (now now' : ℕ) (e t n : ℕ) (s : Store) (r : Round) (s' : Store)
    → create_round d now e t n s ≡ ok (r, s')
    → get_round e t n s' ≡ some r
    → create_round d' now' e t n s' ≡ ok (r, s')
unfolding create_round replay_or_create_round
again d d' now now' e t n s r s' h read = rw (positive d now e t n s r s' h, read) refl

-- A `create_round` that commits either finds the round and changes nothing, or the round was not
-- there: then the task is running its rounds, the number is one above the task's current round, the
-- round before it, if the number is above 1, has finished, and the store has the new round. Either
-- way a second call finds that row and changes nothing.
pub create_round_gated :
    (d d' : Draw) (now now' : ℕ) (e t n : ℕ) (s : Store) (r : Round) (s' : Store)
    → create_round d now e t n s ≡ ok (r, s')
    → (((get_round e t n s ≡ some r) × (s' ≡ s))
        ⊎ ((task : Task) × (get_round e t n s ≡ none)
            × (get_task e t s ≡ some task)
            × (is_rounds_running task.state ≡ true)
            × (n ≡ task.current_round + 1)
            × ((1 < n)
                → (p : Round) × (get_round e t (n - 1) s ≡ some p) × (p.state ≡ round_finished))))
      × (get_round e t n s' ≡ some r)
      × (create_round d' now' e t n s' ≡ ok (r, s'))
create_round_gated d d' now now' e t n s r s' h = elim (create_round_cases d now e t n s r s' h) [
  | inl (found, same) ↦
      let read : get_round e t n s' ≡ some r = rw same found in
      (inl (found, same), read, again d d' now now' e t n s r s' h read)
  | inr (task, absent, at, runs, next, previous, read, written) ↦
      (inr (task, absent, at, runs, next, previous), read, again d d' now now' e t n s r s' h read)
]
