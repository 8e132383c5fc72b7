-- ===== src/Storage/Store/Serving.antt =====
-- The calls of `StoreCall` change the store by `Change`, and a property that every change keeps
-- holds after any calls.
use kernel_generation_china.Prelude.{ℕ, ◌≡◌, refl, List, [], ◌∷◌, arith}
use kernel_generation_china.Prelude.Result.{Result, ok, err}
use kernel_generation_china.Domain.Float.{Libm}
use kernel_generation_china.Storage.Events.{Draw}
use kernel_generation_china.Storage.Store.Tables.{Store}
use kernel_generation_china.Storage.Store.Lifecycle.{
  create_experiment, transition_experiment, create_task, transition_task,
}
use kernel_generation_china.Storage.Store.Rounds.{create_round, transition_round}
use kernel_generation_china.Storage.Store.Evidence.{register_candidate, register_artifact}
use kernel_generation_china.Storage.Store.Scores.{
  save_candidate_score, set_best_candidate, select_and_set_best_candidate,
}
use kernel_generation_china.Storage.Store.Calls.{
  StoreCall, creates_experiment, moves_experiment, creates_task, moves_task, creates_round,
  moves_round, registers_candidate, registers_artifact, saves_score, sets_best, selects_best,
  state_of, run_store, committed_store, StoreInput, serve_store,
}
use kernel_generation_china.Storage.Store.Changes.{
  Changed, create_experiment-Changed, transition_experiment-Changed, create_task-Changed,
  transition_task-Changed, register_candidate-Changed, register_artifact-Changed,
  create_round-Changed, transition_round-Changed,
}
use kernel_generation_china.Storage.Store.ScoreChanges.{
  save_candidate_score-Changed, set_best_candidate-Changed, select_and_set_best_candidate-Changed,
}

state_of_ok {ℓ} :
    {A : Type ℓ} (r : Result (A × Store)) (s : Store)
    → state_of r ≡ ok s
    → (a : A) × (r ≡ ok (a, s))
state_of_ok (ok (a, s')) s h = (a, ground arith)
state_of_ok (err e) s h = cc

module _ (m : Libm) where
  pub run_store-Changed :
      (d : Draw) (now : ℕ) (c : StoreCall) (s s' : Store)
      → run_store m d now c s ≡ ok s'
      → Changed s s'
  unfolding run_store
  run_store-Changed d now (creates_experiment i c) s s' h =
      let (x, e) = state_of_ok (create_experiment d now i c s) s' h in
      create_experiment-Changed d now s s' i c x e
  run_store-Changed d now (moves_experiment i y o) s s' h =
      let (x, e) = state_of_ok (transition_experiment d now i y o s) s' h in
      transition_experiment-Changed d now s s' i y o x e
  run_store-Changed d now (creates_task a t o g) s s' h =
      let (x, e) = state_of_ok (create_task d now a t o g s) s' h in
      create_task-Changed d now s s' a t o g x e
  run_store-Changed d now (moves_task a t y o) s s' h =
      let (x, e) = state_of_ok (transition_task d now a t y o s) s' h in
      transition_task-Changed d now s s' a t y o x e
  run_store-Changed d now (creates_round a t n) s s' h =
      let (x, e) = state_of_ok (create_round d now a t n s) s' h in
      create_round-Changed d now s s' a t n x e
  run_store-Changed d now (moves_round a t n y o p) s s' h =
      let (x, e) = state_of_ok (transition_round d now a t n y o p s) s' h in
      transition_round-Changed d now s s' a t n y o p x e
  run_store-Changed d now (registers_candidate n) s s' h =
      let (x, e) = state_of_ok (register_candidate d now n s) s' h in
      register_candidate-Changed d now s s' n x e
  run_store-Changed d now (registers_artifact i n) s s' h =
      let (x, e) = state_of_ok (register_artifact d i n s) s' h in
      register_artifact-Changed d now s s' i n x e
  run_store-Changed d now (saves_score y) s s' h =
      let (x, e) = state_of_ok (save_candidate_score m d now y s) s' h in
      save_candidate_score-Changed m d now s s' y x e
  run_store-Changed d now (sets_best a t c r) s s' h =
      let (x, e) = state_of_ok (set_best_candidate d now a t c r s) s' h in
      set_best_candidate-Changed m d now s s' a t c r x e
  run_store-Changed d now (selects_best a t y) s s' h =
      let (x, e) = state_of_ok (select_and_set_best_candidate d now a t y s) s' h in
      select_and_set_best_candidate-Changed m d now s s' a t y x e

  module _ (P : Store → Type 0) (keep : (s s' : Store) → Changed s s' → P s → P s') where
    pub serve_store_invariant :
        (s : Store) (inputs : List StoreInput) → P s → P (serve_store m s inputs)
    unfolding serve_store
    serve_store_invariant s [] v = v
    serve_store_invariant s (x ∷ xs) v =
        serve_store_invariant (committed_store s (run_store m x.draw x.now x.call s)) xs
          (kept (run_store m x.draw x.now x.call s) refl)
      where
        kept : (r : Result Store) → run_store m x.draw x.now x.call s ≡ r → P (committed_store s r)
        kept (ok s') e = keep s s' (run_store-Changed x.draw x.now x.call s s' e) v
        kept (err y) e = v
