-- ===== src/Storage/Store/Calls.antt =====
-- The calls that write the store, as one step.
use kernel_generation_china.Prelude.{ℕ, Bool, Option, List, [], ◌∷◌}
use kernel_generation_china.Prelude.Result.{Result, ok, err}
use kernel_generation_china.Domain.Enums.{ExperimentState, TaskState, RoundState}
use kernel_generation_china.Domain.Float.{Libm}
use kernel_generation_china.Domain.Scoring.{CandidateScore}
use kernel_generation_china.Storage.Events.{Identifier, Json, Draw}
use kernel_generation_china.Storage.Store.Tables.{Digest, Store}
use kernel_generation_china.Storage.Store.Lifecycle.{
  create_experiment, transition_experiment, create_task, transition_task,
}
use kernel_generation_china.Storage.Store.Rounds.{create_round, transition_round}
use kernel_generation_china.Storage.Store.Evidence.{
  NewCandidate, NewArtifact, register_candidate, register_artifact,
}
use kernel_generation_china.Storage.Store.Scores.{
  save_candidate_score, set_best_candidate, select_and_set_best_candidate,
}

pub data StoreCall : Type 0 where
  creates_experiment : Identifier → Json → StoreCall
  moves_experiment : Identifier → ExperimentState → Option ℕ → StoreCall
  creates_task : Identifier → Identifier → ℕ → Option Digest → StoreCall
  moves_task : Identifier → Identifier → TaskState → Option ℕ → StoreCall
  creates_round : Identifier → Identifier → ℕ → StoreCall
  moves_round : Identifier → Identifier → ℕ → RoundState → Option ℕ → Option Json → StoreCall
  registers_candidate : NewCandidate → StoreCall
  registers_artifact : Identifier → NewArtifact → StoreCall
  saves_score : CandidateScore → StoreCall
  sets_best : Identifier → Identifier → Identifier → Json → StoreCall
  selects_best : Identifier → Identifier → Bool → StoreCall

abbrev pub state_of {ℓ} : {A : Type ℓ} → Result (A × Store) → Result Store
state_of (ok (a, s)) = ok s
state_of (err e) = err e

-- What one call at `now` commits.
unfoldable pub run_store : Libm → Draw → ℕ → StoreCall → Store → Result Store
run_store m d now (creates_experiment i c) s = state_of (create_experiment d now i c s)
run_store m d now (moves_experiment i x v) s = state_of (transition_experiment d now i x v s)
run_store m d now (creates_task e t v g) s = state_of (create_task d now e t v g s)
run_store m d now (moves_task e t x v) s = state_of (transition_task d now e t x v s)
run_store m d now (creates_round e t n) s = state_of (create_round d now e t n s)
run_store m d now (moves_round e t n x v p) s = state_of (transition_round d now e t n x v p s)
run_store m d now (registers_candidate n) s = state_of (register_candidate d now n s)
run_store m d now (registers_artifact i n) s = state_of (register_artifact d i n s)
run_store m d now (saves_score x) s = state_of (save_candidate_score m d now x s)
run_store m d now (sets_best e t c r) s = state_of (set_best_candidate d now e t c r s)
run_store m d now (selects_best e t h) s = state_of (select_and_set_best_candidate d now e t h s)

abbrev pub committed_store : Store → Result Store → Store
committed_store s (ok s') = s'
committed_store s (err e) = s

pub record StoreInput : Type 0 where
  pub draw : Draw
  pub now : ℕ
  pub call : StoreCall

-- Calls one after the other: an error leaves the store as it was.
unfoldable pub serve_store : Libm → Store → List StoreInput → Store
serve_store m s [] = s
serve_store m s (i ∷ is) = serve_store m (committed_store s (run_store m i.draw i.now i.call s)) is
