-- ===== src/Storage/Store/Changes.antt =====
-- What a call that commits writes to the tables of the store.
use kernel_generation_china.Prelude.{
  ℕ, ◌+◌, ◌-◌, ◌<◌, ◌≡◌, refl, sym, ◌∙◌, ◌⊎◌, inl, inr, Option, none, some, List, [], ◌∷◌, ◌++◌,
  arith, leb, ◌==◌, ◌&&◌,
}
use kernel_generation_china.Prelude.Table.{select_one, update, row_count}
use kernel_generation_china.Prelude.Result.{
  ok, value_error, key_error, integrity_error, invalid_transition, concurrent_update, require,
  or_raise, ◌>>=◌, >>=-eq-ok,
}
use kernel_generation_china.Domain.Enums.{
  ExperimentState, TaskState, RoundState, round_finished, ExperimentState-discrete,
}
use kernel_generation_china.Domain.StateMachine.{
  contains, transition, task_state_machine, round_state_machine,
}
use kernel_generation_china.Storage.Events.{Identifier, Json, Draw, NewEvent, EventLog, round_check}
use kernel_generation_china.Storage.Events.Appending.{LogGrows}
use kernel_generation_china.Storage.Store.Tables.{
  Digest, Experiment, Task, Round, Candidate, ScoreRow, Artifact, Store, is_task, is_artifact,
  get_experiment, get_task, get_round, get_candidate, get_score, log, logged, version_matches,
}
use kernel_generation_china.Storage.Store.Lifecycle.{
  validate_sha256, replay_or_create_experiment, create_experiment, experiment_transitions,
  experiment_at, transition_experiment, is_known, replay_or_create_task, new_task, create_task,
  enter_task, task_at, transition_task,
}
use kernel_generation_china.Storage.Store.Evidence.{
  NewCandidate, exists, candidate_row, replay_or_register, register_candidate, NewArtifact, is_free,
  replay_or_add, register_artifact,
}
use kernel_generation_china.Storage.Store.Rounds.{
  add_round, create_round, enter_round, round_at, transition_round,
}
use kernel_generation_china.Storage.Store.Scores.{upsert_score, set_best}
use kernel_generation_china.Storage.Store.Effects.{create_round_cases}
use kernel_generation_china.Storage.Store.Swaps.{log_lem, logged_lem, transition_round-Written}

pub data Change (s : Store) : Store → Type 0 where
  experiments_written : (xs : List Experiment) → Change s (record s { experiments = xs })
  artifacts_written : (xs : List Artifact) → Change s (record s { artifacts = xs })
  task_added :
      (e t now version : ℕ) (digest : Option Digest)
      → Change s (record s { tasks = s.tasks ++ new_task now e t version digest ∷ [] })
  task_moved :
      (e t v now : ℕ) (target : TaskState)
      → Change s (record s { tasks = update (task_at e t v) (enter_task target now) s.tasks })
  round_added :
      (now e t n : ℕ) (task : Task)
      → get_round e t n s ≡ none
      → get_task e t s ≡ some task
      → n ≡ task.current_round + 1
      → ((1 < n) → (p : Round) × (get_round e t (n - 1) s ≡ some p) × (p.state ≡ round_finished))
      → Change s (add_round now e t n s)
  round_moved :
      (e t n v now : ℕ) (target : RoundState) (row : Round)
      → get_round e t n s ≡ some row
      → transition round_state_machine row.state target ≡ ok target
      → Change s (record s { rounds = update (round_at e t n v) (enter_round target now) s.rounds })
  candidate_added :
      (now : ℕ) (n : NewCandidate) (r : Round)
      → get_round n.experiment_id n.task_id n.round_number s ≡ some r
      → Change s (record s { candidates = s.candidates ++ candidate_row now n ∷ [] })
  score_written :
      (row : ScoreRow) (x : Candidate)
      → get_candidate row.score.candidate_id s ≡ some x
      → x.round_number ≡ row.score.round_number
      → Change s (upsert_score row s)
  best_written :
      (e t c now : ℕ) (x : Candidate) (r : ScoreRow)
      → get_candidate c s ≡ some x
      → x.experiment_id ≡ e
      → x.task_id ≡ t
      → get_score c s ≡ some r
      → Change s (record s { tasks = update (is_task e t) (set_best c now) s.tasks })

-- The call changed nothing, or it made one change and appended its event.
abbrev pub Changed : Store → Store → Type 0
Changed s s' =
    (s' ≡ s)
    ⊎ ((s1 : Store) × Change s s1
        × (m : EventLog) × (s' ≡ record s1 { events = m })
        × LogGrows s1.events m)

module _ {ℓ} {A : Type ℓ} (d : Draw) (n : NewEvent) (s s1 : Store) (x : A) (s' : Store) where
  pub logged-Changed :
      (get : Store → Option A) → logged d n get s1 ≡ ok (x, s') → Change s s1 → Changed s s'
  logged-Changed get h c =
      let (m, same, read, grows) = logged_lem d n get s1 x s' h in inr (s1, c, m, same, grows)

  pub log-Changed :
      (y : A)
      → ◌>>=◌ {B = A × Store} (log d n s1) (λ z. ok (y, z)) ≡ ok (x, s')
      → Change s s1
      → Changed s s'
  log-Changed y h c =
      let (z, written, h1) = >>=-eq-ok (log d n s1) _ h in
      let (m, same, grows) = log_lem d n s1 z written in
      let end : z ≡ s' = ground arith in inr (s1, c, m, sym end ∙ same, grows)

module _ (d : Draw) (now : ℕ) (s : Store) (s' : Store) where
  experiment_cases :
      (i : Identifier) (config : Json) (x : Experiment) (o : Option Experiment)
      → replay_or_create_experiment d now i config s o ≡ ok (x, s')
      → Changed s s'
  unfolding replay_or_create_experiment
  experiment_cases i config x (some y) h = inl (ground arith)
  experiment_cases i config x none h =
      logged-Changed d _ s _ x s' (get_experiment i) h (experiments_written _)

  pub create_experiment-Changed :
      (i : Identifier) (config : Json) (x : Experiment)
      → create_experiment d now i config s ≡ ok (x, s')
      → Changed s s'
  unfolding create_experiment
  create_experiment-Changed i config x h = experiment_cases i config x (get_experiment i s) h

  pub transition_experiment-Changed :
      (i : Identifier) (target : ExperimentState) (expected : Option ℕ) (x : Experiment)
      → transition_experiment d now i target expected s ≡ ok (x, s')
      → Changed s s'
  unfolding transition_experiment
  transition_experiment-Changed i target expected x h =
      let (row, found, h1) = >>=-eq-ok (or_raise (get_experiment i s) key_error) _ h in
      let (_, edge, h2) =
        >>=-eq-ok
          (require (contains ExperimentState-discrete (experiment_transitions row.state) target)
            invalid_transition)
          _ h1 in
      let (_, version, h3) =
        >>=-eq-ok (require (version_matches expected row.version) concurrent_update) _ h2 in
      let (_, one, h4) =
        >>=-eq-ok
          (require (row_count (experiment_at i row.version) s.experiments == 1) concurrent_update) _
          h3 in
      logged-Changed d _ s _ x s' (get_experiment i) h4 (experiments_written _)

  task_cases :
      (e t : Identifier) (version : ℕ) (digest : Option Digest) (x : Task) (o : Option Task)
      → replay_or_create_task d now e t version digest s o ≡ ok (x, s')
      → Changed s s'
  unfolding replay_or_create_task
  task_cases e t version digest x (some y) h = inl (ground arith)
  task_cases e t version digest x none h =
      let (_, known, h1) =
        >>=-eq-ok (require (is_known (get_experiment e s)) integrity_error) _ h in
      logged-Changed d _ s _ x s' (get_task e t) h1 (task_added e t now version digest)

  pub create_task-Changed :
      (e t : Identifier) (version : ℕ) (digest : Option Digest) (x : Task)
      → create_task d now e t version digest s ≡ ok (x, s')
      → Changed s s'
  unfolding create_task
  create_task-Changed e t version digest x h =
      let (_, positive, h1) = >>=-eq-ok (require (leb 1 version) value_error) _ h in
      let (_, valid, h2) = >>=-eq-ok (validate_sha256 digest) _ h1 in
      task_cases e t version digest x (get_task e t s) h2

  pub transition_task-Changed :
      (e t : Identifier) (target : TaskState) (expected : Option ℕ) (x : Task)
      → transition_task d now e t target expected s ≡ ok (x, s')
      → Changed s s'
  unfolding transition_task
  transition_task-Changed e t target expected x h =
      let (row, found, h1) = >>=-eq-ok (or_raise (get_task e t s) key_error) _ h in
      let (_, edge, h2) = >>=-eq-ok (transition task_state_machine row.state target) _ h1 in
      let (_, version, h3) =
        >>=-eq-ok (require (version_matches expected row.version) concurrent_update) _ h2 in
      let (_, one, h4) =
        >>=-eq-ok (require (row_count (task_at e t row.version) s.tasks == 1) concurrent_update) _
          h3 in
      logged-Changed d _ s _ x s' (get_task e t) h4 (task_moved e t row.version now target)

  exists_row :
      (o : Option Round) → require (exists o) integrity_error ≡ ok tt → (r : Round) × (o ≡ some r)
  exists_row none h = cc
  exists_row (some r) h = (r, refl)

  candidate_cases :
      (n : NewCandidate) (x : Candidate) (o : Option Candidate)
      → replay_or_register d now n s o ≡ ok (x, s')
      → Changed s s'
  unfolding replay_or_register
  candidate_cases n x (some y) h = inl (ground arith)
  candidate_cases n x none h =
      let (_, known, h1) =
        >>=-eq-ok
          (require (exists (get_round n.experiment_id n.task_id n.round_number s)) integrity_error)
          _ h in
      let (r, found) = exists_row _ known in
      logged-Changed d _ s _ x s' _ h1 (candidate_added now n r found)

  pub register_candidate-Changed :
      (n : NewCandidate) (x : Candidate) → register_candidate d now n s ≡ ok (x, s') → Changed s s'
  unfolding register_candidate
  register_candidate-Changed n x h =
      let (_, source, h1) = >>=-eq-ok (validate_sha256 (some n.source_sha256)) _ h in
      let (_, response, h2) = >>=-eq-ok (validate_sha256 n.response_sha256) _ h1 in
      candidate_cases n x _ h2

  artifact_cases :
      (i : Identifier) (n : NewArtifact) (x : Identifier) (o : Option Artifact)
      → replay_or_add d i n s o ≡ ok (x, s')
      → Changed s s'
  unfolding replay_or_add
  artifact_cases i n x (some y) h = inl (ground arith)
  artifact_cases i n x none h =
      let (_, free, h1) =
        >>=-eq-ok
          (require (is_free (select_one (is_artifact i) s.artifacts) && round_check n.round_number)
            integrity_error)
          _ h in
      log-Changed d _ s _ x s' i h1 (artifacts_written _)

  pub register_artifact-Changed :
      (fresh : Identifier) (n : NewArtifact) (x : Identifier)
      → register_artifact d fresh n s ≡ ok (x, s')
      → Changed s s'
  unfolding register_artifact
  register_artifact-Changed fresh n x h = artifact_cases _ n x _ h

  pub create_round-Changed :
      (e t : Identifier) (n : ℕ) (x : Round)
      → create_round d now e t n s ≡ ok (x, s')
      → Changed s s'
  create_round-Changed e t n x h = elim (create_round_cases d now e t n s x s' h) [
    | inl (found, same) ↦ inl same
    | inr (task, absent, at, runs, next, previous, read, (m, same, grows)) ↦
        inr (
          add_round now e t n s,
          round_added now e t n task absent at next previous,
          m,
          same,
          grows,
        )
  ]

  pub transition_round-Changed :
      (e t : Identifier) (n : ℕ) (y : RoundState) (o : Option ℕ) (p : Option Json) (x : Round)
      → transition_round d now e t n y o p s ≡ ok (x, s')
      → Changed s s'
  transition_round-Changed e t n y o p x h =
      let (row, found, edge, version, w) = transition_round-Written d now e t n y o p s x s' h in
      let (m, same, grows) = w.2 in
      inr (_, round_moved e t n row.version now y row found edge, m, same, grows)
