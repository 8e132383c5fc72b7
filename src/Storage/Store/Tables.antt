-- ===== src/Storage/Store/Tables.antt =====
-- The tables of storage/state_store.py (their columns in storage/database.py) and their keys.
use kernel_generation_china.Prelude.{
  ℕ, Bool, true, ◌&&◌, Option, none, some, List, ◌==◌, ℕ_discrete,
}
use kernel_generation_china.Prelude.Table.{select_one}
use kernel_generation_china.Prelude.Result.{Result, ok, or_raise, assertion_error, ◌>>=◌}
use kernel_generation_china.Domain.Enums.{ExperimentState, TaskState, RoundState}
use kernel_generation_china.Domain.Scoring.{CandidateScore}
use kernel_generation_china.Domain.Scoring.Rewards.{RewardBreakdown}
use kernel_generation_china.Storage.Events.{
  Identifier, Json, EventType, Aggregate, Payload, NewEvent, EventLog, Draw, append,
}

-- A text, as `_validate_sha256` tells it: 64 lowercase hexadecimal digits, or another text.
pub data Digest : Type 0 where
  sha256 : ℕ → Digest
  malformed : ℕ → Digest

unfoldable pub Digest-discrete : Discrete Digest
Digest-discrete = hlevel ℕ_discrete

unfoldable pub OptionDigest-discrete : Discrete (Option Digest)
OptionDigest-discrete = hlevel ℕ_discrete

pub record Experiment : Type 0 where
  pub experiment_id : Identifier
  pub state : ExperimentState
  pub config : Json
  pub created_at : ℕ
  pub updated_at : ℕ
  pub version : ℕ

pub record Task : Type 0 where
  pub experiment_id : Identifier
  pub task_id : Identifier
  pub task_version : ℕ
  pub state : TaskState
  pub current_round : ℕ
  pub best_candidate_id : Option Identifier
  pub task_spec_sha256 : Option Digest
  pub created_at : ℕ
  pub updated_at : ℕ
  pub version : ℕ

pub record Round : Type 0 where
  pub experiment_id : Identifier
  pub task_id : Identifier
  pub round_number : ℕ
  pub state : RoundState
  pub created_at : ℕ
  pub updated_at : ℕ
  pub version : ℕ

pub record Candidate : Type 0 where
  pub candidate_id : Identifier
  pub experiment_id : Identifier
  pub task_id : Identifier
  pub round_number : ℕ
  pub source_sha256 : Digest
  pub source_artifact_path : Identifier
  pub response_sha256 : Option Digest
  pub created_at : ℕ

-- A row of candidate_scores.
pub record ScoreRow : Type 0 where
  pub score : CandidateScore
  pub reward : RewardBreakdown
  pub updated_at : ℕ

pub record Artifact : Type 0 where
  pub artifact_id : Identifier
  pub experiment_id : Option Identifier
  pub task_id : Option Identifier
  pub round_number : Option ℕ
  pub relative_path : Identifier
  pub digest : ℕ
  pub size_bytes : ℕ
  pub media_type : Identifier
  pub metadata : Json
  pub created_at : ℕ

pub record Store : Type 0 where
  pub experiments : List Experiment
  pub tasks : List Task
  pub rounds : List Round
  pub candidates : List Candidate
  pub scores : List ScoreRow
  pub artifacts : List Artifact
  pub events : EventLog

-- The primary keys, as the WHERE clauses name them.
abbrev pub is_experiment : Identifier → Experiment → Bool
is_experiment i x = x.experiment_id == i

abbrev pub is_task : Identifier → Identifier → Task → Bool
is_task e t x = x.experiment_id == e && x.task_id == t

abbrev pub is_round : Identifier → Identifier → ℕ → Round → Bool
is_round e t n x = x.experiment_id == e && x.task_id == t && x.round_number == n

abbrev pub is_candidate : Identifier → Candidate → Bool
is_candidate i x = x.candidate_id == i

abbrev pub is_score : Identifier → ScoreRow → Bool
is_score i x = x.score.candidate_id == i

abbrev pub has_path : Identifier → Artifact → Bool
has_path p x = x.relative_path == p

abbrev pub is_artifact : Identifier → Artifact → Bool
is_artifact i x = x.artifact_id == i

unfoldable pub get_experiment : Identifier → Store → Option Experiment
get_experiment i s = select_one (is_experiment i) s.experiments

unfoldable pub get_task : Identifier → Identifier → Store → Option Task
get_task e t s = select_one (is_task e t) s.tasks

unfoldable pub get_round : Identifier → Identifier → ℕ → Store → Option Round
get_round e t n s = select_one (is_round e t n) s.rounds

unfoldable pub get_candidate : Identifier → Store → Option Candidate
get_candidate i s = select_one (is_candidate i) s.candidates

unfoldable pub get_score : Identifier → Store → Option ScoreRow
get_score i s = select_one (is_score i) s.scores

abbrev pub entry :
    EventType
    → Aggregate
    → Option Identifier
    → Option Identifier
    → Option ℕ
    → Payload
    → ℕ
    → NewEvent
entry type aggregate experiment task round payload now = record {
  event_type = type;
  aggregate = aggregate;
  experiment_id = experiment;
  task_id = task;
  round_number = round;
  payload = payload;
  event_id = none;
  occurred_at = some now;
}

-- The event that each change ends with, in the transaction that has written the other tables.
unfoldable pub log : Draw → NewEvent → Store → Result Store
log d n s = do (e, events) ← append d n s.events; ok (record s { events = events })

-- The event and the SELECT that reads the written row back, which most changes end with.
unfoldable pub logged {ℓ} :
    {A : Type ℓ} → Draw → NewEvent → (Store → Option A) → Store → Result (A × Store)
logged d n get s = do s' ← log d n s; x ← or_raise (get s') assertion_error; ok (x, s')

-- `expected_version is not None and version != expected_version`
abbrev pub version_matches : Option ℕ → ℕ → Bool
version_matches none v = true
version_matches (some e) v = v == e
