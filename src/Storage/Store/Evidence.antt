-- ===== src/Storage/Store/Evidence.antt =====
-- `register_candidate` and `register_artifact` of storage/state_store.py.
use kernel_generation_china.Prelude.{
  ℕ, Bool, true, false, ◌&&◌, Option, none, some, [], ◌∷◌, ◌++◌, ◌==◌, option_eq, is_same,
  if◌then◌else◌,
}
use kernel_generation_china.Prelude.Table.{select_one}
use kernel_generation_china.Prelude.Result.{
  Result, ok, err, integrity_error, concurrent_update, artifact_conflict, require, ◌>>=◌, ◌>>◌,
}
use kernel_generation_china.Storage.Events.{
  Identifier, Json, Draw, candidate_registered, artifact_registered, candidate_aggregate,
  artifact_aggregate, candidate_source, artifact_digest, round_check,
}
use kernel_generation_china.Storage.Store.Tables.{
  Digest, sha256, malformed, Digest-discrete, OptionDigest-discrete, Round, Candidate, Artifact,
  Store, has_path, is_artifact, get_round, get_candidate, entry, log, logged,
}
use kernel_generation_china.Storage.Store.Lifecycle.{validate_sha256}

-- The keyword arguments of `register_candidate`.
pub record NewCandidate : Type 0 where
  pub candidate_id : Identifier
  pub experiment_id : Identifier
  pub task_id : Identifier
  pub round_number : ℕ
  pub source_sha256 : Digest
  pub source_artifact_path : Identifier
  pub response_sha256 : Option Digest

unfoldable pub same_candidate : Candidate → NewCandidate → Bool
unfolding Digest-discrete OptionDigest-discrete
same_candidate x n =
    x.experiment_id == n.experiment_id
    && x.task_id == n.task_id
    && x.round_number == n.round_number
    && is_same Digest-discrete x.source_sha256 n.source_sha256
    && x.source_artifact_path == n.source_artifact_path
    && is_same OptionDigest-discrete x.response_sha256 n.response_sha256

unfoldable pub candidate_row : ℕ → NewCandidate → Candidate
candidate_row now n = record {
  candidate_id = n.candidate_id;
  experiment_id = n.experiment_id;
  task_id = n.task_id;
  round_number = n.round_number;
  source_sha256 = n.source_sha256;
  source_artifact_path = n.source_artifact_path;
  response_sha256 = n.response_sha256;
  created_at = now;
}

-- The digest in the payload; it has been validated before.
abbrev pub digest_text : Digest → ℕ
digest_text (sha256 n) = n
digest_text (malformed n) = n

abbrev pub exists : Option Round → Bool
exists none = false
exists (some r) = true

-- `register_candidate` after its SELECT; the INSERT meets the foreign key on the round.
unfoldable pub replay_or_register :
    Draw → ℕ → NewCandidate → Store → Option Candidate → Result (Candidate × Store)
replay_or_register d now n s (some x) =
    if same_candidate x n then ok (x, s) else err concurrent_update
replay_or_register d now n s none = do
  require (exists (get_round n.experiment_id n.task_id n.round_number s)) integrity_error
  logged d
      (entry candidate_registered (candidate_aggregate n.candidate_id) (some n.experiment_id)
        (some n.task_id) (some n.round_number)
        (candidate_source (digest_text n.source_sha256) n.source_artifact_path) now)
      (get_candidate n.candidate_id)
      (record s { candidates = s.candidates ++ candidate_row now n ∷ [] })

unfoldable pub register_candidate : Draw → ℕ → NewCandidate → Store → Result (Candidate × Store)
register_candidate d now n s = do
  validate_sha256 (some n.source_sha256)
  validate_sha256 n.response_sha256
  replay_or_register d now n s (get_candidate n.candidate_id s)

-- `ArtifactMetadata`, whose digest is a well-formed one, with the keyword arguments of
-- `register_artifact`.
pub record NewArtifact : Type 0 where
  pub relative_path : Identifier
  pub digest : ℕ
  pub size_bytes : ℕ
  pub media_type : Identifier
  pub created_at : ℕ
  pub artifact_id : Option Identifier
  pub experiment_id : Option Identifier
  pub task_id : Option Identifier
  pub round_number : Option ℕ
  pub extra_metadata : Json

-- `artifact_id or uuid4().hex`
abbrev pub artifact_name : Identifier → Option Identifier → Identifier
artifact_name fresh none = fresh
artifact_name fresh (some i) = if i == 0 then fresh else i

unfoldable pub same_artifact : Artifact → NewArtifact → Bool
same_artifact x n =
    x.digest == n.digest
    && x.size_bytes == n.size_bytes
    && x.media_type == n.media_type
    && option_eq x.experiment_id n.experiment_id
    && option_eq x.task_id n.task_id
    && option_eq x.round_number n.round_number
    && x.metadata == n.extra_metadata

unfoldable pub artifact_row : Identifier → NewArtifact → Artifact
artifact_row i n = record {
  artifact_id = i;
  experiment_id = n.experiment_id;
  task_id = n.task_id;
  round_number = n.round_number;
  relative_path = n.relative_path;
  digest = n.digest;
  size_bytes = n.size_bytes;
  media_type = n.media_type;
  metadata = n.extra_metadata;
  created_at = n.created_at;
}

abbrev pub is_free : Option Artifact → Bool
is_free none = true
is_free (some x) = false

-- `register_artifact` after its SELECT; the INSERT meets the primary key and the CHECK.
unfoldable pub replay_or_add :
    Draw → Identifier → NewArtifact → Store → Option Artifact → Result (Identifier × Store)
replay_or_add d i n s (some x) =
    if same_artifact x n then ok (x.artifact_id, s) else err artifact_conflict
replay_or_add d i n s none = do
  require (is_free (select_one (is_artifact i) s.artifacts) && round_check n.round_number)
      integrity_error
  s' ←
      log d
        (entry artifact_registered (artifact_aggregate i) n.experiment_id n.task_id n.round_number
          (artifact_digest n.relative_path n.digest n.size_bytes) n.created_at)
        (record s { artifacts = s.artifacts ++ artifact_row i n ∷ [] })
  ok (i, s')

unfoldable pub register_artifact :
    Draw → Identifier → NewArtifact → Store → Result (Identifier × Store)
register_artifact d fresh n s =
    replay_or_add d (artifact_name fresh n.artifact_id) n s
      (select_one (has_path n.relative_path) s.artifacts)
