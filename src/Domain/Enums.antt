-- ===== src/Domain/Enums.antt =====
-- src/ascend_kernel_lab/domain/enums.py, with the tests by which the code compares its members.
use kernel_generation_china.Prelude.{Bool, true, false}

pub data RoundState : Type 0 where
  round_created prompt_committed model_request_sent model_response_committed : RoundState
  source_validated compile_finished correctness_finished benchmark_finished : RoundState
  profile_finished feedback_committed round_finished : RoundState

pub data TaskState : Type 0 where
  task_created rounds_running select_best_candidate hidden_correctness_test : TaskState
  final_benchmark final_full_profile task_finished task_failed : TaskState

pub data ExperimentState : Type 0 where
  created running finished failed cancelled : ExperimentState

pub data JobStatus : Type 0 where
  queued retry_wait leased succeeded dead cancelled : JobStatus

pub data EvaluationStage : Type 0 where
  source_check compile correctness benchmark profile : EvaluationStage
  final_hidden_correctness final_benchmark final_full_profile full_evaluation : EvaluationStage

unfoldable pub RoundState-discrete : Discrete RoundState
RoundState-discrete = hlevel

unfoldable pub TaskState-discrete : Discrete TaskState
TaskState-discrete = hlevel

unfoldable pub ExperimentState-discrete : Discrete ExperimentState
ExperimentState-discrete = hlevel

unfoldable pub JobStatus-discrete : Discrete JobStatus
JobStatus-discrete = hlevel

unfoldable pub EvaluationStage-discrete : Discrete EvaluationStage
EvaluationStage-discrete = hlevel

abbrev pub is_queued : JobStatus → Bool
is_queued queued = true
is_queued _ = false

abbrev pub is_retry_wait : JobStatus → Bool
is_retry_wait retry_wait = true
is_retry_wait _ = false

abbrev pub is_leased : JobStatus → Bool
is_leased leased = true
is_leased _ = false

abbrev pub is_round_finished : RoundState → Bool
is_round_finished round_finished = true
is_round_finished _ = false

abbrev pub is_rounds_running : TaskState → Bool
is_rounds_running rounds_running = true
is_rounds_running _ = false
