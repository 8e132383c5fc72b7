-- ===== src/Domain/StateMachine.antt =====
-- src/ascend_kernel_lab/domain/state_machine.py: the strict life-cycle validation. A machine is
-- its table of transitions and its terminal states; an enumeration member compares by identity.
pub mod Path
pub mod Round
pub mod Task
mod Samples
use kernel_generation_china.Prelude.{◌≡◌, Bool, true, false, ite, List, [], ◌∷◌, if◌then◌else◌}
use kernel_generation_china.Prelude.Result.{Result, ok, err, invalid_transition, ◌>>=◌, ◌>>◌}
use kernel_generation_china.Domain.Enums.{
  RoundState, round_created, prompt_committed, model_request_sent, model_response_committed,
  source_validated, compile_finished, correctness_finished, benchmark_finished, profile_finished,
  feedback_committed, round_finished, TaskState, task_created, rounds_running,
  select_best_candidate, hidden_correctness_test, task_finished, task_failed, ExperimentState,
  RoundState-discrete, TaskState-discrete, ExperimentState-discrete,
}

pub record StrictStateMachine (S : Type 0) : Type 0 where
  pub same : Discrete S
  pub transitions : S → List S
  pub terminal_states : List S

module _ {S : Type 0} where
  -- `state in frozenset`
  unfoldable pub contains : Discrete S → List S → S → Bool
  contains same [] s = false
  contains same (x ∷ xs) s = ite (same s x) true (contains same xs s)

  unfoldable pub allowed_transitions : StrictStateMachine S → S → List S
  allowed_transitions m current = m.transitions current

  unfoldable pub is_terminal : StrictStateMachine S → S → Bool
  unfolding contains
  is_terminal m state = contains m.same m.terminal_states state

  unfoldable pub can_transition : StrictStateMachine S → S → S → Bool
  unfolding contains allowed_transitions
  can_transition m current target = contains m.same (allowed_transitions m current) target

  unfoldable pub transition : StrictStateMachine S → S → S → Result S
  unfolding can_transition
  transition m current target =
      if can_transition m current target then ok target else err invalid_transition

  -- The loop of `validate_path`, after `previous` has been taken from the iterator.
  unfoldable pub validate_from : StrictStateMachine S → S → List S → Result (Unit {0})
  unfolding transition
  validate_from m previous [] = ok tt
  validate_from m previous (current ∷ rest) = do
    transition m previous current
    validate_from m current rest

  unfoldable pub validate_path : StrictStateMachine S → List S → Result (Unit {0})
  unfolding validate_from
  validate_path m [] = ok tt
  validate_path m (previous ∷ rest) = validate_from m previous rest

unfoldable pub round_transitions : RoundState → List RoundState
round_transitions round_created = prompt_committed ∷ []
round_transitions prompt_committed = model_request_sent ∷ []
round_transitions model_request_sent = model_response_committed ∷ []
round_transitions model_response_committed = source_validated ∷ []
round_transitions source_validated = compile_finished ∷ feedback_committed ∷ []
round_transitions compile_finished = correctness_finished ∷ feedback_committed ∷ []
round_transitions correctness_finished = benchmark_finished ∷ feedback_committed ∷ []
round_transitions benchmark_finished = profile_finished ∷ []
round_transitions profile_finished = feedback_committed ∷ []
round_transitions feedback_committed = round_finished ∷ []
round_transitions round_finished = []

unfoldable pub task_transitions : TaskState → List TaskState
task_transitions task_created = rounds_running ∷ task_failed ∷ []
task_transitions rounds_running = select_best_candidate ∷ task_failed ∷ []
task_transitions select_best_candidate = hidden_correctness_test ∷ task_failed ∷ []
task_transitions hidden_correctness_test = TaskState.final_benchmark ∷ task_failed ∷ []
task_transitions TaskState.final_benchmark =
    TaskState.final_full_profile ∷ task_finished ∷ task_failed ∷ []
task_transitions TaskState.final_full_profile = task_finished ∷ task_failed ∷ []
task_transitions task_finished = []
task_transitions task_failed = []

unfoldable pub round_state_machine : StrictStateMachine RoundState
unfolding round_transitions RoundState-discrete
round_state_machine = record {
  same = RoundState-discrete;
  transitions = round_transitions;
  terminal_states = round_finished ∷ [];
}

unfoldable pub task_state_machine : StrictStateMachine TaskState
unfolding task_transitions TaskState-discrete
task_state_machine = record {
  same = TaskState-discrete;
  transitions = task_transitions;
  terminal_states = task_finished ∷ task_failed ∷ [];
}
