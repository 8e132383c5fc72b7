-- ===== src/Domain/StateMachine/Samples.antt =====
-- The history of a round that is benchmarked, and that of a task that finishes.
use kernel_generation_china.Prelude.{◌≤◌, ◌≡◌, ◌↔◌, refl, some, List, [], ◌∷◌, ◌++◌, length}
use mathlib.Core.List.{Memᴰ, get_last?}
use kernel_generation_china.Prelude.Result.{ok, err, invalid_transition}
use kernel_generation_china.Domain.Enums.{
  RoundState, round_created, prompt_committed, model_request_sent, model_response_committed,
  source_validated, compile_finished, correctness_finished, benchmark_finished, round_finished,
  RoundState-discrete, TaskState, task_created, rounds_running, select_best_candidate,
  hidden_correctness_test, task_finished, TaskState-discrete,
}
use kernel_generation_china.Domain.StateMachine.{
  contains, allowed_transitions, can_transition, transition, validate_from, validate_path,
  round_transitions, task_transitions, round_state_machine, task_state_machine,
}
use kernel_generation_china.Domain.StateMachine.Path.{IsHistory, validate_path_iff}
use kernel_generation_china.Domain.StateMachine.Round.{benchmark_gated, round_terminates}
use kernel_generation_china.Domain.StateMachine.Task.{finish_gated}

abbrev tested : List RoundState
tested =
    prompt_committed ∷ model_request_sent ∷ model_response_committed ∷ source_validated
    ∷ compile_finished ∷ correctness_finished ∷ []

abbrev checked : List RoundState
checked = tested ++ benchmark_finished ∷ []

checked_valid : validate_path round_state_machine (round_created ∷ checked) ≡ ok tt
unfolding validate_path validate_from transition can_transition contains allowed_transitions
    round_transitions round_state_machine RoundState-discrete
checked_valid = refl

skips_refused :
    validate_path round_state_machine (compile_finished ∷ benchmark_finished ∷ [])
    ≡ err invalid_transition
unfolding validate_path validate_from transition can_transition contains allowed_transitions
    round_transitions round_state_machine RoundState-discrete
skips_refused = refl

validate_path_iff_example :
    (validate_path round_state_machine (round_created ∷ checked) ≡ ok tt)
    ↔ IsHistory round_state_machine (round_created ∷ checked)
validate_path_iff_example = validate_path_iff round_state_machine (round_created ∷ checked)

benchmark_gated_example :
    (b : List RoundState) × (tested
      ≡ b ++ source_validated ∷ compile_finished ∷ correctness_finished ∷ [])
benchmark_gated_example = benchmark_gated tested [] checked_valid

round_terminates_example :
    ((rest : List RoundState)
      → validate_path round_state_machine (compile_finished ∷ rest) ≡ ok tt
      → length rest ≤ 10)
    × ((rest : List RoundState) × (validate_path round_state_machine (compile_finished ∷ rest)
          ≡ ok tt)
        × (get_last? (compile_finished ∷ rest) ≡ some round_finished))
round_terminates_example = round_terminates compile_finished

abbrev finishing : List TaskState
finishing =
    rounds_running ∷ select_best_candidate ∷ hidden_correctness_test ∷ TaskState.final_benchmark
    ∷ task_finished ∷ []

finishing_valid : validate_path task_state_machine (task_created ∷ finishing) ≡ ok tt
unfolding validate_path validate_from transition can_transition contains allowed_transitions
    task_transitions task_state_machine TaskState-discrete
finishing_valid = refl

finish_gated_example :
    Memᴰ select_best_candidate finishing
    × Memᴰ hidden_correctness_test finishing
    × Memᴰ TaskState.final_benchmark finishing
finish_gated_example =
    finish_gated finishing finishing_valid
      (Memᴰ.tail (Memᴰ.tail (Memᴰ.tail (Memᴰ.tail (Memᴰ.head refl)))))
