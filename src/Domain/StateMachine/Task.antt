-- ===== src/Domain/StateMachine/Task.antt =====
-- The life cycle of a task, and the terminal states of both machines.
use mathlib.Core.List.{Memᴰ}
use kernel_generation_china.Prelude.{
  ◌≡◌, ◌↔◌, ◌⊎◌, inl, inr, refl, subst, Bool-cases, true, false, List, ◌∷◌, arith,
}
use kernel_generation_china.Prelude.Result.{ok}
use kernel_generation_china.Domain.Enums.{
  RoundState, round_created, prompt_committed, model_request_sent, model_response_committed,
  source_validated, benchmark_finished, profile_finished, feedback_committed, round_finished,
  TaskState, task_created, select_best_candidate, hidden_correctness_test, task_finished,
  task_failed,
}
use kernel_generation_china.Domain.StateMachine.{
  can_transition, is_terminal, validate_path, round_state_machine, task_state_machine,
}
use kernel_generation_china.Domain.StateMachine.Path.{
  IsHistory, history_enters, history_passes, after_start, validate_path_iff,
}

final_entry :
    (s : TaskState)
    → can_transition task_state_machine s TaskState.final_benchmark ≡ true
    → s ≡ hidden_correctness_test
unfolding task_state_machine can_transition
final_entry task_created h = ground arith
final_entry _ h = ground arith

hidden_entry :
    (s : TaskState)
    → can_transition task_state_machine s hidden_correctness_test ≡ true
    → s ≡ select_best_candidate
unfolding task_state_machine can_transition
hidden_entry task_created h = ground arith
hidden_entry _ h = ground arith

full_profile_entry :
    (s : TaskState)
    → can_transition task_state_machine s TaskState.final_full_profile ≡ true
    → s ≡ TaskState.final_benchmark
unfolding task_state_machine can_transition
full_profile_entry task_created h = ground arith
full_profile_entry _ h = ground arith

finished_entry :
    (s : TaskState)
    → can_transition task_state_machine s task_finished ≡ true
    → (s ≡ TaskState.final_benchmark) ⊎ (s ≡ TaskState.final_full_profile)
unfolding task_state_machine can_transition
finished_entry task_created h = ground arith
finished_entry _ h = ground arith

-- A task that `validate_path` accepts from its creation on and that finishes has selected a BEST
-- candidate, run its hidden correctness test and its final benchmark.
pub finish_gated :
    (rest : List TaskState)
    → validate_path task_state_machine (task_created ∷ rest) ≡ ok tt
    → Memᴰ task_finished rest
    → Memᴰ select_best_candidate rest
      × Memᴰ hidden_correctness_test rest
      × Memᴰ TaskState.final_benchmark rest
finish_gated rest v done = (selected, tested, measured)
  where
    history : IsHistory task_state_machine (task_created ∷ rest)
    history = (validate_path_iff task_state_machine (task_created ∷ rest)).0 v

    after_profile : Memᴰ TaskState.final_full_profile rest → Memᴰ TaskState.final_benchmark rest
    after_profile i =
        after_start task_state_machine (cc)
          (history_passes _ _ _ full_profile_entry _ rest history i)

    from_gate :
        (g : TaskState)
        → (g ≡ TaskState.final_benchmark) ⊎ (g ≡ TaskState.final_full_profile)
        → Memᴰ g (task_created ∷ rest)
        → Memᴰ TaskState.final_benchmark rest
    from_gate g (inl e) i =
        after_start task_state_machine (cc) (subst (λ x. Memᴰ x (task_created ∷ rest)) e i)
    from_gate g (inr e) i =
        after_profile
          (after_start task_state_machine (cc) (subst (λ x. Memᴰ x (task_created ∷ rest)) e i))

    measured : Memᴰ TaskState.final_benchmark rest
    measured =
        let (g, edge, at) = history_enters task_state_machine task_finished _ rest history done in
        from_gate g (finished_entry g edge) at

    tested : Memᴰ hidden_correctness_test rest
    tested =
        after_start task_state_machine (cc)
          (history_passes _ _ _ final_entry _ rest history measured)

    selected : Memᴰ select_best_candidate rest
    selected =
        after_start task_state_machine (cc)
          (history_passes _ _ _ hidden_entry _ rest history tested)

task_stuck :
    (s : TaskState)
    → is_terminal task_state_machine s ≡ true
    → (t : TaskState) → can_transition task_state_machine s t ≡ false
unfolding task_state_machine can_transition is_terminal
task_stuck task_created h t = ground arith
task_stuck _ h t = ground arith

fails :
    (s : TaskState)
    → is_terminal task_state_machine s ≡ false
    → can_transition task_state_machine s task_failed ≡ true
unfolding task_state_machine can_transition is_terminal
fails task_created h = refl
fails _ h = ground arith

task_left :
    (s : TaskState)
    → ((t : TaskState) → can_transition task_state_machine s t ≡ false)
    → is_terminal task_state_machine s ≡ true
task_left s h = elim (Bool-cases (is_terminal task_state_machine s)) [
  | inl e ↦ e
  | inr e ↦ cc (h task_failed, fails s e)
]

round_stuck :
    (s : RoundState)
    → is_terminal round_state_machine s ≡ true
    → (t : RoundState) → can_transition round_state_machine s t ≡ false
unfolding round_state_machine can_transition is_terminal
round_stuck round_created h t = ground arith
round_stuck _ h t = ground arith

-- The first transition of the table.
abbrev next_of : RoundState → RoundState
next_of round_created = prompt_committed
next_of prompt_committed = model_request_sent
next_of model_request_sent = model_response_committed
next_of model_response_committed = source_validated
next_of benchmark_finished = profile_finished
next_of feedback_committed = round_finished
next_of _ = feedback_committed

round_left :
    (s : RoundState)
    → ((t : RoundState) → can_transition round_state_machine s t ≡ false)
    → is_terminal round_state_machine s ≡ true
unfolding round_state_machine can_transition is_terminal
round_left round_created h = ground (arith, h prompt_committed)
round_left s h = ground (arith, h (next_of s))

-- A task that is not terminal may fail, and `is_terminal` is true of exactly the states of tasks
-- and of rounds that no transition leaves.
pub terminal_iff_stuck :
    ((s : TaskState)
      → (is_terminal task_state_machine s ≡ true)
        ↔ ((t : TaskState) → can_transition task_state_machine s t ≡ false))
    × ((s : RoundState)
        → (is_terminal round_state_machine s ≡ true)
          ↔ ((t : RoundState) → can_transition round_state_machine s t ≡ false))
    × ((s : TaskState)
        → is_terminal task_state_machine s ≡ false
        → can_transition task_state_machine s task_failed ≡ true)
terminal_iff_stuck = (λ s. (task_stuck s, task_left s), λ s. (round_stuck s, round_left s), fails)
