-- ===== src/Domain/StateMachine/Round.antt =====
-- The life cycle of a round: which checkpoints a history has passed.
use mathlib.Core.List.{append_assoc, get_last?}
use kernel_generation_china.Prelude.{
  ℕ, ◌+◌, ◌≤◌, ◌<◌, ◌≡◌, refl, ap, ◌∙◌, ◌++◌, true, List, [], ◌∷◌, some, arith, length,
}
use kernel_generation_china.Prelude.Result.{ok}
use kernel_generation_china.Domain.Enums.{
  RoundState, round_created, prompt_committed, model_request_sent, model_response_committed,
  source_validated, compile_finished, correctness_finished, benchmark_finished, profile_finished,
  feedback_committed, round_finished,
}
use kernel_generation_china.Domain.StateMachine.{can_transition, validate_path, round_state_machine}
use kernel_generation_china.Domain.StateMachine.Path.{
  IsHistory, start, step, entered_from, validate_path_iff,
}

-- The place of a checkpoint in the longest history.
abbrev pub position : RoundState → ℕ
position round_created = 0
position prompt_committed = 1
position model_request_sent = 2
position model_response_committed = 3
position source_validated = 4
position compile_finished = 5
position correctness_finished = 6
position benchmark_finished = 7
position profile_finished = 8
position feedback_committed = 9
position round_finished = 10

position_bound : (s : RoundState) → position s + 0 ≤ 10
position_bound round_created = omega arith
position_bound _ = omega arith

transition_forward :
    (s t : RoundState) → can_transition round_state_machine s t ≡ true → position s < position t
unfolding round_state_machine can_transition
transition_forward round_created t h = ground arith
transition_forward _ t h = ground arith

source_entry :
    (s : RoundState)
    → can_transition round_state_machine s source_validated ≡ true
    → s ≡ model_response_committed
unfolding round_state_machine can_transition
source_entry round_created h = ground arith
source_entry _ h = ground arith

compile_entry :
    (s : RoundState)
    → can_transition round_state_machine s compile_finished ≡ true
    → s ≡ source_validated
unfolding round_state_machine can_transition
compile_entry round_created h = ground arith
compile_entry _ h = ground arith

correctness_entry :
    (s : RoundState)
    → can_transition round_state_machine s correctness_finished ≡ true
    → s ≡ compile_finished
unfolding round_state_machine can_transition
correctness_entry round_created h = ground arith
correctness_entry _ h = ground arith

benchmark_entry :
    (s : RoundState)
    → can_transition round_state_machine s benchmark_finished ≡ true
    → s ≡ correctness_finished
unfolding round_state_machine can_transition
benchmark_entry round_created h = ground arith
benchmark_entry _ h = ground arith

finish_entry :
    (s : RoundState)
    → can_transition round_state_machine s round_finished ≡ true
    → s ≡ feedback_committed
unfolding round_state_machine can_transition
finish_entry round_created h = ground arith
finish_entry _ h = ground arith

-- A round that `validate_path` accepts from its creation on and that has been benchmarked was
-- checked before that: the three checkpoints just before BENCHMARK_FINISHED are, in this order, that
-- its source was validated, that it was compiled and that its public correctness was run.
pub benchmark_gated :
    (before after : List RoundState)
    → validate_path round_state_machine (round_created ∷ before ++ benchmark_finished ∷ after)
      ≡ ok tt
    → (b : List RoundState) × (before
        ≡ b ++ source_validated ∷ compile_finished ∷ correctness_finished ∷ [])
benchmark_gated before after v =
    let history : IsHistory round_state_machine
        (round_created ∷ before ++ benchmark_finished ∷ after) =
      (validate_path_iff round_state_machine _).0 v in
    let (b1, is1, h1) =
      entered_from round_state_machine correctness_finished benchmark_finished benchmark_entry
        round_created before after (cc) history in
    let (b2, is2, h2) =
      entered_from round_state_machine compile_finished correctness_finished correctness_entry
        round_created b1 _ (cc) h1 in
    let (b3, is3, _) =
      entered_from round_state_machine source_validated compile_finished compile_entry round_created
        b2 _ (cc) h2 in
    (
      b3,
      is1
          ∙ ap (λ z. z ++ correctness_finished ∷ [])
              (is2
                ∙ ap (λ z. z ++ compile_finished ∷ []) is3
                ∙ append_assoc b3 (source_validated ∷ []) (compile_finished ∷ []))
          ∙ append_assoc b3 (source_validated ∷ compile_finished ∷ []) (correctness_finished ∷ []),
    )

history_bound :
    (s : RoundState) (rest : List RoundState)
    → IsHistory round_state_machine (s ∷ rest)
    → position s + length rest ≤ 10
history_bound s rest (start _) = position_bound s
history_bound s rest (step _ t rest' e h) =
    omega (arith, transition_forward s t e, history_bound t rest' h)

-- A shortest way to the end.
abbrev pub to_end : RoundState → List RoundState
to_end round_created =
    prompt_committed ∷ model_request_sent ∷ model_response_committed ∷ source_validated
    ∷ feedback_committed ∷ round_finished ∷ []
to_end prompt_committed =
    model_request_sent ∷ model_response_committed ∷ source_validated ∷ feedback_committed
    ∷ round_finished ∷ []
to_end model_request_sent =
    model_response_committed ∷ source_validated ∷ feedback_committed ∷ round_finished ∷ []
to_end model_response_committed = source_validated ∷ feedback_committed ∷ round_finished ∷ []
to_end source_validated = feedback_committed ∷ round_finished ∷ []
to_end compile_finished = feedback_committed ∷ round_finished ∷ []
to_end correctness_finished = feedback_committed ∷ round_finished ∷ []
to_end benchmark_finished = profile_finished ∷ feedback_committed ∷ round_finished ∷ []
to_end profile_finished = feedback_committed ∷ round_finished ∷ []
to_end feedback_committed = round_finished ∷ []
to_end round_finished = []

to_end_valid : (s : RoundState) → validate_path round_state_machine (s ∷ to_end s) ≡ ok tt
unfolding validate_path round_state_machine
to_end_valid round_created = refl
to_end_valid _ = refl

to_end_finishes : (s : RoundState) → get_last? (s ∷ to_end s) ≡ some round_finished
to_end_finishes round_created = refl
to_end_finishes _ = refl

-- An accepted history of a round makes at most ten transitions; and from every checkpoint there
-- is an accepted history that ends in ROUND_FINISHED.
pub round_terminates :
    (s : RoundState)
    → ((rest : List RoundState)
        → validate_path round_state_machine (s ∷ rest) ≡ ok tt
        → length rest ≤ 10)
      × ((rest : List RoundState) × (validate_path round_state_machine (s ∷ rest) ≡ ok tt)
          × (get_last? (s ∷ rest) ≡ some round_finished))
round_terminates s = (
  λ rest v.
      omega (arith, history_bound s rest ((validate_path_iff round_state_machine (s ∷ rest)).0 v)),
  (to_end s, to_end_valid s, to_end_finishes s),
)
