-- ===== src/Controller/Advance.antt =====
-- `_advance_round_evaluation` of orchestration/controller.py: the transitions of a round, from the
-- state that it has been left in, once its evaluation is stored.
use kernel_generation_china.Prelude.{
  ℕ, suc, ◌-◌, ◌≡◌, refl, subst, Bool, true, false, not, Option, none, some, List, [], ◌∷◌, ◌++◌,
  ltb, arith, if◌then◌else◌,
}
use kernel_generation_china.Prelude.Result.{
  Result, ok, err, value_error, runtime_error, require, or_raise, ◌>>=◌, ◌>>◌,
}
use kernel_generation_china.Domain.Enums.{
  RoundState, round_created, prompt_committed, model_request_sent, model_response_committed,
  source_validated, compile_finished, correctness_finished, benchmark_finished, profile_finished,
  feedback_committed, round_finished, RoundState-discrete,
}
use kernel_generation_china.Domain.StateMachine.{
  contains, allowed_transitions, can_transition, transition, validate_from, validate_path,
  round_transitions, round_state_machine,
}
use kernel_generation_china.Storage.Events.{take}
use kernel_generation_china.Evaluation.Values.{Fields, Conversions, get_value}
use kernel_generation_china.Controller.Readings.{failed_mapping, model_unevaluated}

-- `last`: the state of the first stage that is reported and has not passed.
unfoldable pub last_state : Conversions → Fields → RoundState
last_state c evaluation =
    if model_unevaluated c evaluation
    then source_validated
    else if failed_mapping c (get_value "source" evaluation)
    then source_validated
    else if failed_mapping c (get_value "compile" evaluation)
    then compile_finished
    else if failed_mapping c (get_value "correctness" evaluation)
    then correctness_finished
    else if failed_mapping c (get_value "benchmark" evaluation)
    then benchmark_finished
    else profile_finished

abbrev pub ordered : List RoundState
ordered =
    source_validated ∷ compile_finished ∷ correctness_finished ∷ benchmark_finished
    ∷ profile_finished ∷ []

-- One more than `ordered.index(state)`, which raises ValueError for another state.
abbrev pub place : RoundState → Option ℕ
place source_validated = some 1
place compile_finished = some 2
place correctness_finished = some 3
place benchmark_finished = some 4
place profile_finished = some 5
place _ = none

-- One more than `current_index`.
abbrev pub reached : RoundState → Option ℕ
reached model_response_committed = some 0
reached state = place state

abbrev pub drop_states : ℕ → List RoundState → List RoundState
drop_states ℕ.zero states = states
drop_states (suc n) [] = []
drop_states (suc n) (x ∷ xs) = drop_states n xs

abbrev pub skipped_profile : RoundState → List RoundState
skipped_profile benchmark_finished = profile_finished ∷ []
skipped_profile _ = []

unfoldable pub open_states : RoundState → RoundState → Result (List RoundState)
open_states state last = do
  current ← or_raise (reached state) value_error
  target ← or_raise (place last) value_error
  require (not (ltb target current)) runtime_error
  ok (
      take (target - current) (drop_states current ordered)
      ++ skipped_profile last
      ++ feedback_committed ∷ round_finished ∷ [])

-- The states that the round is moved to, one transition of the state store after the other.
unfoldable pub advance_states : RoundState → RoundState → Result (List RoundState)
unfolding open_states
advance_states feedback_committed last = ok (round_finished ∷ [])
advance_states round_finished last = ok []
advance_states state last = open_states state last

abbrev pub ends_finished : RoundState → List RoundState → Bool
ends_finished round_finished [] = true
ends_finished _ [] = false
ends_finished state (x ∷ xs) = ends_finished x xs

-- The round is moved along edges of its machine, to the end.
abbrev pub IsRun : RoundState → List RoundState → Type 0
IsRun state plan =
    (validate_path round_state_machine (state ∷ plan) ≡ ok tt) × (ends_finished state plan ≡ true)

abbrev Accepted : RoundState → Result (List RoundState) → Type 0
Accepted state (err e) = Unit
Accepted state (ok plan) = IsRun state plan

from_source : (state : RoundState) → Accepted state (advance_states state source_validated)
unfolding advance_states validate_path validate_from transition can_transition contains
    allowed_transitions round_transitions round_state_machine RoundState-discrete take
from_source round_created = tt
from_source prompt_committed = tt
from_source model_request_sent = tt
from_source model_response_committed = (refl, refl)
from_source source_validated = (refl, refl)
from_source compile_finished = tt
from_source correctness_finished = tt
from_source benchmark_finished = tt
from_source profile_finished = tt
from_source feedback_committed = (refl, refl)
from_source round_finished = (refl, refl)

from_compile : (state : RoundState) → Accepted state (advance_states state compile_finished)
unfolding advance_states validate_path validate_from transition can_transition contains
    allowed_transitions round_transitions round_state_machine RoundState-discrete take
from_compile round_created = tt
from_compile prompt_committed = tt
from_compile model_request_sent = tt
from_compile model_response_committed = (refl, refl)
from_compile source_validated = (refl, refl)
from_compile compile_finished = (refl, refl)
from_compile correctness_finished = tt
from_compile benchmark_finished = tt
from_compile profile_finished = tt
from_compile feedback_committed = (refl, refl)
from_compile round_finished = (refl, refl)

from_correctness : (state : RoundState) → Accepted state (advance_states state correctness_finished)
unfolding advance_states validate_path validate_from transition can_transition contains
    allowed_transitions round_transitions round_state_machine RoundState-discrete take
from_correctness round_created = tt
from_correctness prompt_committed = tt
from_correctness model_request_sent = tt
from_correctness model_response_committed = (refl, refl)
from_correctness source_validated = (refl, refl)
from_correctness compile_finished = (refl, refl)
from_correctness correctness_finished = (refl, refl)
from_correctness benchmark_finished = tt
from_correctness profile_finished = tt
from_correctness feedback_committed = (refl, refl)
from_correctness round_finished = (refl, refl)

from_benchmark : (state : RoundState) → Accepted state (advance_states state benchmark_finished)
unfolding advance_states validate_path validate_from transition can_transition contains
    allowed_transitions round_transitions round_state_machine RoundState-discrete take
from_benchmark round_created = tt
from_benchmark prompt_committed = tt
from_benchmark model_request_sent = tt
from_benchmark model_response_committed = (refl, refl)
from_benchmark source_validated = (refl, refl)
from_benchmark compile_finished = (refl, refl)
from_benchmark correctness_finished = (refl, refl)
from_benchmark benchmark_finished = (refl, refl)
from_benchmark profile_finished = tt
from_benchmark feedback_committed = (refl, refl)
from_benchmark round_finished = (refl, refl)

from_profile : (state : RoundState) → Accepted state (advance_states state profile_finished)
unfolding advance_states validate_path validate_from transition can_transition contains
    allowed_transitions round_transitions round_state_machine RoundState-discrete take
from_profile round_created = tt
from_profile prompt_committed = tt
from_profile model_request_sent = tt
from_profile model_response_committed = (refl, refl)
from_profile source_validated = (refl, refl)
from_profile compile_finished = (refl, refl)
from_profile correctness_finished = (refl, refl)
from_profile benchmark_finished = (refl, refl)
from_profile profile_finished = (refl, refl)
from_profile feedback_committed = (refl, refl)
from_profile round_finished = (refl, refl)

-- The outcome of an evaluation is one of the five states.
module _ (P : RoundState → Type 0) (at_source : P source_validated)
    (at_compile : P compile_finished) (at_correctness : P correctness_finished)
    (at_benchmark : P benchmark_finished) (at_profile : P profile_finished) where
  by_questions :
      (a b c d e : Bool)
      → P (
          if a
          then source_validated
          else if b
          then source_validated
          else if c
          then compile_finished
          else if d
          then correctness_finished
          else if e
          then benchmark_finished
          else profile_finished)
  by_questions true b c d e = at_source
  by_questions false true c d e = at_source
  by_questions false false true d e = at_compile
  by_questions false false false true e = at_correctness
  by_questions false false false false true = at_benchmark
  by_questions false false false false false = at_profile

  by_outcome : (c : Conversions) (evaluation : Fields) → P (last_state c evaluation)
  unfolding last_state
  by_outcome c evaluation =
      by_questions (model_unevaluated c evaluation)
        (failed_mapping c (get_value "source" evaluation))
        (failed_mapping c (get_value "compile" evaluation))
        (failed_mapping c (get_value "correctness" evaluation))
        (failed_mapping c (get_value "benchmark" evaluation))

Accepted-ok :
    (state : RoundState) (r : Result (List RoundState)) (plan : List RoundState)
    → Accepted state r
    → r ≡ ok plan
    → IsRun state plan
Accepted-ok state (err e) plan a h = cc
Accepted-ok state (ok p) plan a h = let same : p ≡ plan = ground arith in subst (IsRun state) same a

abbrev Advances : RoundState → Type 0
Advances last = (plan : List RoundState) × (advance_states model_response_committed last ≡ ok plan)

-- Where the advance of a round is not refused, whatever state the round was left in, its moves are
-- edges of the machine of rounds, one after the other, and lead to the finished state. It is not
-- refused for a round in which the response of the model has just been committed.
pub advance_finishes :
    (c : Conversions) (evaluation : Fields) (state : RoundState) (plan : List RoundState)
    → advance_states state (last_state c evaluation) ≡ ok plan
    → (validate_path round_state_machine (state ∷ plan) ≡ ok tt)
      × (ends_finished state plan ≡ true)
      × ((first : List RoundState) × (advance_states model_response_committed
              (last_state c evaluation)
            ≡ ok first))
unfolding advance_states take
advance_finishes c evaluation state plan h =
    let (accepted, ends) =
      Accepted-ok state (advance_states state (last_state c evaluation)) plan
        (by_outcome (λ last. Accepted state (advance_states state last)) (from_source state)
          (from_compile state) (from_correctness state) (from_benchmark state) (from_profile state)
          c evaluation)
        h in
    (
      accepted,
      ends,
      by_outcome Advances (_, refl) (_, refl) (_, refl) (_, refl) (_, refl) c evaluation,
    )

-- After a benchmark that has not passed, the advance moves the round from benchmark_finished to
-- profile_finished; if it is interrupted there, the next one refuses to go on.
interrupted_benchmark :
    (advance_states benchmark_finished benchmark_finished
      ≡ ok (profile_finished ∷ feedback_committed ∷ round_finished ∷ []))
    × (advance_states profile_finished benchmark_finished ≡ err runtime_error)
unfolding advance_states take
interrupted_benchmark = (refl, refl)
