-- ===== src/Controller/Samples.antt =====
-- A final evaluation that passes its gate.
use kernel_generation_china.Prelude.{
  ◌≡◌, refl, ◌⊎◌, true, false, ◌↔◌, none, some, Option, List, [], ◌∷◌,
}
use kernel_generation_china.Prelude.Int.{pos}
use kernel_generation_china.Prelude.Result.{ok}
use kernel_generation_china.Domain.Float.{Float, one, two}
use kernel_generation_china.Evaluation.Values.{
  Value, number, string, mapping, Fields, empty, field, Conversions, get, get_value,
}
use kernel_generation_china.Controller.Readings.{
  gate_passed, passed_stage, model_unevaluated, infrastructure_retry, get_either, has_speedups,
  is_verified, final_gate_status,
}
use kernel_generation_china.Controller.Gates.{final_gate_iff}
use kernel_generation_china.Controller.Advance.{
  last_state, advance_states, ends_finished, advance_finishes,
}
use kernel_generation_china.Domain.Enums.{
  RoundState, model_response_committed, compile_finished, correctness_finished, benchmark_finished,
  profile_finished, feedback_committed, round_finished,
}
use kernel_generation_china.Domain.StateMachine.{validate_path, round_state_machine}
use kernel_generation_china.Storage.Events.{take}

abbrev float_of : Value → Option Float
float_of (number x) = some x
float_of _ = none

-- On texts without letters to change.
abbrev conversions : Conversions
conversions = record {
  str = λ v. "";
  to_float = float_of;
  to_int = λ v. ok (pos 1);
  lower = λ s. s;
  upper = λ s. s;
}

abbrev report : Fields
report = field "status" (string "pass") empty

abbrev evaluation : Fields
evaluation = field "correctness" (mapping report) (
    field "benchmark"
      (mapping (field "speedup_geomean" (number two) (field "minimum_speedup" (number one) report)))
      empty)

final_gate_iff_example :
    ((final_gate_status conversions evaluation false).1
      ≡ passed_stage conversions (get_value "correctness" evaluation))
    × (((final_gate_status conversions evaluation false).0 ≡ gate_passed) ↔ (
        (infrastructure_retry conversions evaluation ≡ false)
        × (passed_stage conversions (get_value "correctness" evaluation) ≡ true)
        × (passed_stage conversions (get_value "benchmark" evaluation) ≡ true)
        × (has_speedups conversions (get_value "benchmark" evaluation) ≡ true)
        × ((false ≡ false)
            ⊎ (is_verified conversions
                  (get_either conversions "attribution" "anti_bypass" evaluation)
                ≡ true))))
final_gate_iff_example = final_gate_iff conversions evaluation false

abbrev plan : List RoundState
plan =
    correctness_finished ∷ benchmark_finished ∷ profile_finished ∷ feedback_committed
    ∷ round_finished ∷ []

advances : advance_states compile_finished (last_state conversions evaluation) ≡ ok plan
unfolding advance_states last_state model_unevaluated passed_stage get take
advances = refl

advance_finishes_example :
    (validate_path round_state_machine (compile_finished ∷ plan) ≡ ok tt)
    × (ends_finished compile_finished plan ≡ true)
    × ((first : List RoundState) × (advance_states model_response_committed
            (last_state conversions evaluation)
          ≡ ok first))
advance_finishes_example = advance_finishes conversions evaluation compile_finished plan advances
