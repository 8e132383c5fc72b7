-- ===== src/Controller/Gates.antt =====
-- The gate of the final evaluation.
use kernel_generation_china.Prelude.{◌≡◌, ◌⊎◌, Bool, true, false, not, ◌↔◌, arith, if◌then◌else◌}
use kernel_generation_china.Evaluation.Values.{Fields, Conversions, get_value}
use kernel_generation_china.Controller.Readings.{
  GateStatus, failed_final_infrastructure, failed_hidden_correctness, failed_final_benchmark,
  gate_passed, passed_profile_unverified, passed_stage, infrastructure_retry, get_either,
  has_speedups, is_verified, final_gate_status,
}

-- The branches of the gate over the answers to its questions.
module _ (retry correct measured speedups required verified : Bool) where
  abbrev gate : GateStatus × Bool
  gate =
      if retry
      then (failed_final_infrastructure, correct)
      else if not correct
      then (failed_hidden_correctness, false)
      else if not measured
      then (failed_final_benchmark, true)
      else if not speedups
      then (failed_final_benchmark, true)
      else if not required
      then (gate_passed, true)
      else if not verified
      then (passed_profile_unverified, true)
      else (gate_passed, true)

  gate_correct : gate.1 ≡ correct
  gate_correct = ground arith

  gate_opens :
      gate.0 ≡ gate_passed
      → (retry ≡ false)
        × (correct ≡ true)
        × (measured ≡ true)
        × (speedups ≡ true)
        × ((required ≡ false) ⊎ (verified ≡ true))
  gate_opens h = ground arith

  gate_closed :
      (retry ≡ false)
        × (correct ≡ true)
        × (measured ≡ true)
        × (speedups ≡ true)
        × ((required ≡ false) ⊎ (verified ≡ true))
      → gate.0 ≡ gate_passed
  gate_closed h = ground arith

-- The final gate passes exactly if no stage asks for a retry of the infrastructure, the hidden
-- correctness cases and the benchmark have passed, both speedups are finite and positive, and the
-- profile is verified where that is required; where it is not required, an unverified profile passes.
-- In every case the second component reports whether the hidden correctness cases have passed.
pub final_gate_iff :
    (c : Conversions) (evaluation : Fields) (required : Bool)
    → ((final_gate_status c evaluation required).1
        ≡ passed_stage c (get_value "correctness" evaluation))
      × (((final_gate_status c evaluation required).0 ≡ gate_passed) ↔ (
          (infrastructure_retry c evaluation ≡ false)
          × (passed_stage c (get_value "correctness" evaluation) ≡ true)
          × (passed_stage c (get_value "benchmark" evaluation) ≡ true)
          × (has_speedups c (get_value "benchmark" evaluation) ≡ true)
          × ((required ≡ false)
              ⊎ (is_verified c (get_either c "attribution" "anti_bypass" evaluation) ≡ true))))
unfolding final_gate_status
final_gate_iff c evaluation required =
    let retry = infrastructure_retry c evaluation in
    let correct = passed_stage c (get_value "correctness" evaluation) in
    let measured = passed_stage c (get_value "benchmark" evaluation) in
    let speedups = has_speedups c (get_value "benchmark" evaluation) in
    let verified = is_verified c (get_either c "attribution" "anti_bypass" evaluation) in
    (
      gate_correct retry correct measured speedups required verified,
      (
        gate_opens retry correct measured speedups required verified,
        gate_closed retry correct measured speedups required verified,
      ),
    )
