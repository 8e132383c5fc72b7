-- ===== src/Worker/Documents.antt =====
-- What an attempt reports: the result or the error that it has, and that they have a text.
use Prim.Native.String.{String}
use mathlib.Core.Option
use kernel_generation_china.Prelude.{
  ◌≡◌, refl, subst, inl, inr, Bool, true, false, Option, none, some, Bool-cases, arith,
  if◌then◌else◌,
}
use kernel_generation_china.Evaluation.Values.{
  Value, null, mapping, get as get_field, get_value, Fields, Conversions,
}
use kernel_generation_china.Evaluation.Stages.{status_text}
use kernel_generation_china.Worker.Health.{requires_health_check}
use kernel_generation_china.Worker.Canonical.{
  compatible_fields, is_key, IsCompatible, IsCompatible-get,
}
use kernel_generation_china.Worker.Service.{
  failed_check, error_record, not_executed, quarantine_reason, stage_error, check_raised,
  check_failed, wants_retry, Execution, returned, rejected, raised, HealthCheck, check_passed,
  post_failure_health_error, Attempt, judged, attempt_of,
}

-- An attempt without an error has a result, and so has one that asks for a retry of its stage.
pub record HasResult (a : Attempt) : Type 0 where
  pub clean : a.error ≡ none → (v : Fields) × (a.result ≡ some v)
  pub again : a.retryable_stage_result ≡ true → (v : Fields) × (a.result ≡ some v)

pub attempt-HasResult :
    (c : Conversions) (private : Bool) (health : HealthCheck) (x : Execution)
    → HasResult (attempt_of c private health x)
unfolding attempt_of
attempt-HasResult c private health (rejected message) = record { clean = λ h. cc; again = λ h. cc }
attempt-HasResult c private health (raised name message) = record {
  clean = λ h. cc;
  again = λ h. cc;
}
attempt-HasResult c private health (returned result) =
    judged-HasResult (post_failure_health_error c result health)
  where
    judged-HasResult : (o : Option Fields) → HasResult (judged c result o)
    judged-HasResult none = record { clean = λ h. (result, refl); again = λ h. (result, refl) }
    judged-HasResult (some reason) = record {
      clean = λ h. (result, refl);
      again = λ h. (result, refl);
    }

-- What the attempt reports has a text.
pub record IsReportable (a : Attempt) : Type 0 where
  pub result : (v : Fields) → a.result ≡ some v → IsCompatible v
  pub error : (v : Fields) → a.error ≡ some v → IsCompatible v

error_record-IsCompatible : (name message : String) → IsCompatible (error_record name message)
unfolding compatible_fields is_key
error_record-IsCompatible name message = (error_record name message, refl)

quarantine_reason-IsCompatible : (status : String) → IsCompatible (quarantine_reason status)
unfolding compatible_fields is_key quarantine_reason
quarantine_reason-IsCompatible status = (quarantine_reason status, refl)

failed_check-IsCompatible :
    (health : HealthCheck) (v : Fields) → failed_check health ≡ some v → IsCompatible v
failed_check-IsCompatible check_raised v h =
    subst IsCompatible (Option.some-injective _ _ h) (quarantine_reason-IsCompatible "error")
failed_check-IsCompatible check_passed v h = absurd (cc)
failed_check-IsCompatible (check_failed status) v h =
    subst IsCompatible (Option.some-injective _ _ h) (quarantine_reason-IsCompatible status)

not_executed-IsReportable :
    (name message : String) (again : Bool)
    → IsReportable (not_executed (error_record name message) again)
not_executed-IsReportable name message again = record {
  result = λ v h. absurd (cc);
  error = λ v h.
      subst IsCompatible (Option.some-injective _ _ h) (error_record-IsCompatible name message);
}

stage_error-IsCompatible :
    (status : String) (result : Fields) (o : Option Value)
    → get_field "error" result ≡ o
    → IsCompatible result
    → IsCompatible (stage_error status (Option.get_or o null))
stage_error-IsCompatible status result (some (mapping inner)) h fit =
    IsCompatible-get "error" inner result fit h
stage_error-IsCompatible status result _ h fit =
    error_record-IsCompatible "RetryableStageError" status

post_failure-IsCompatible :
    (c : Conversions) (result : Fields) (health : HealthCheck) (v : Fields)
    → post_failure_health_error c result health ≡ some v
    → IsCompatible v
unfolding post_failure_health_error
post_failure-IsCompatible c result health v h =
    elim (Bool-cases (requires_health_check c (mapping result))) [
      | inl asked ↦ failed_check-IsCompatible health v (rw asked at h)
      | inr _ ↦ failed_check-IsCompatible health v (ground arith)
    ]

judged-IsReportable :
    (c : Conversions) (result : Fields) (o : Option Fields)
    → IsCompatible result
    → ((v : Fields) → o ≡ some v → IsCompatible v)
    → IsReportable (judged c result o)
judged-IsReportable c result (some reason) fit reason_fit = record {
  result = λ v h. subst IsCompatible (Option.some-injective _ _ h) fit;
  error = reason_fit;
}
judged-IsReportable c result none fit reason_fit = record {
  result = λ v h. subst IsCompatible (Option.some-injective _ _ h) fit;
  error = λ v h. retry_error (wants_retry c result) v h;
}
  where
    retry_error :
        (again : Bool) (v : Fields)
        → (if again
            then some
                (stage_error (status_text c (get_field "status" result)) (get_value "error" result))
            else none)
          ≡ some v
        → IsCompatible v
    retry_error true v h =
        subst IsCompatible (Option.some-injective _ _ h)
          (stage_error-IsCompatible _ result (get_field "error" result) refl fit)
    retry_error false v h = absurd (cc)

pub attempt-IsReportable :
    (c : Conversions) (private : Bool) (health : HealthCheck) (x : Execution)
    → ((result : Fields) → x ≡ returned result → IsCompatible result)
    → IsReportable (attempt_of c private health x)
unfolding attempt_of
attempt-IsReportable c true health (rejected message) fit = not_executed-IsReportable _ _ false
attempt-IsReportable c false health (rejected message) fit = not_executed-IsReportable _ _ false
attempt-IsReportable c true health (raised name message) fit = not_executed-IsReportable _ _ true
attempt-IsReportable c false health (raised name message) fit = not_executed-IsReportable _ _ true
attempt-IsReportable c private health (returned result) fit =
    judged-IsReportable c result (post_failure_health_error c result health) (fit result refl)
      (post_failure-IsCompatible c result health)
