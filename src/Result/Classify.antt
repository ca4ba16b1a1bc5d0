-- ===== src/Result/Classify.antt =====
-- What the runtime reports for an exception, and that it always reports something.
use perago.Base.{
  ℕ, ◌≤◌, ◌<◌, zero, suc, Option, none, some, Text, length, take, ◌≡◌, ◌⊎◌, inl, inr, arith, refl,
  [], ◌∷◌, ap, ◌↔◌,
}
use perago.Errors.{
  Exception, task_terminal_error, task_failed, pre_guardrail_violation, type_error, message, ok,
  raised, >>=-eq-ok,
}
use perago.Value.{Value, str}
use perago.Value.Snapshot.{snapshot_failure_output}
use perago.Value.Snapshot.Accepts.{Acceptable, snapshot_cases}
use perago.Result.{
  RuntimeTaskResult, TaskResultStatus, validate_payload_shape, result_for_exception, failure_reason,
  failed_result, terminal_failed_result, check_failure_output, check_shape, task_execution_error,
}

-- The metadata that an exception carries; the constructor of `TaskExecutionError` has checked it.
abbrev pub output_data : Exception → Option Value
output_data (task_terminal_error reason output) = output
output_data (task_failed reason output) = output
output_data _ = none

abbrev pub Carries : ℕ → Option Value → Type 0
Carries depth none = Unit
Carries depth (some v) = Acceptable depth v

abbrev pub status_for : Exception → TaskResultStatus
status_for (task_terminal_error reason output) = TaskResultStatus.failed_with_terminal_error
status_for (pre_guardrail_violation m) = TaskResultStatus.failed_with_terminal_error
status_for _ = TaskResultStatus.failed

checked : (depth : ℕ) (o : Option Value) → Carries depth o → check_failure_output depth o ≡ ok tt
checked depth none c = refl
checked depth (some v) c = elim (snapshot_cases depth v) [
  | inl (copied, _) ↦ rw copied
  | inr (_, refused) ↦ absurd (refused c)
]

take_all : (t : Text) (n : ℕ) → length t ≤ n → take n t ≡ t
take_all [] zero h = refl
take_all [] (suc n) h = refl
take_all (x ∷ t) zero h = absurd (omega arith)
take_all (x ∷ t) (suc n) h = ap (λ (r : Text). x ∷ r) (take_all t n (omega arith))

abbrev pub Shape : ℕ → TaskResultStatus → Option Value → Option Text → Type 0
Shape depth TaskResultStatus.completed (some v) none = Unit
Shape depth TaskResultStatus.completed _ _ = ⊥
Shape depth status output (some reason) = Carries depth output
Shape depth status output none = ⊥

abbrev pub report : TaskResultStatus → Option Value → Text → ℕ → RuntimeTaskResult
report status output reason max_length = record {
  status = status;
  output = output;
  reason_for_incompletion = some (take max_length reason);
}

failure_reason-take : (t : Text) (n : ℕ) → 0 < n → failure_reason t n ≡ ok (take n t)
unfolding failure_reason
failure_reason-take t n h = ground (arith, take_all t n)

failed_result_total :
    (depth : ℕ) (t : Text) (n : ℕ) (o : Option Value)
    → 0 < n
    → Carries depth o
    → failed_result depth t n o ≡ ok (report TaskResultStatus.failed o t n)
unfolding failed_result
failed_result_total depth t n o h c = rw (failure_reason-take t n h, checked depth o c)

terminal_failed_result_total :
    (depth : ℕ) (t : Text) (n : ℕ) (o : Option Value)
    → 0 < n
    → Carries depth o
    → terminal_failed_result depth t n o
      ≡ ok (report TaskResultStatus.failed_with_terminal_error o t n)
unfolding terminal_failed_result
terminal_failed_result_total depth t n o h c = rw (failure_reason-take t n h, checked depth o c)

-- With a positive length limit, every exception whose metadata was accepted when it was built
-- gives a result: terminal exactly for `TaskTerminalError` and pre-guardrail violations, with the
-- metadata unchanged, and with the first `max_length` characters of the reason.
pub result_for_exception_total :
    (depth : ℕ) (e : Exception) (max_length : ℕ)
    → 0 < max_length
    → Carries depth (output_data e)
    → result_for_exception depth e max_length
      ≡ ok (report (status_for e) (output_data e) (message e) max_length)
unfolding result_for_exception
result_for_exception_total depth (task_terminal_error reason output) n pos c =
    terminal_failed_result_total depth reason n output pos c
result_for_exception_total depth (pre_guardrail_violation m) n pos c =
    terminal_failed_result_total depth m n none pos c
result_for_exception_total depth (task_failed reason output) n pos c =
    failed_result_total depth reason n output pos c
result_for_exception_total depth e n pos c = failed_result_total depth (message e) n none pos c

-- An exception that the constructor of `TaskFailed` or `TaskTerminalError` builds carries metadata
-- that the result accepts, so raising it is always reported; metadata that is refused is a
-- `TypeError` where the exception is built.
pub task_execution_error_cases :
    (depth : ℕ) (reason : Text) (output : Option Value)
    → ((task_execution_error task_failed depth (str reason) output ≡ ok (task_failed reason output))
        × Carries depth output)
      ⊎ ((m : Text) × (task_execution_error task_failed depth (str reason) output
            ≡ raised (type_error m)))
unfolding task_execution_error snapshot_failure_output
task_execution_error_cases depth reason none = inl (refl, tt)
task_execution_error_cases depth reason (some v) = elim (snapshot_cases depth v) [
  | inl (copied, c) ↦ inl (rw copied, c)
  | inr ((m, refused), _) ↦ inr (m, rw refused)
]

Carries-check_failure_output :
    (depth : ℕ) (o : Option Value) → check_failure_output depth o ≡ ok tt → Carries depth o
Carries-check_failure_output depth none h = tt
Carries-check_failure_output depth (some v) h = elim (snapshot_cases depth v) [
  | inl (_, c) ↦ c
  | inr ((m, refused), _) ↦ cc (rw refused at h)
]

check_shape_iff :
    (depth : ℕ) (status : TaskResultStatus) (output : Option Value) (reason : Option Text)
    → (check_shape depth status output reason ≡ ok tt) ↔ Shape depth status output reason
check_shape_iff depth TaskResultStatus.completed none reason = (λ h. cc, λ h. absurd h)
check_shape_iff depth TaskResultStatus.completed (some v) (some t) = (λ h. cc, λ h. absurd h)
check_shape_iff depth TaskResultStatus.completed (some v) none = (λ h. tt, λ h. refl)
check_shape_iff depth TaskResultStatus.failed output none = (λ h. cc, λ h. absurd h)
check_shape_iff depth TaskResultStatus.failed output (some t) =
    (Carries-check_failure_output depth output, checked depth output)
check_shape_iff depth TaskResultStatus.failed_with_terminal_error output none =
    (λ h. cc, λ h. absurd h)
check_shape_iff depth TaskResultStatus.failed_with_terminal_error output (some t) =
    (Carries-check_failure_output depth output, checked depth output)

-- A result passes its validator exactly when it has the shape of its status: a completed one has
-- output and no reason, a failed one has a reason, and output only if that is acceptable metadata.
pub validate_payload_shape_iff :
    (depth : ℕ) (r : RuntimeTaskResult)
    → (validate_payload_shape depth r ≡ ok r)
      ↔ Shape depth r.status r.output r.reason_for_incompletion
unfolding validate_payload_shape
validate_payload_shape_iff depth r =
    let shape = check_shape_iff depth r.status r.output r.reason_for_incompletion in
    (
      λ h.
          shape.0
            ((>>=-eq-ok (check_shape depth r.status r.output r.reason_for_incompletion) _ h).1),
      λ h. rw (shape.1 h),
    )
