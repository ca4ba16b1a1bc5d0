-- ===== src/Result.antt =====
-- `perago/result.py`: the result of an attempt, its validation, and how an exception becomes one.
-- `depth` is the interpreter's recursion limit, which the check of failure metadata meets.
pub mod Classify
use perago.Base.{
  ℕ, Option, none, some, Text, text, length, take, leb, ltb, if◌then◌else◌, ◌++◌, List, [], ◌∷◌,
}
use perago.Errors.{
  Exception, task_terminal_error, task_failed, pre_guardrail_violation, type_error, value_error,
  message, Outcome, ok, raised, raise_if, ◌>>=◌, ◌>>◌,
}
use perago.Value.{Value, str}
use perago.Value.Snapshot.{snapshot_failure_output}

pub data TaskResultStatus : Type 0 where
  completed failed failed_with_terminal_error : TaskResultStatus

-- the string that the source uses for the status
unfoldable pub status_text : TaskResultStatus → Text
status_text TaskResultStatus.completed = text "COMPLETED"
status_text TaskResultStatus.failed = text "FAILED"
status_text TaskResultStatus.failed_with_terminal_error = text "FAILED_WITH_TERMINAL_ERROR"

-- the fields of the pydantic model; `output` is a `dict`
pub record RuntimeTaskResult : Type 0 where
  pub status : TaskResultStatus
  pub output : Option Value
  pub reason_for_incompletion : Option Text

-- The `except TypeError` of the validator; another exception passes.
abbrev pub as_value_error : Outcome (Option Value) → Outcome (Unit {0})
as_value_error (ok copy) = ok tt
as_value_error (raised (type_error m)) = raised (value_error m)
as_value_error (raised e) = raised e

abbrev pub check_failure_output : ℕ → Option Value → Outcome (Unit {0})
check_failure_output depth none = ok tt
check_failure_output depth (some v) = as_value_error (snapshot_failure_output depth (some v))

abbrev pub check_shape : ℕ → TaskResultStatus → Option Value → Option Text → Outcome (Unit {0})
check_shape depth TaskResultStatus.completed none reason =
    raised (value_error (text "COMPLETED task results require output"))
check_shape depth TaskResultStatus.completed (some v) (some reason) =
    raised (value_error (text "COMPLETED task results must not include reason_for_incompletion"))
check_shape depth TaskResultStatus.completed (some v) none = ok tt
check_shape depth status output none =
    raised
      (value_error (status_text status ++ text " task results require reason_for_incompletion"))
check_shape depth status output (some reason) = check_failure_output depth output

-- The constructor of the model runs its validator. pydantic reports a `ValueError` of it as a
-- `ValidationError`, which is a `ValueError` too.
unfoldable pub validate_payload_shape : ℕ → RuntimeTaskResult → Outcome RuntimeTaskResult
validate_payload_shape depth r = do
  check_shape depth r.status r.output r.reason_for_incompletion
  ok r

-- The entries of the payload, in the order in which they are set.
pub data PayloadEntry : Type 0 where
  status_entry : TaskResultStatus → PayloadEntry
  output_entry : Value → PayloadEntry
  reason_entry : Text → PayloadEntry

abbrev pub output_entries : Option Value → List PayloadEntry
output_entries none = []
output_entries (some v) = output_entry v ∷ []

abbrev pub reason_entries : Option Text → List PayloadEntry
reason_entries none = []
reason_entries (some t) = reason_entry t ∷ []

unfoldable pub conductor_payload : RuntimeTaskResult → List PayloadEntry
conductor_payload r =
    status_entry r.status ∷ (output_entries r.output ++ reason_entries r.reason_for_incompletion)

unfoldable pub completed_result : ℕ → Value → Outcome RuntimeTaskResult
unfolding validate_payload_shape
completed_result depth output = validate_payload_shape depth (record {
  status = TaskResultStatus.completed;
  output = some output;
  reason_for_incompletion = none;
})

-- `TaskExecutionError.__init__`, for the subclass whose exceptions `build` makes.
unfoldable pub task_execution_error :
    (Text → Option Value → Exception) → ℕ → Value → Option Value → Outcome Exception
task_execution_error build depth (str reason) output = do
  copied ← snapshot_failure_output depth output
  ok (build reason copied)
task_execution_error build depth reason output = raised (type_error (text "reason must be str"))

-- `reason` is the text that `str(reason)` gives.
unfoldable pub failure_reason : Text → ℕ → Outcome Text
failure_reason reason max_length = do
  raise_if (ltb max_length 1) (value_error (text "max_length must be a positive integer"))
  ok (if leb (length reason) max_length then reason else take max_length reason)

unfoldable pub failed_result : ℕ → Text → ℕ → Option Value → Outcome RuntimeTaskResult
unfolding validate_payload_shape failure_reason
failed_result depth reason max_length output = do
  shown ← failure_reason reason max_length
  validate_payload_shape depth (record {
    status = TaskResultStatus.failed;
    output = output;
    reason_for_incompletion = some shown;
  })

unfoldable pub terminal_failed_result : ℕ → Text → ℕ → Option Value → Outcome RuntimeTaskResult
unfolding validate_payload_shape failure_reason
terminal_failed_result depth reason max_length output = do
  shown ← failure_reason reason max_length
  validate_payload_shape depth (record {
    status = TaskResultStatus.failed_with_terminal_error;
    output = output;
    reason_for_incompletion = some shown;
  })

-- The `isinstance` tests in their order. `TaskTerminalError` and `TaskFailed` carry metadata.
unfoldable pub result_for_exception : ℕ → Exception → ℕ → Outcome RuntimeTaskResult
unfolding failed_result terminal_failed_result message
result_for_exception depth (task_terminal_error reason output) max_length =
    terminal_failed_result depth reason max_length output
result_for_exception depth (pre_guardrail_violation m) max_length =
    terminal_failed_result depth m max_length none
result_for_exception depth (task_failed reason output) max_length =
    failed_result depth reason max_length output
result_for_exception depth e max_length = failed_result depth (message e) max_length none
