-- ===== src/Execution/Free.antt =====
-- `perago/execution.py`: attempts of tasks without a workspace, and the builders of task outputs.
pub mod Outcomes
use perago.Base.{ℕ, Bool, true, false, Text, text, Option, none, some}
use perago.Errors.{Exception, task_input_error, Outcome, ok, raised, ◌>>=◌, ◌>>◌}
use perago.Value.{Value, dict, field, end, str_key}
use perago.Models.{
  WorkspaceSpec, WorkspaceRef, MetricSpec, validate_workspace_ref, published_output,
}
use perago.Result.{RuntimeTaskResult, completed_result, result_for_exception}
use perago.Execution.{Task, output_value}

-- What the task brings: its models and its function.
pub record Callable : Type 0 where
  pub validate_params : Bool → Value → Outcome Value
  pub fn : Value → Outcome Value
  -- `_validate_result` and its `model_dump(mode="json")`
  pub validate_result : Value → Outcome Value

-- `if task.has_workspace: raise`
abbrev pub without_workspace : Option WorkspaceSpec → Text → Outcome (Unit {0})
without_workspace none m = ok tt
without_workspace (some spec) m = raised (task_input_error m)

abbrev pub with_workspace : Option WorkspaceSpec → Text → Outcome (Unit {0})
with_workspace none m = raised (task_input_error m)
with_workspace (some spec) m = ok tt

abbrev pub params_field : Option Value → Outcome Value
params_field (some p) = ok p
params_field none = raised (task_input_error (text "workspace-free task input must contain params"))

-- the recorder is there, or the task does not want one
abbrev pub recorder_given : Option MetricSpec → Bool → Outcome (Unit {0})
recorder_given none has_recorder = ok tt
recorder_given (some m) true = ok tt
recorder_given (some m) false =
    raised (task_input_error (text "metrics-enabled task invocation requires a MetricRecorder"))

abbrev pub result_value : Value → Value
result_value result = dict (field (str_key (text "result")) result end)

module _ (task : Task) (callable : Callable) where
  unfoldable pub build_workspace_free_task_output : Value → Outcome Value
  build_workspace_free_task_output raw = do
    without_workspace task.workspace
        (text "workspace-free output can only be built for workspace-free tasks")
    result ← callable.validate_result raw
    ok (result_value result)

  unfoldable pub build_workspace_task_output : Value → Text → Value → Outcome Value
  build_workspace_task_output input_workspace published_ref raw = do
    with_workspace task.workspace (text "workspace output can only be built for workspace tasks")
    workspace_input ← validate_workspace_ref input_workspace
    workspace_output ← published_output workspace_input published_ref
    result ← callable.validate_result raw
    ok (output_value workspace_output result)

  unfoldable pub invoke_workspace_free_task : Option Value → (has_recorder : Bool) → Outcome Value
  unfolding build_workspace_free_task_output
  invoke_workspace_free_task params has_recorder = do
    without_workspace task.workspace
        (text "invoke_workspace_free_task only supports workspace-free tasks")
    raw ← params_field params
    validated ← callable.validate_params task.strict_params raw
    recorder_given task.metrics has_recorder
    raw_result ← callable.fn validated
    build_workspace_free_task_output raw_result

  abbrev pub handle_free : ℕ → ℕ → Outcome RuntimeTaskResult → Outcome RuntimeTaskResult
  handle_free depth max_length (ok r) = ok r
  handle_free depth max_length (raised e) = result_for_exception depth e max_length

  unfoldable pub run_workspace_free_task_attempt :
      (depth : ℕ)
      → Option Value
      → (has_recorder : Bool) → (max_length : ℕ) → Outcome RuntimeTaskResult
  unfolding invoke_workspace_free_task
  run_workspace_free_task_attempt depth params has_recorder max_length = do
    without_workspace task.workspace
        (text "run_workspace_free_task_attempt only supports workspace-free tasks")
    handle_free depth max_length
        (invoke_workspace_free_task params has_recorder >>= λ output. completed_result depth output)
