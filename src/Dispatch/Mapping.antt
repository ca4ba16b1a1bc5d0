-- ===== src/Dispatch/Mapping.antt =====
-- `perago/conductor_runtime/sdk_mapping.py`: tasks and results of the Conductor SDK.
use perago.Base.{ℕ, Option, none, some, Text, text, ◌++◌}
use perago.Errors.{attribute_error, type_error, Outcome, ok, raised, ◌>>=◌}
use perago.Value.{Value}
use perago.Result.{RuntimeTaskResult, TaskResultStatus, completed}

-- `input_data`: a mapping, known by a number, or an object that is none.
pub data InputField : Type 0 where
  mapping : ℕ → InputField
  no_mapping : InputField

-- The attributes of a task that are read; `none` is one that is missing or `None`.
pub record SdkTask : Type 0 where
  pub workflow_instance_id : Option Text
  pub task_id : Option Text
  pub retry_count : Option ℕ
  pub task_def_name : Option Text
  pub reference_task_name : Option Text
  pub seq : Option ℕ
  pub iteration : Option ℕ
  pub status : Option Text
  pub input_data : Option InputField
  pub retried_task_id : Option Text
  pub response_timeout_seconds : Option ℕ

pub record ConductorTaskAttempt : Type 0 where
  pub workflow_instance_id : Text
  pub task_id : Text
  pub retry_count : ℕ
  pub task_def_name : Text
  pub reference_task_name : Text
  pub seq : ℕ
  pub iteration : ℕ
  pub status : Text
  pub input_data : ℕ
  pub retried_task_id : Option Text
  pub response_timeout_seconds : Option ℕ

-- `_required_task_attr`
abbrev pub required_task_attr {ℓ} : {A : Type ℓ} → (name : Text) → Option A → Outcome A
required_task_attr name none =
    raised (attribute_error (text "Conductor task is missing required field " ++ name))
required_task_attr name (some value) = ok value

-- `_mapping_attr`
abbrev pub mapping_attr : (name : Text) → InputField → Outcome ℕ
mapping_attr name (mapping m) = ok m
mapping_attr name no_mapping =
    raised (type_error (text "Conductor task field " ++ name ++ text " must be a mapping"))

-- `int(… or 0)`
abbrev pub or_zero : Option ℕ → ℕ
or_zero none = 0
or_zero (some n) = n

unfoldable pub conductor_task_to_attempt : SdkTask → Outcome ConductorTaskAttempt
conductor_task_to_attempt t = do
  workflow_instance_id ← required_task_attr (text "workflow_instance_id") t.workflow_instance_id
  task_id ← required_task_attr (text "task_id") t.task_id
  retry_count ← required_task_attr (text "retry_count") t.retry_count
  task_def_name ← required_task_attr (text "task_def_name") t.task_def_name
  reference_task_name ← required_task_attr (text "reference_task_name") t.reference_task_name
  seq ← required_task_attr (text "seq") t.seq
  status ← required_task_attr (text "status") t.status
  field ← required_task_attr (text "input_data") t.input_data
  input_data ← mapping_attr (text "input_data") field
  ok (record {
    workflow_instance_id = workflow_instance_id;
    task_id = task_id;
    retry_count = retry_count;
    task_def_name = task_def_name;
    reference_task_name = reference_task_name;
    seq = seq;
    iteration = or_zero t.iteration;
    status = status;
    input_data = input_data;
    retried_task_id = t.retried_task_id;
    response_timeout_seconds = t.response_timeout_seconds;
  })

-- The fields of the SDK's `TaskResult` that are set.
pub record TaskResult : Type 0 where
  pub workflow_instance_id : Text
  pub task_id : Text
  pub worker_id : Text
  pub status : TaskResultStatus
  pub output_data : Option Value
  pub reason_for_incompletion : Option Text

-- `None` if the result is completed
abbrev pub shown_reason : TaskResultStatus → Option Text → Option Text
shown_reason completed reason = none
shown_reason status reason = reason

unfoldable pub runtime_result_to_sdk_task_result :
    ConductorTaskAttempt → RuntimeTaskResult → (worker_id : Text) → TaskResult
runtime_result_to_sdk_task_result attempt result worker_id = record {
  workflow_instance_id = attempt.workflow_instance_id;
  task_id = attempt.task_id;
  worker_id = worker_id;
  status = result.status;
  output_data = result.output;
  reason_for_incompletion = shown_reason result.status result.reason_for_incompletion;
}
