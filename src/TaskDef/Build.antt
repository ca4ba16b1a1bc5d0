-- ===== src/TaskDef/Build.antt =====
-- `perago/taskdef.py`: build_taskdef, from the schemas that pydantic gives for the models.
use perago.Base.{
  ℕ, ltb, Bool, true, false, ◌&&◌, not, Option, none, some, Text, text, List, ◌++◌, is_empty,
}
use perago.Errors.{task_definition_error, Outcome, ok, raise_if, ◌>>=◌, ◌>>◌}
use perago.Value.{Value, str, bool, int, dict, list, Fields, end, field, Items, nil, cons, str_key}
use perago.Models.{
  RetryLogic, fixed, exponential_backoff, linear_backoff, TimeoutAction, retry, time_out_wf,
  alert_only, PublishBudget, WorkspaceSpec, response_timeout_seconds,
}
use perago.Tasks.{TaskDefinition, is_given}
use perago.Config.Services.{comma_join}
use perago.TaskDef.{schema_for_model}

-- The calls of `model_json_schema`: for a model of the task, `WorkspaceInput` and `WorkspaceOutput`; and
-- the names of the models that `task_models_with_root_model` finds.
pub record ModelSchemas : Type 0 where
  pub of_model : ℕ → Fields
  pub workspace_input : Fields
  pub workspace_output : Fields
  pub root_models : List Text

abbrev pub named : Text → Value → Fields → Fields
named name value rest = field (str_key name) value rest

abbrev pub number : ℕ → Value
number n = int false n

abbrev pub retry_logic : RetryLogic → Text
retry_logic fixed = text "FIXED"
retry_logic exponential_backoff = text "EXPONENTIAL_BACKOFF"
retry_logic linear_backoff = text "LINEAR_BACKOFF"

abbrev pub timeout_policy : TimeoutAction → Text
timeout_policy retry = text "RETRY"
timeout_policy time_out_wf = text "TIME_OUT_WF"
timeout_policy alert_only = text "ALERT_ONLY"

-- `response_seconds < publish_budget.response_timeout_seconds`
abbrev pub is_shorter : (seconds : ℕ) → Option PublishBudget → Bool
is_shorter seconds none = false
is_shorter seconds (some budget) = ltb seconds (response_timeout_seconds budget)

abbrev pub reads_only : Option WorkspaceSpec → Bool
reads_only none = false
reads_only (some spec) = spec.read_only

-- `_response_timeout_seconds`: whether it warns, and the seconds
unfoldable pub response_timeout : TaskDefinition → Bool × ℕ
unfolding response_timeout_seconds
response_timeout t = (
  not (reads_only t.workspace)
      && is_shorter t.controls.timeout.response_seconds t.controls.publish_budget,
  t.controls.timeout.response_seconds,
)

-- `if value is not None: fields[name] = value`
abbrev pub optional_field : Text → Option ℕ → Fields → Fields
optional_field name none rest = rest
optional_field name (some n) rest = named name (number n) rest

-- `_control_fields`, before `rest`
unfoldable pub control_fields : TaskDefinition → (rest : Fields) → Fields
unfolding response_timeout
control_fields t rest =
    let c = t.controls in
    named (text "retryCount") (number c.retry.count) (
      named (text "retryLogic") (str (retry_logic c.retry.logic)) (
        named (text "retryDelaySeconds") (number c.retry.delay_seconds) (
          named (text "maxRetryDelaySeconds") (number c.retry.max_delay_seconds) (
            named (text "backoffJitterMs") (number c.retry.jitter_ms) (
              named (text "totalTimeoutSeconds") (number c.timeout.total_seconds) (
                named (text "timeoutPolicy") (str (timeout_policy c.timeout.policy)) (
                  named (text "timeoutSeconds") (number c.timeout.seconds) (
                    named (text "responseTimeoutSeconds") (number (response_timeout t).1) (
                      named (text "pollTimeoutSeconds") (number c.timeout.poll_seconds) (
                        optional_field (text "concurrentExecLimit") c.limits.concurrent_exec_limit (
                          optional_field (text "rateLimitFrequencyInSeconds")
                            c.limits.rate_limit_frequency_in_seconds
                            (optional_field (text "rateLimitPerFrequency")
                              c.limits.rate_limit_per_frequency rest))))))))))))

-- `_object_schema`
abbrev pub object_schema : (properties : Fields) (required : Items) (allow_extra : Bool) → Value
object_schema properties required allow_extra = dict (
    named (text "type") (str (text "object")) (
      named (text "properties") (dict properties) (
        named (text "required") (list required)
          (named (text "additionalProperties") (bool allow_extra) end))))

-- `inputSchema` and `outputSchema`
abbrev pub schema_entry : (name : Text) (content : Value) → Value
schema_entry name content = dict (
    named (text "name") (str name) (
      named (text "version") (number 1)
        (named (text "type") (str (text "JSON")) (named (text "data") content end))))

-- The keys of an input or an output, and its properties.
abbrev pub keys_of : (has_workspace : Bool) (last : Text) → Items
keys_of true last = cons (str (text "workspace")) (cons (str last) nil)
keys_of false last = cons (str last) nil

abbrev pub properties_of : (workspace : Option Value) (last : Text) → Value → Fields
properties_of none last schema = named last schema end
properties_of (some w) last schema = named (text "workspace") w (named last schema end)

abbrev pub described : Option Text → Fields → Fields
described none rest = rest
described (some d) rest = named (text "description") (str d) rest

-- the dictionary that is built
unfoldable pub taskdef :
    TaskDefinition
    → (workspace_input workspace_output : Option Value) (params result : Value) → Fields
unfolding control_fields
taskdef t workspace_input workspace_output params result =
    let input_keys = keys_of (is_given t.workspace) (text "params") in
    let output_keys = keys_of (is_given t.workspace) (text "result") in
    named (text "name") (str t.name) (
      named (text "ownerEmail") (str t.owner_email) (
        described t.description (
          control_fields t (
            named (text "inputKeys") (list input_keys) (
              named (text "outputKeys") (list output_keys) (
                named (text "inputSchema")
                  (schema_entry (t.name ++ text ".input") (
                    object_schema (properties_of workspace_input (text "params") params) input_keys
                      true))
                  (named (text "outputSchema")
                    (schema_entry (t.name ++ text ".output") (
                      object_schema (properties_of workspace_output (text "result") result)
                        output_keys false))
                    end)))))))

-- the schema of a workspace, if the task has one
abbrev pub workspace_schema :
    (depth : ℕ) (has_workspace : Bool) (schema : Fields) → Outcome (Option Value)
workspace_schema depth false schema = ok none
workspace_schema depth true schema = do made ← schema_for_model depth schema false; ok (some made)

-- `validate_no_root_task_models`
abbrev pub refuse_root_models : (names : List Text) → Outcome (Unit {0})
refuse_root_models names = raise_if (not (is_empty names)) (
    task_definition_error (
      text "Pydantic RootModel on task model(s) "
      ++ comma_join names
      ++ text
          " is not supported; Perago task contracts must use ordinary BaseModel object models."))

unfoldable pub build_taskdef : (depth : ℕ) → ModelSchemas → TaskDefinition → Outcome Fields
unfolding schema_for_model taskdef
build_taskdef depth models t = do
  refuse_root_models models.root_models
  workspace_input ← workspace_schema depth (is_given t.workspace) models.workspace_input
  workspace_output ← workspace_schema depth (is_given t.workspace) models.workspace_output
  params ← schema_for_model depth (models.of_model t.params_model) (not t.strict_params)
  result ← schema_for_model depth (models.of_model t.output_model) false
  ok (taskdef t workspace_input workspace_output params result)
