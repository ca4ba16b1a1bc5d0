-- ===== src/Models.antt =====
-- `perago/models.py`: the controls of a task, the workspace declaration and workspace references.
-- A constructor of a pydantic model is a function that may raise; what pydantic itself reports is
-- a `ValidationError`, here `value_error` with the text `validation_report`, whose wording is the library's.
pub mod References
pub mod Limits
use perago.Base.{
  ℕ, ◌+◌, ◌==◌, Bool, true, false, not, ◌||◌, ◌&&◌, Option, none, some, Text, text, text_eq,
  text_in, ltb, leb, any, List, [], ◌∷◌, if◌then◌else◌, split, join, has_char, strip, strip_left,
  is_blank, is_empty,
}
use perago.Errors.{
  Exception, task_definition_error, value_error, Outcome, ok, raised, raise_if, ◌>>=◌, ◌>>◌,
}
use perago.Value.{Value, str, dict, Fields, end, field, Key, str_key, other_key}
use perago.Guards.{WorkspaceGuardrail, slash, backslash, is_special}

pub data RetryLogic : Type 0 where
  fixed exponential_backoff linear_backoff : RetryLogic

pub data TimeoutAction : Type 0 where
  retry time_out_wf alert_only : TimeoutAction

pub record RetryPolicy : Type 0 where
  pub count : ℕ
  pub logic : RetryLogic
  pub delay_seconds : ℕ
  pub max_delay_seconds : ℕ
  pub jitter_ms : ℕ

pub record TimeoutPolicy : Type 0 where
  pub policy : TimeoutAction
  pub seconds : ℕ
  pub response_seconds : ℕ
  pub poll_seconds : ℕ
  pub total_seconds : ℕ

pub record ExecutionLimits : Type 0 where
  pub concurrent_exec_limit : Option ℕ
  pub rate_limit_frequency_in_seconds : Option ℕ
  pub rate_limit_per_frequency : Option ℕ

pub record PublishBudget : Type 0 where
  pub observed_merge_p99_seconds : ℕ
  pub safety_margin_seconds : ℕ
  pub lakefs_merge_timeout_seconds : ℕ
  pub conductor_completion_timeout_seconds : ℕ
  pub worker_shutdown_grace_seconds : ℕ
  pub heartbeat_interval_seconds : ℕ

pub record TaskControls : Type 0 where
  pub retry : RetryPolicy
  pub timeout : TimeoutPolicy
  pub limits : ExecutionLimits
  pub publish_budget : Option PublishBudget

pub record MetricSpec : Type 0 where
  pub attempts : Bool
  pub workspace_io : Bool
  pub worker_capacity : Bool

pub record WorkspaceSpec : Type 0 where
  pub prefix : Text
  pub pre : List WorkspaceGuardrail
  pub post : List WorkspaceGuardrail
  pub read_only : Bool

abbrev pub max_retry_count : ℕ
max_retry_count = 10

abbrev pub validation_report : Text
validation_report = text "validation error"

-- `Field(ge=0, le=MAX_RETRY_COUNT)`
unfoldable pub retry_policy : RetryPolicy → Outcome RetryPolicy
retry_policy p = do raise_if (ltb max_retry_count p.count) (value_error validation_report); ok p

abbrev pub is_some {ℓ} : {A : Type ℓ} → Option A → Bool
is_some none = false
is_some (some a) = true

abbrev pub same_bool : Bool → Bool → Bool
same_bool true b = b
same_bool false b = not b

unfoldable pub validate_rate_limit_pair : ExecutionLimits → Outcome ExecutionLimits
validate_rate_limit_pair l =
    if same_bool (is_some l.rate_limit_frequency_in_seconds) (is_some l.rate_limit_per_frequency)
    then ok l
    else raised (
        task_definition_error (
          text
            "rate_limit_frequency_in_seconds and rate_limit_per_frequency must be configured together"))

-- The last four fields are `Field(ge=1)`.
unfoldable pub validate_merge_timeout_budget : PublishBudget → Outcome PublishBudget
validate_merge_timeout_budget b = do
  raise_if
      (ltb b.lakefs_merge_timeout_seconds 1
        || ltb b.conductor_completion_timeout_seconds 1
        || ltb b.worker_shutdown_grace_seconds 1
        || ltb b.heartbeat_interval_seconds 1)
      (value_error validation_report)
  raise_if
      (ltb b.lakefs_merge_timeout_seconds (b.observed_merge_p99_seconds + b.safety_margin_seconds))
      (task_definition_error (
        text
          "lakefs_merge_timeout_seconds must cover observed_merge_p99_seconds plus safety_margin_seconds"))
  ok b

unfoldable pub response_timeout_seconds : PublishBudget → ℕ
response_timeout_seconds b =
    b.lakefs_merge_timeout_seconds + b.conductor_completion_timeout_seconds
    + b.worker_shutdown_grace_seconds + b.heartbeat_interval_seconds

unfoldable pub validate_prefix : Text → Outcome Text
validate_prefix value =
    if has_char backslash value
    then raised (task_definition_error (text "WorkspaceSpec.prefix must use '/' separators"))
    else let stripped = strip value in
      if text_eq stripped (text "/")
      then ok (text "/")
      else let normalized = strip_left (λ c. c == slash) stripped in
        if is_empty normalized
        then raised (task_definition_error (text "WorkspaceSpec.prefix must not be empty"))
        else let parts = split slash normalized in
          if any is_special parts
          then raised
              (task_definition_error (text "WorkspaceSpec.prefix must stay inside the repository"))
          else ok (join slash parts)

-- The fields of `WorkspaceRef`, `WorkspaceInput` and `WorkspaceOutput`; `refType` is "commit".
pub record WorkspaceRef : Type 0 where
  pub repository : Text
  pub branch : Text
  pub ref : Text

-- The keys of the model, in the order of the fields.
abbrev pub repository_key : Text
repository_key = text "repository"

abbrev pub branch_key : Text
branch_key = text "branch"

abbrev pub ref_type_key : Text
ref_type_key = text "refType"

abbrev pub ref_key : Text
ref_key = text "ref"

abbrev pub commit_type : Text
commit_type = text "commit"

-- `value.get(key)`
unfoldable pub field_value : Text → Fields → Option Value
field_value k end = none
field_value k (field (str_key j) v rest) = if text_eq k j then some v else field_value k rest
field_value k (field (other_key j) v rest) = field_value k rest

-- `extra="forbid"`
unfoldable pub only_keys : List Text → Fields → Bool
only_keys keys end = true
only_keys keys (field (str_key j) v rest) = text_in j keys && only_keys keys rest
only_keys keys (field (other_key j) v rest) = false

-- A required field of type `str` with `min_length=1` that is not blank.
abbrev pub ref_field : Option Value → Outcome Text
ref_field (some (str t)) =
    if is_empty t || is_blank t then raised (value_error validation_report) else ok t
ref_field _ = raised (value_error validation_report)

-- `refType: Literal["commit"]`
abbrev pub commit_field : Option Value → Outcome (Unit {0})
commit_field (some (str t)) = raise_if (not (text_eq t commit_type)) (value_error validation_report)
commit_field _ = raised (value_error validation_report)

abbrev pub ref_keys : List Text
ref_keys = repository_key ∷ branch_key ∷ ref_type_key ∷ ref_key ∷ []

unfoldable pub validate_workspace_ref : Value → Outcome WorkspaceRef
unfolding field_value only_keys
validate_workspace_ref (dict fs) = do
  raise_if (not (only_keys ref_keys fs)) (value_error validation_report)
  repository ← ref_field (field_value repository_key fs)
  branch ← ref_field (field_value branch_key fs)
  commit_field (field_value ref_type_key fs)
  ref ← ref_field (field_value ref_key fs)
  ok (record { repository = repository; branch = branch; ref = ref })
validate_workspace_ref v = raised (value_error validation_report)

-- `model_dump(mode="json")`
unfoldable pub dump_workspace_ref : WorkspaceRef → Value
dump_workspace_ref w = dict (
    field (str_key repository_key) (str w.repository) (
      field (str_key branch_key) (str w.branch)
        (field (str_key ref_type_key) (str commit_type) (field (str_key ref_key) (str w.ref) end))))

-- The dump of the input with its `ref` replaced, validated anew.
unfoldable pub published_output : WorkspaceRef → Text → Outcome WorkspaceRef
unfolding validate_workspace_ref dump_workspace_ref
published_output w ref = validate_workspace_ref (dump_workspace_ref (record w { ref = ref }))
