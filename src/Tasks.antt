-- ===== src/Tasks.antt =====
-- `perago/task.py`: what the `task` decorator makes of a function.
pub mod Signature
pub mod Definition
pub mod Loading
use perago.Base.{
  ℕ, ◌==◌, Bool, true, false, ◌||◌, ◌&&◌, not, Option, none, some, Text, text, text_eq, List, [],
  ◌∷◌, ◌++◌, any, is_empty, is_blank, has_char, split, sorted, if◌then◌else◌,
}
use perago.Errors.{task_definition_error, message, Outcome, ok, raised, raise_if, ◌>>=◌, ◌>>◌}
use perago.Models.{TaskControls, PublishBudget, WorkspaceSpec, MetricSpec}
use perago.Guards.{slash, backslash}
use perago.Config.Services.{comma_join}

-- What `get_type_hints` gives for a name: `pathlib.Path`, `MetricRecorder`, a subclass of `BaseModel`,
-- known by a number, or another object.
pub data Hint : Type 0 where
  path_class metric_recorder other_hint : Hint
  model_class : ℕ → Hint

-- `inspect.Parameter`
pub record Parameter : Type 0 where
  pub name : Text
  pub positional_or_keyword : Bool
  pub has_default : Bool

-- What the decorator looks at in a function. `type_hints` is the call of `get_type_hints`, which may
-- raise.
pub record Function : Type 0 where
  pub is_coroutine : Bool
  pub parameters : List Parameter
  pub type_hints : Outcome (Text → Option Hint)

-- An argument that may be missing, or of another class than the one that is asked for.
pub data Argument {ℓ} (A : Type ℓ) : Type ℓ where
  missing wrong_class : Argument A
  given : A → Argument A

-- The arguments of `task`, with its defaults put in.
pub record Declaration : Type 0 where
  pub name : Text
  pub owner_email : Text
  pub description : Option Text
  pub workspace : Argument WorkspaceSpec
  pub metrics : Argument MetricSpec
  pub controls : Argument TaskControls
  pub strict_params : Argument Bool

-- The fields of `TaskDefinition` beside the function itself.
pub record TaskDefinition : Type 0 where
  pub name : Text
  pub owner_email : Text
  pub params_model : ℕ
  pub output_model : ℕ
  pub strict_params : Bool
  pub description : Option Text
  pub workspace : Option WorkspaceSpec
  pub metrics : Option MetricSpec
  pub controls : TaskControls

abbrev pub definition_error {ℓ} : {A : Type ℓ} → Text → Outcome A
definition_error m = raised (task_definition_error m)

-- `raise TaskDefinitionError(…)` if the test holds
abbrev pub refuse_if : Bool → Text → Outcome (Unit {0})
refuse_if test m = raise_if test (task_definition_error m)

abbrev pub is_given {ℓ} : {A : Type ℓ} → Option A → Bool
is_given none = false
is_given (some a) = true

unfoldable pub validate_required_metadata : (name owner_email : Text) → Outcome (Unit {0})
validate_required_metadata name owner_email = do
  refuse_if (is_blank name) (text "task name is required")
  refuse_if (has_char slash name || has_char backslash name)
      (text "task name must not contain path separators")
  refuse_if (is_blank owner_email) (text "owner_email is required")

-- `hints.get(name) is Path`, and the like
abbrev pub is_path : Option Hint → Bool
is_path (some path_class) = true
is_path hint = false

abbrev pub is_recorder : Option Hint → Bool
is_recorder (some metric_recorder) = true
is_recorder hint = false

-- `isinstance`, with `None` allowed
abbrev pub optional_argument {ℓ} : {A : Type ℓ} → Text → Argument A → Outcome (Option A)
optional_argument m missing = ok none
optional_argument m wrong_class = definition_error m
optional_argument m (given a) = ok (some a)

abbrev pub required_argument {ℓ} : {A : Type ℓ} → Text → Argument A → Outcome A
required_argument m (given a) = ok a
required_argument m argument = definition_error m

-- The signatures, over the names of the parameters.
module _ (hints : Text → Option Hint) (workspace : Option WorkspaceSpec) where
  unfoldable pub validate_workspace_signature :
      (first second : Text) → Option MetricSpec → Outcome (Unit {0})
  validate_workspace_signature first second metrics = do
    refuse_if (not (text_eq first (text "workspace")) || not (text_eq second (text "params")))
        (text "workspace task parameters must be named workspace and params")
    refuse_if (not (is_path (hints (text "workspace"))))
        (text "workspace must be annotated as pathlib.Path")
    refuse_if (not (is_given workspace))
        (text "workspace task functions require workspace=WorkspaceSpec(...)")
    refuse_if (is_given metrics) (text "metrics=MetricSpec(...) requires a metrics parameter")

  unfoldable pub validate_workspace_metrics_signature :
      (first second third : Text) → Option MetricSpec → Outcome (Unit {0})
  unfolding validate_workspace_signature
  validate_workspace_metrics_signature first second third metrics = do
    validate_workspace_signature first second none
    refuse_if (not (text_eq third (text "metrics")))
        (text "metrics-enabled task parameter must be named metrics")
    refuse_if (not (is_recorder (hints (text "metrics"))))
        (text "metrics must be annotated as perago.MetricRecorder")
    refuse_if (not (is_given metrics)) (text "metrics parameter requires metrics=MetricSpec(...)")

  unfoldable pub validate_workspace_free_metrics_signature :
      (first second : Text) → Option MetricSpec → Outcome (Unit {0})
  validate_workspace_free_metrics_signature first second metrics = do
    refuse_if (not (text_eq first (text "params")) || not (text_eq second (text "metrics")))
        (text "metrics-enabled workspace-free task parameters must be named params and metrics")
    refuse_if (is_given workspace)
        (text "workspace-free task functions must not declare workspace=WorkspaceSpec(...)")
    refuse_if (not (is_recorder (hints (text "metrics"))))
        (text "metrics must be annotated as perago.MetricRecorder")
    refuse_if (not (is_given metrics)) (text "metrics parameter requires metrics=MetricSpec(...)")

  unfoldable pub validate_workspace_free_signature :
      (first : Text) → Option MetricSpec → Outcome (Unit {0})
  validate_workspace_free_signature first metrics = do
    refuse_if (not (text_eq first (text "params")))
        (text "workspace-free task parameter must be named params")
    refuse_if (is_given workspace)
        (text "workspace-free task functions must not declare workspace=WorkspaceSpec(...)")
    refuse_if (is_given metrics) (text "metrics=MetricSpec(...) requires a metrics parameter")

  -- the dispatch on the number of parameters
  unfoldable pub validate_signature : List Parameter → Option MetricSpec → Outcome (Unit {0})
  unfolding validate_workspace_signature validate_workspace_metrics_signature
      validate_workspace_free_metrics_signature validate_workspace_free_signature
  validate_signature (p ∷ q ∷ r ∷ []) metrics =
      validate_workspace_metrics_signature p.name q.name r.name metrics
  validate_signature (p ∷ q ∷ []) metrics =
      if text_eq p.name (text "params") && text_eq q.name (text "metrics")
      then validate_workspace_free_metrics_signature p.name q.name metrics
      else validate_workspace_signature p.name q.name metrics
  validate_signature (p ∷ []) metrics = validate_workspace_free_signature p.name metrics
  validate_signature parameters metrics = definition_error (
      text "task function must be exactly (workspace: Path, params: ParamsModel), "
      ++ text "(workspace: Path, params: ParamsModel, metrics: MetricRecorder), "
      ++ text "(params: ParamsModel), or (params: ParamsModel, metrics: MetricRecorder)")

-- `_is_pydantic_model(hint)`, with the class
abbrev pub required_model : Text → Option Hint → Outcome ℕ
required_model m (some (model_class c)) = ok c
required_model m hint = definition_error m

-- `except Exception` around `get_type_hints`
abbrev pub resolved_hints : Outcome (Text → Option Hint) → Outcome (Text → Option Hint)
resolved_hints (ok hints) = ok hints
resolved_hints (raised e) =
    definition_error (text "failed to resolve task type hints: " ++ message e)

-- The checks of the function itself, with its parameters and result models.
unfoldable pub task_models : Function → Option WorkspaceSpec → Option MetricSpec → Outcome (ℕ × ℕ)
unfolding validate_signature
task_models fn workspace metrics = do
  refuse_if fn.is_coroutine (text "task function must be a synchronous function")
  refuse_if (any (λ p. not p.positional_or_keyword) fn.parameters)
      (text "task function must not use *args, **kwargs, or keyword-only fields")
  refuse_if (any (λ p. p.has_default) fn.parameters)
      (text "task function parameters must not declare defaults")
  hints ← resolved_hints fn.type_hints
  validate_signature hints workspace fn.parameters metrics
  params_model ←
      required_model (text "params must be annotated as a Pydantic BaseModel subclass")
        (hints (text "params"))
  output_model ←
      required_model (text "return value must be annotated as a Pydantic BaseModel subclass")
        (hints (text "return"))
  ok (params_model, output_model)

-- the call of `TaskDefinition`
abbrev pub definition_of :
    Declaration
    → Option WorkspaceSpec
    → Option MetricSpec
    → TaskControls
    → Bool
    → (models : ℕ × ℕ) → TaskDefinition
definition_of d workspace metrics controls strict_params models = record {
  name = d.name;
  owner_email = d.owner_email;
  params_model = models.0;
  output_model = models.1;
  strict_params = strict_params;
  description = d.description;
  workspace = workspace;
  metrics = metrics;
  controls = controls;
}

unfoldable pub build_task_definition : Function → Declaration → Outcome TaskDefinition
unfolding validate_required_metadata task_models
build_task_definition fn d = do
  validate_required_metadata d.name d.owner_email
  workspace ← optional_argument (text "workspace must be a WorkspaceSpec") d.workspace
  metrics ← optional_argument (text "metrics must be a MetricSpec") d.metrics
  controls ← required_argument (text "controls must be a TaskControls") d.controls
  strict_params ← required_argument (text "strict_params must be a bool") d.strict_params
  refuse_if (not (is_given workspace) && is_given controls.publish_budget)
      (text "publish_budget requires workspace=WorkspaceSpec(...)")
  models ← task_models fn workspace metrics
  ok (definition_of d workspace metrics controls strict_params models)
