-- ===== src/TaskDef/Built.antt =====
-- `perago/taskdef.py`: what build_taskdef gives.
use perago.Base.{[], ℕ, Bool, true, false, not, Option, none, some, text, ◌++◌, ◌≡◌}
use perago.Errors.{ok}
use perago.Value.{Value, Fields}
use perago.Tasks.{TaskDefinition, is_given}
use perago.TaskDef.{get_field, schema_for_model}
use perago.TaskDef.Inlined.{no_refs}
use perago.TaskDef.Closed.{closed}
use perago.TaskDef.Titles.{untitled}
use perago.TaskDef.Build.{ModelSchemas, number, object_schema, schema_entry, keys_of, properties_of}

-- past the description and the three optional limits
module _ (t : TaskDefinition) (wi wo : Option Value) (params result : Value) where
  abbrev input_schema : Value
  input_schema = schema_entry (t.name ++ text ".input") (
      object_schema (properties_of wi (text "params") params)
        (keys_of (is_given t.workspace) (text "params")) true)

  abbrev output_schema : Value
  output_schema = schema_entry (t.name ++ text ".output") (
      object_schema (properties_of wo (text "result") result)
        (keys_of (is_given t.workspace) (text "result")) false)

-- A schema that Conductor can use by itself: with no reference to a definition, with an answer in
-- every object schema whether other properties are allowed, and without generated titles.
pub record SelfContained (allow_extra : Bool) (v : Value) : Type 0 where
  pub has_no_refs : no_refs v ≡ true
  pub is_closed : closed allow_extra v ≡ true
  pub has_no_titles : untitled false v ≡ true

abbrev pub AllSelfContained : Option Value → Type 0
AllSelfContained none = Unit {0}
AllSelfContained (some v) = SelfContained false v

-- The schema of a workspace, made of the schema that pydantic gives, if there is a workspace.
abbrev pub MadeOf : (depth : ℕ) (schema : Fields) → Option Value → Type 0
MadeOf depth schema none = Unit {0}
MadeOf depth schema (some v) = schema_for_model depth schema false ≡ ok v

-- `d` is the definition of the task: its parts are in place, each made of the model that it is for,
-- and every schema in it stands alone.
pub record Describes (depth : ℕ) (models : ModelSchemas) (t : TaskDefinition) (d : Fields)
    : Type 0 where
  pub workspace_input : Option Value
  pub workspace_output : Option Value
  pub params : Value
  pub result : Value
  pub input :
      get_field (text "inputSchema") d
      ≡ some (input_schema t workspace_input workspace_output params result)
  pub output :
      get_field (text "outputSchema") d
      ≡ some (output_schema t workspace_input workspace_output params result)
  pub response :
      get_field (text "responseTimeoutSeconds") d
      ≡ some (number t.controls.timeout.response_seconds)
  pub input_made : MadeOf depth models.workspace_input workspace_input
  pub output_made : MadeOf depth models.workspace_output workspace_output
  pub params_made :
      schema_for_model depth (models.of_model t.params_model) (not t.strict_params) ≡ ok params
  pub result_made : schema_for_model depth (models.of_model t.output_model) false ≡ ok result
  pub no_root_models : models.root_models ≡ []
  pub input_alone : AllSelfContained workspace_input
  pub output_alone : AllSelfContained workspace_output
  pub has_input : is_given workspace_input ≡ is_given t.workspace
  pub has_output : is_given workspace_output ≡ is_given t.workspace
  pub params_alone : SelfContained (not t.strict_params) params
  pub result_alone : SelfContained false result
