-- ===== src/Tests/Defining.antt =====
-- The Conductor definition of the task of `perago.Tests.Tasking`, whose model has an enum behind a `$ref`.
use perago.Base.{Bool, true, false, text, text_eq, text_in, strip_prefix, [], none, ◌≡◌, refl}
use perago.Errors.{ok, raised, recursion_error}
use perago.Value.{Value, str, bool, dict, list, Fields, end, nil, cons}
use perago.TaskDef.{schema_for_model, put_field, update_fields, pop_field}
use perago.TaskDef.Build.{ModelSchemas, named, taskdef}
use perago.Tests.Tasking.{defined}

-- `{"$ref": "#/$defs/Mode"}`
abbrev mode_ref : Value
mode_ref = dict (named (text "$ref") (str (text "#/$defs/Mode")) end)

abbrev mode_enum : Value
mode_enum = dict (
    named (text "enum") (list (cons (str (text "fast")) nil))
      (named (text "title") (str (text "Mode")) end))

abbrev params_schema : Fields
params_schema = named (text "$defs") (dict (named (text "Mode") mode_enum end)) (
    named (text "properties") (dict (named (text "title") mode_ref end))
      (named (text "title") (str (text "Params")) (named (text "type") (str (text "object")) end)))

-- the enum in place of the reference, and the property that is named `title` kept
abbrev inlined : (allow_extra : Bool) → Value
inlined allow_extra = dict (
    named (text "properties")
      (dict (
        named (text "title") (dict (named (text "enum") (list (cons (str (text "fast")) nil)) end))
          end))
      (named (text "type") (str (text "object"))
        (named (text "additionalProperties") (bool allow_extra) end)))

params_schema_test : schema_for_model 20 params_schema true ≡ ok (inlined true)
unfolding schema_for_model text_in text_eq text put_field strip_prefix update_fields
params_schema_test = refl

abbrev schemas : ModelSchemas
schemas = record {
  of_model = λ n. params_schema;
  workspace_input = end;
  workspace_output = end;
  root_models = [];
}

abbrev built : Fields
built = taskdef defined none none (inlined true) (inlined false)

-- `class Node(BaseModel): children: list[Node]`, whose schema refers to its own definition
abbrev node_ref : Fields
node_ref = named (text "$ref") (str (text "#/$defs/Node")) end

abbrev node_schema : Fields
node_schema =
    named (text "$defs")
      (dict (
        named (text "Node")
          (dict (
            named (text "properties")
              (dict (named (text "children") (dict (named (text "items") (dict node_ref) end)) end))
              (named (text "type") (str (text "object")) end)))
          end))
      node_ref

-- Of the schema of `Node` itself, whose only key beside `$defs` is a `$ref`, nothing is left.
node_schema_test : schema_for_model 60 node_schema true ≡ ok (dict end)
unfolding schema_for_model text_in text_eq text put_field strip_prefix update_fields
node_schema_test = refl

-- `class Tree(BaseModel): root: Node`
abbrev tree_schema : Fields
tree_schema =
    named (text "properties") (dict (named (text "root") (dict node_ref) end))
      (named (text "type") (str (text "object")) node_schema)

-- `_inline_refs` does not come to an end on a model that holds itself: 60 nested calls do not suffice.
recursive_test :
    schema_for_model 60 (pop_field (text "$ref") tree_schema) true
    ≡ raised (recursion_error (text "maximum recursion depth exceeded"))
unfolding schema_for_model pop_field text_in text_eq text put_field strip_prefix update_fields
recursive_test = refl
