-- ===== src/Tasks/Loading.antt =====
-- `perago/task.py`: the registry that the decorator fills, and load_module_task.
use perago.Base.{
  ℕ, ◌==◌, Bool, false, ◌||◌, ◌&&◌, not, Text, text, text_eq, List, [], ◌∷◌, ◌++◌, any, is_empty,
  has_char, split, sorted, if◌then◌else◌,
}
use perago.Errors.{Outcome, ok, ◌>>=◌, ◌>>◌}
use perago.Guards.{slash, backslash}
use perago.Config.Services.{comma_join}
use perago.Tasks.{
  Declaration, TaskDefinition, Function, definition_error, refuse_if, build_task_definition,
}

-- One entry of `_REGISTERED_TASKS`: the identity of the definition, the module of its function, and
-- the definition.
pub record Registered : Type 0 where
  pub identity : ℕ
  pub fn_module : Text
  pub definition : TaskDefinition

-- The registry, by the module of the decorated function.
abbrev pub Registry : Type 0
Registry = Text → List Registered

-- What the decorator made by `task` does: `unsupported` are the names of the other keyword arguments.
unfoldable pub decorate :
    (unsupported : List Text)
    → Declaration
    → Function
    → (fn_module : Text) (identity : ℕ) → Registry
    → Outcome Registry
unfolding build_task_definition
decorate [] d fn fn_module identity registry = do
  definition ← build_task_definition fn d
  ok λ m.
      if text_eq m fn_module
      then registry m
        ++ record { identity = identity; fn_module = fn_module; definition = definition } ∷ []
      else registry m
decorate (name ∷ names) d fn fn_module identity registry =
    definition_error
      (text "unsupported task decorator fields: " ++ comma_join (sorted (name ∷ names)))

-- `text.endswith(suffix)`
unfoldable pub ends_with : (suffix : Text) → Text → Bool
ends_with suffix [] = is_empty suffix
ends_with suffix (c ∷ rest) = text_eq suffix (c ∷ rest) || ends_with suffix rest

-- `task_id not in seen_ids`
abbrev pub seen_id : (identity : ℕ) → List ℕ → Bool
seen_id identity [] = false
seen_id identity (x ∷ xs) = identity == x || seen_id identity xs

-- The entries whose function is of the module, each identity once.
unfoldable pub unique_tasks :
    (module_name : Text) (seen_ids : List ℕ) → List Registered → List Registered
unique_tasks module_name seen_ids [] = []
unique_tasks module_name seen_ids (r ∷ rest) =
    let skipped = unique_tasks module_name seen_ids rest in
    let kept = unique_tasks module_name (r.identity ∷ seen_ids) rest in
    if text_eq r.fn_module module_name && not (seen_id r.identity seen_ids)
    then r ∷ kept
    else skipped

abbrev pub only_task : (module_target : Text) → List Registered → Outcome TaskDefinition
only_task module_target [] =
    definition_error (module_target ++ text " does not declare a Perago task")
only_task module_target (r ∷ []) = ok r.definition
only_task module_target (r ∷ q ∷ rest) =
    definition_error (module_target ++ text " declares more than one Perago task")

-- `is_identifier` is `str.isidentifier`.
module _ (is_identifier : Text → Bool) where
  unfoldable pub validate_module_target : Text → Outcome (Unit {0})
  unfolding ends_with
  validate_module_target module_target =
      refuse_if
        (has_char slash module_target
          || has_char backslash module_target
          || has_char b':' module_target
          || ends_with (text ".py") module_target
          || is_empty module_target
          || any (λ segment. not (is_identifier segment)) (split b'.' module_target))
        (text "module target must be a Python import path, not a file path or object path")

  -- `import_module` runs the module, whose decorators fill the registry, and gives its name.
  unfoldable pub load_module_task :
      (import_module : Text → Outcome (Text × Registry)) (module_target : Text)
      → Outcome TaskDefinition
  unfolding validate_module_target unique_tasks
  load_module_task import_module module_target = do
    validate_module_target module_target
    (module_name, registry) ← import_module module_target
    only_task module_target (unique_tasks module_name [] (registry module_name))
