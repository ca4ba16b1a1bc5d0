-- ===== src/Config/Environment.antt =====
-- `perago/config.py`: environments, which are Python dictionaries from texts to texts.
use perago.Base.{
  Option, none, some, Text, text, text_eq, List, [], ◌∷◌, ◌++◌, strip, is_blank, if◌then◌else◌,
}
use perago.Errors.{Outcome, ok, raised, runtime_config_error}

-- `dict[str, str]`, in insertion order
abbrev pub Env : Type 0
Env = List (Text × Text)

-- `env.get(name)`
unfoldable pub get : Text → Env → Option Text
get name [] = none
get name ((key, value) ∷ rest) =
    let later = get name rest in if text_eq name key then some value else later

-- `env[name] = value`
unfoldable pub put : Text → Text → Env → Env
put name value [] = (name, value) ∷ []
put name value ((key, old) ∷ rest) =
    let later = put name value rest in
    if text_eq name key then (key, value) ∷ rest else (key, old) ∷ later

-- `env.update(others)`
unfoldable pub update : Env → Env → Env
unfolding put
update env [] = env
update env ((key, value) ∷ rest) = update (put key value env) rest

unfoldable pub load_runtime_env : (process_env dotenv_env : Env) → Env
unfolding update
load_runtime_env process_env dotenv_env = update dotenv_env process_env

-- `None if value is None or value.strip() == "" else value.strip()`
unfoldable pub given : Option Text → Option Text
unfolding is_blank
given none = none
given (some value) = if is_blank value then none else some (strip value)

abbrev pub config_error {ℓ} : {A : Type ℓ} → Text → Outcome A
config_error m = raised (runtime_config_error m)

-- what `_env_optional` makes of a value that is not blank
abbrev pub unless_placeholder : Text → Option Text → Outcome (Option Text)
unless_placeholder name none = ok none
unless_placeholder name (some value) =
    if text_eq value (text "replace-me")
    then config_error (name ++ text " must be replaced with a real value")
    else ok (some value)

unfoldable pub env_optional : Env → Text → Outcome (Option Text)
unfolding given
env_optional env name = unless_placeholder name (given (get name env))
