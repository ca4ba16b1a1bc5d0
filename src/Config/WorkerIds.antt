-- ===== src/Config/WorkerIds.antt =====
-- `perago/config.py`: the names of the workers.
use perago.Base.{
  ℕ, ltb, Option, none, some, Text, text, [], ◌∷◌, ◌++◌, all, length, is_empty, decimal, strip,
  if◌then◌else◌,
}
use perago.Errors.{Outcome, ok, ◌>>=◌}
pub use perago.Segments.{is_alphanumeric}
use perago.Config.Environment.{Env, get, put, config_error}

unfoldable pub validate_worker_id_prefix : Text → Outcome Text
validate_worker_id_prefix value =
    if is_empty value
    then config_error (text "PERAGO_WORKER_ID_PREFIX must not be empty")
    else if all is_alphanumeric value
    then ok value
    else config_error (text "PERAGO_WORKER_ID_PREFIX must contain only ASCII letters and digits")

-- `re.sub(r"[^A-Za-z0-9]+", "", module_target)`
unfoldable pub keep_alphanumeric : Text → Text
keep_alphanumeric [] = []
keep_alphanumeric (c ∷ rest) =
    let later = keep_alphanumeric rest in if is_alphanumeric c then c ∷ later else later

unfoldable pub default_worker_id_prefix : (module_target : Text) → Outcome Text
unfolding keep_alphanumeric validate_worker_id_prefix
default_worker_id_prefix module_target = validate_worker_id_prefix (keep_alphanumeric module_target)

abbrev pub prefix_from : (module_target : Text) → Option Text → Outcome Text
prefix_from module_target none = default_worker_id_prefix module_target
prefix_from module_target (some configured) = validate_worker_id_prefix (strip configured)

unfoldable pub resolve_worker_id_prefix : (module_target : Text) → Env → Outcome Text
unfolding default_worker_id_prefix validate_worker_id_prefix
resolve_worker_id_prefix module_target env =
    prefix_from module_target (get (text "PERAGO_WORKER_ID_PREFIX") env)

-- `f"{index:04d}"`
unfoldable pub padded : ℕ → Text
padded index =
    let digits = decimal index in
    if ltb (length digits) 2
    then 48 ∷ 48 ∷ 48 ∷ digits
    else if ltb (length digits) 3
    then 48 ∷ 48 ∷ digits
    else if ltb (length digits) 4
    then 48 ∷ digits
    else digits

unfoldable pub worker_id_for_child : (prefix : Text) (index : ℕ) → Text
unfolding padded
worker_id_for_child prefix index = prefix ++ padded index

unfoldable pub child_environment : Env → (module_target : Text) (index : ℕ) → Outcome Env
unfolding resolve_worker_id_prefix worker_id_for_child
child_environment base_env module_target index = do
  prefix ← resolve_worker_id_prefix module_target base_env
  ok (
      put (text "PERAGO_WORKER_ID") (worker_id_for_child prefix index)
        (put (text "PERAGO_WORKER_ID_PREFIX") prefix base_env))

abbrev pub process_worker_id : (module_target : Text) (pid : ℕ) → Outcome Text
process_worker_id module_target pid = do
  prefix ← default_worker_id_prefix module_target
  ok (prefix ++ text "-pid-" ++ decimal pid)

abbrev pub worker_id_from : (module_target : Text) (pid : ℕ) → Option Text → Outcome Text
worker_id_from module_target pid none = process_worker_id module_target pid
worker_id_from module_target pid (some configured) =
    if is_empty configured then process_worker_id module_target pid else ok configured

-- `pid` is `os.getpid()`.
unfoldable pub resolve_worker_id : (module_target : Text) → Env → (pid : ℕ) → Outcome Text
unfolding default_worker_id_prefix
resolve_worker_id module_target env pid =
    worker_id_from module_target pid (get (text "PERAGO_WORKER_ID") env)
