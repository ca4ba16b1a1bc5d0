-- ===== src/Supervisor.antt =====
-- `perago/supervisor.py`: restart delays and the specifications of the child processes.
pub mod Names
pub mod Loop
pub mod Tracks
pub mod Runs
pub mod Lock
pub mod Taking
pub mod Processes
pub mod Changes
pub mod Exclusion
pub mod Restarts
use perago.Base.{
  ℕ, zero, suc, ◌+◌, ◌==◌, Bool, true, false, Option, none, some, Text, text, List, [], ◌∷◌, ◌++◌,
  if◌then◌else◌,
}
use perago.Errors.{Outcome, ok, raised, other_error, ◌>>=◌}
use perago.Config.Environment.{Env, get, config_error}
use perago.Config.WorkerIds.{child_environment}

-- `RESTART_BACKOFF_SECONDS[restart_count]`, if there is such an entry
abbrev pub backoff_entry : List ℕ → (restart_count : ℕ) → Option ℕ
backoff_entry [] n = none
backoff_entry (delay ∷ rest) zero = some delay
backoff_entry (delay ∷ rest) (suc n) = backoff_entry rest n

abbrev pub backoff_table : List ℕ
backoff_table = 1 ∷ 2 ∷ 4 ∷ 8 ∷ 16 ∷ []

abbrev pub or_longest : Option ℕ → ℕ
or_longest none = 30
or_longest (some delay) = delay

-- A count is never negative here: the supervisor starts at zero and adds one.
unfoldable pub restart_backoff_seconds : (restart_count : ℕ) → ℕ
restart_backoff_seconds n = or_longest (backoff_entry backoff_table n)

pub record WorkerChildSpec : Type 0 where
  pub slot : ℕ
  pub env : Env

-- `self.env["PERAGO_WORKER_ID"]`, a `KeyError` if it is not there
abbrev pub env_item : (name : Text) → Option Text → Outcome Text
env_item name none = raised (other_error (39 ∷ name ++ 39 ∷ []))
env_item name (some value) = ok value

unfoldable pub worker_id : WorkerChildSpec → Outcome Text
worker_id spec = env_item (text "PERAGO_WORKER_ID") (get (text "PERAGO_WORKER_ID") spec.env)

-- the specifications of `count` slots from `index` on
abbrev pub specs_from :
    Env → (module_target : Text) (index count : ℕ) → Outcome (List WorkerChildSpec)
specs_from base_env module_target index zero = ok []
specs_from base_env module_target index (suc count) = do
  env ← child_environment base_env module_target index
  rest ← specs_from base_env module_target (index + 1) count
  ok (record { slot = index; env = env } ∷ rest)

unfoldable pub worker_child_specs :
    Env → (module_target : Text) (process_count : ℕ) → Outcome (List WorkerChildSpec)
worker_child_specs base_env module_target process_count =
    if process_count == 0
    then config_error (text "worker process count must be at least 1")
    else specs_from base_env module_target 1 process_count

-- `spec.worker_id` of every specification
unfoldable pub worker_ids : List WorkerChildSpec → Outcome (List Text)
unfolding worker_id
worker_ids [] = ok []
worker_ids (spec ∷ rest) = do id ← worker_id spec; ids ← worker_ids rest; ok (id ∷ ids)

-- `_broker_environment`
unfoldable pub broker_environment : (worker_id_prefix : Text) → Env
broker_environment worker_id_prefix =
    (text "PERAGO_WORKER_ID_PREFIX", worker_id_prefix)
    ∷ (text "PERAGO_WORKER_ID", worker_id_prefix ++ text "Broker")
    ∷ []
