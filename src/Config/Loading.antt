-- ===== src/Config/Loading.antt =====
-- `perago/config.py`: `load_runtime_config`.
use perago.Base.{ℕ, ◌*◌, Bool, true, false, Option, none, some, Text, text, ◌++◌}
use perago.Errors.{Outcome, ok, ◌>>=◌, ◌>>◌}
use perago.Config.Environment.{Env, get, load_runtime_env}
use perago.Config.Dotenv.{read_dotenv}
use perago.Config.Values.{
  ExecutionMode, parse_duration, parse_optional_duration, parse_log_retention, parse_execution_mode,
  parse_failure_reason_max_length,
}
use perago.Config.Sizes.{parse_log_file_max_size}
use perago.Config.WorkerIds.{resolve_worker_id_prefix}
use perago.Config.Services.{
  ConductorConfig, LakeFsConfig, MetricsConfig, parse_conductor_config, parse_lakefs_config,
  parse_metrics_config,
}

-- Durations are in seconds.
pub record RuntimeConfig : Type 0 where
  pub workspace_root : Text
  pub log_root : Text
  pub log_file_max_size : ℕ
  pub log_retention : ℕ
  pub worker_id_prefix : Text
  pub execution_mode : ExecutionMode
  pub workspace_gc_ttl : ℕ
  pub workspace_gc_interval : ℕ
  pub shutdown_force_kill_after : Option ℕ
  pub failure_reason_max_length : ℕ
  pub conductor : Option ConductorConfig
  pub lakefs : Option LakeFsConfig
  pub metrics : Option MetricsConfig

-- `env.get(name, default)`
abbrev pub or_default : Text → Option Text → Text
or_default default none = default
or_default default (some value) = value

-- What the program finds outside: `tempfile.gettempdir() / "perago"`, and whether a root can be
-- written, which ends in a `RuntimeConfigError` otherwise.
pub record Host : Type 0 where
  pub temp_root : Text
  pub check_writable_root : Text → Outcome (Unit {0})

abbrev pub gc_ttl_name : Text
gc_ttl_name = text "PERAGO_WORKSPACE_GC_TTL"

abbrev pub gc_interval_name : Text
gc_interval_name = text "PERAGO_WORKSPACE_GC_INTERVAL"

abbrev pub force_kill_name : Text
force_kill_name = text "PERAGO_SHUTDOWN_FORCE_KILL_AFTER"

-- the call of `RuntimeConfig`, its arguments in order
unfoldable pub runtime_config : (module_target temp_root : Text) → Env → Outcome RuntimeConfig
runtime_config module_target temp_root env = do
  log_file_max_size ← parse_log_file_max_size (get (text "PERAGO_LOG_FILE_MAX_SIZE") env)
  log_retention ← parse_log_retention (get (text "PERAGO_LOG_RETENTION") env)
  worker_id_prefix ← resolve_worker_id_prefix module_target env
  execution_mode ← parse_execution_mode (get (text "PERAGO_EXECUTION_MODE") env)
  workspace_gc_ttl ← parse_duration (get gc_ttl_name env) (24 * 3600) gc_ttl_name
  workspace_gc_interval ← parse_duration (get gc_interval_name env) 3600 gc_interval_name
  shutdown_force_kill_after ← parse_optional_duration (get force_kill_name env) force_kill_name
  failure_reason_max_length ←
      parse_failure_reason_max_length (get (text "PERAGO_FAILURE_REASON_MAX_LENGTH") env)
  conductor ← parse_conductor_config env
  lakefs ← parse_lakefs_config env
  metrics ← parse_metrics_config env
  ok (record {
    workspace_root =
        or_default (temp_root ++ text "/workspaces") (get (text "PERAGO_WORKSPACE_ROOT") env);
    log_root = or_default (temp_root ++ text "/logs") (get (text "PERAGO_LOG_ROOT") env);
    log_file_max_size = log_file_max_size;
    log_retention = log_retention;
    worker_id_prefix = worker_id_prefix;
    execution_mode = execution_mode;
    workspace_gc_ttl = workspace_gc_ttl;
    workspace_gc_interval = workspace_gc_interval;
    shutdown_force_kill_after = shutdown_force_kill_after;
    failure_reason_max_length = failure_reason_max_length;
    conductor = conductor;
    lakefs = lakefs;
    metrics = metrics;
  })

unfoldable pub probe : Bool → Host → RuntimeConfig → Outcome (Unit {0})
probe false host config = ok tt
probe true host config =
    host.check_writable_root config.workspace_root >> host.check_writable_root config.log_root

-- `dotenv` is the text of `.env`, if the file exists.
unfoldable pub load_runtime_config :
    Host
    → (module_target : Text) (dotenv : Option Text) (process_env : Env) (probe_roots : Bool)
    → Outcome RuntimeConfig
unfolding runtime_config probe load_runtime_env read_dotenv
load_runtime_config host module_target dotenv process_env probe_roots = do
  config ←
      runtime_config module_target host.temp_root
        (load_runtime_env process_env (read_dotenv dotenv))
  probe probe_roots host config
  ok config
