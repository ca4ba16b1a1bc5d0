-- ===== src/Config/Loaded.antt =====
-- `perago/config.py`: what a program may rely on once `load_runtime_config` has returned.
use perago.Base.{
  ◌*◌, ◌<◌, true, false, Option, none, some, Text, text, [], ◌∷◌, ◌≡◌, arith, all, is_empty, strip,
}
use perago.Errors.{ok, >>=-eq-ok, Returns, Returns-eq}
use perago.Config.Environment.{Env, get, load_runtime_env}
use perago.Config.Dotenv.{read_dotenv}
use perago.Config.WorkerIds.{
  is_alphanumeric, keep_alphanumeric, validate_worker_id_prefix, default_worker_id_prefix,
  resolve_worker_id_prefix, prefix_from,
}
use perago.Config.Values.{
  parse_execution_mode, parse_duration, parse_optional_duration, parse_log_retention,
  parse_failure_reason_max_length,
}
use perago.Config.Sizes.{parse_log_file_max_size}
use perago.Config.Services.{parse_conductor_config, parse_lakefs_config, parse_metrics_config}
use perago.Config.Bounds.{
  Positive, IfAny, parse_duration-Positive, parse_optional_duration-Positive,
  parse_log_retention-Positive, parse_failure_reason_max_length-Positive,
}
use perago.Config.SizeBounds.{parse_log_file_max_size-Positive}
use perago.Config.Loading.{
  RuntimeConfig, Host, gc_ttl_name, gc_interval_name, force_kill_name, runtime_config, probe,
  load_runtime_config,
}

abbrev pub IsPrefix : Text → Type 0
IsPrefix p = (is_empty p ≡ false) × (all is_alphanumeric p ≡ true)

validate-IsPrefix : (t : Text) → Returns IsPrefix (validate_worker_id_prefix t)
unfolding validate_worker_id_prefix
validate-IsPrefix [] = tt
validate-IsPrefix (c ∷ t) = ground arith

default-IsPrefix :
    (module_target : Text) → Returns IsPrefix (default_worker_id_prefix module_target)
unfolding default_worker_id_prefix
default-IsPrefix module_target = validate-IsPrefix (keep_alphanumeric module_target)

pub resolve_worker_id_prefix-IsPrefix :
    (module_target : Text) (env : Env)
    → Returns IsPrefix (resolve_worker_id_prefix module_target env)
unfolding resolve_worker_id_prefix
resolve_worker_id_prefix-IsPrefix module_target env =
    from (get (text "PERAGO_WORKER_ID_PREFIX") env)
  where
    from : (v : Option Text) → Returns IsPrefix (prefix_from module_target v)
    from none = default-IsPrefix module_target
    from (some t) = validate-IsPrefix (strip t)

pub record IsUsable (c : RuntimeConfig) : Type 0 where
  pub log_file_max_size : 0 < c.log_file_max_size
  pub log_retention : 0 < c.log_retention
  pub worker_id_prefix : IsPrefix c.worker_id_prefix
  pub workspace_gc_ttl : 0 < c.workspace_gc_ttl
  pub workspace_gc_interval : 0 < c.workspace_gc_interval
  pub shutdown_force_kill_after : IfAny Positive c.shutdown_force_kill_after
  pub failure_reason_max_length : 0 < c.failure_reason_max_length

a_day : 0 < 24 * 3600
a_day = omega arith

an_hour : 0 < 3600
an_hour = omega arith

pub ok-injective {ℓ} : {A : Type ℓ} {a b : A} → ok a ≡ ok b → a ≡ b
ok-injective h = cc

runtime_config-IsUsable :
    (module_target temp_root : Text) (env : Env) (c : RuntimeConfig)
    → runtime_config module_target temp_root env ≡ ok c
    → IsUsable c
unfolding runtime_config
runtime_config-IsUsable module_target temp_root env c h =
    let (size, size_e, h1) = >>=-eq-ok (parse_log_file_max_size _) _ h in
    let (retention, retention_e, h2) = >>=-eq-ok (parse_log_retention _) _ h1 in
    let (prefix, prefix_e, h3) = >>=-eq-ok (resolve_worker_id_prefix module_target env) _ h2 in
    let (mode, mode_e, h4) = >>=-eq-ok (parse_execution_mode _) _ h3 in
    let (ttl, ttl_e, h5) = >>=-eq-ok (parse_duration _ (24 * 3600) gc_ttl_name) _ h4 in
    let (interval, interval_e, h6) = >>=-eq-ok (parse_duration _ 3600 gc_interval_name) _ h5 in
    let (kill, kill_e, h7) = >>=-eq-ok (parse_optional_duration _ force_kill_name) _ h6 in
    let (long, long_e, h8) = >>=-eq-ok (parse_failure_reason_max_length _) _ h7 in
    let (conductor, conductor_e, h9) = >>=-eq-ok (parse_conductor_config env) _ h8 in
    let (lakefs, lakefs_e, h10) = >>=-eq-ok (parse_lakefs_config env) _ h9 in
    let (metrics, metrics_e, h11) = >>=-eq-ok (parse_metrics_config env) _ h10 in
    rw (← ok-injective h11) (record {
      log_file_max_size = Returns-eq Positive _ (parse_log_file_max_size-Positive _) size_e;
      log_retention = Returns-eq Positive _ (parse_log_retention-Positive _) retention_e;
      worker_id_prefix =
          Returns-eq IsPrefix _ (resolve_worker_id_prefix-IsPrefix module_target env) prefix_e;
      workspace_gc_ttl = Returns-eq Positive _ (parse_duration-Positive _ _ _ a_day) ttl_e;
      workspace_gc_interval =
          Returns-eq Positive _ (parse_duration-Positive _ _ _ an_hour) interval_e;
      shutdown_force_kill_after =
          Returns-eq (IfAny Positive) _ (parse_optional_duration-Positive _ _) kill_e;
      failure_reason_max_length =
          Returns-eq Positive _ (parse_failure_reason_max_length-Positive _) long_e;
    })

pub record IsProbed (host : Host) (c : RuntimeConfig) : Type 0 where
  pub workspace_root : host.check_writable_root c.workspace_root ≡ ok tt
  pub log_root : host.check_writable_root c.log_root ≡ ok tt

probe-IsProbed : (host : Host) (c : RuntimeConfig) → probe true host c ≡ ok tt → IsProbed host c
unfolding probe
probe-IsProbed host c h =
    let (done, first, second) = >>=-eq-ok (host.check_writable_root c.workspace_root) _ h in
    record { workspace_root = first; log_root = second }

-- A configuration that is loaded, with its roots probed, has a positive log size, retention,
-- collection interval, time to live and failure reason length, a positive shutdown deadline if it
-- has one, and a worker prefix of ASCII letters and digits that is not empty; both of its roots
-- were found writable.
pub load_runtime_config-IsUsable :
    (host : Host) (module_target : Text) (dotenv : Option Text) (process_env : Env)
    (c : RuntimeConfig)
    → load_runtime_config host module_target dotenv process_env true ≡ ok c
    → IsUsable c × IsProbed host c
unfolding load_runtime_config
load_runtime_config-IsUsable host module_target dotenv process_env c h =
    let env = load_runtime_env process_env (read_dotenv dotenv) in
    let (config, loaded, rest) = >>=-eq-ok (runtime_config module_target host.temp_root env) _ h in
    let (done, probed, last) = >>=-eq-ok (probe true host config) _ rest in
    rw (← ok-injective last) (
      runtime_config-IsUsable module_target host.temp_root env config loaded,
      probe-IsProbed host config probed,
    )
