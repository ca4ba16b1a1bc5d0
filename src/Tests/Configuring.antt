-- ===== src/Tests/Configuring.antt =====
-- The configuration's theorems at concrete inputs.
use perago.Base.{
  ◌*◌, none, some, text, [], ◌∷◌, ◌≡◌, ◌↔◌, refl, strip, is_blank, distinct, text_eq, read_decimal,
  decimal, is_positive_number,
}
use perago.Errors.{ok, raised, other_error}
use perago.Config.Environment.{Env, get}
use perago.Config.Values.{
  process_mode, split_last, parse_duration, parse_optional_duration, parse_log_retention,
  parse_execution_mode, parse_failure_reason_max_length,
}
use perago.Config.Sizes.{parse_log_file_max_size}
use perago.Config.Durations.{IsDuration, parse_duration_iff}
use perago.Config.Dotenv.{is_line_break, read_dotenv}
use perago.Config.RoundTrip.{render, is_printable, read_dotenv-render}
use perago.Config.WorkerIds.{resolve_worker_id_prefix}
use perago.Config.Services.{parse_conductor_config, parse_lakefs_config, parse_metrics_config}
use perago.Config.Loading.{RuntimeConfig, Host, load_runtime_config}
use perago.Config.Loaded.{IsUsable, IsProbed, load_runtime_config-IsUsable}

parse_duration_iff_example :
    (parse_duration (some (text " 5m ")) 1 (text "TTL") ≡ ok 300)
    ↔ IsDuration (strip (text " 5m ")) 300
unfolding is_blank text
parse_duration_iff_example = parse_duration_iff (text " 5m ") (text "TTL") 1 300 refl

-- A long s is taken for a unit, and stands for days.
long_s : parse_duration (some (b'5' ∷ 383 ∷ [])) 1 (text "TTL") ≡ ok (5 * 86400)
unfolding parse_duration is_positive_number read_decimal
long_s = refl

-- A Kelvin sign is taken for a K, and is no key of the units.
kelvin :
    parse_log_file_max_size (some (b'5' ∷ 8490 ∷ b'B' ∷ []))
    ≡ raised (other_error (39 ∷ 8490 ∷ 66 ∷ 39 ∷ []))
unfolding parse_log_file_max_size split_last read_decimal text
kelvin = refl

half_a_gigabyte : parse_log_file_max_size (some (text "0.5 gb")) ≡ ok 536870912
unfolding parse_log_file_max_size text split_last read_decimal decimal
half_a_gigabyte = refl

abbrev two_names : Env
two_names = (text "A_1", text " it's \"so\" ") ∷ (text "B", []) ∷ []

read_dotenv-render_example : read_dotenv (some (render two_names)) ≡ two_names
unfolding is_printable distinct text is_line_break text_eq
read_dotenv-render_example = read_dotenv-render two_names refl refl

abbrev any_host : Host
any_host = record { temp_root = text "/tmp/perago"; check_writable_root = λ path. ok tt }

abbrev demo_env : Env
demo_env =
    (text "PERAGO_WORKSPACE_GC_TTL", text "2h")
    ∷ (text "PERAGO_LOG_FILE_MAX_SIZE", text "1KB")
    ∷ (text "PERAGO_SHUTDOWN_FORCE_KILL_AFTER", text "30s")
    ∷ []

abbrev demo_config : RuntimeConfig
demo_config = record {
  workspace_root = text "/tmp/perago/workspaces";
  log_root = text "/tmp/perago/logs";
  log_file_max_size = 1024;
  log_retention = 2592000;
  worker_id_prefix = text "mydemo";
  execution_mode = process_mode;
  workspace_gc_ttl = 7200;
  workspace_gc_interval = 3600;
  shutdown_force_kill_after = some 30;
  failure_reason_max_length = 500;
  conductor = none;
  lakefs = none;
  metrics = none;
}

load_runtime_config-IsUsable_example : IsUsable demo_config × IsProbed any_host demo_config
unfolding load_runtime_config text parse_log_file_max_size get text_eq split_last read_decimal
    parse_log_retention resolve_worker_id_prefix parse_execution_mode parse_duration
    is_positive_number parse_optional_duration parse_failure_reason_max_length
    parse_conductor_config parse_lakefs_config parse_metrics_config decimal
load_runtime_config-IsUsable_example =
    load_runtime_config-IsUsable any_host (text "my.demo") none demo_env demo_config refl
