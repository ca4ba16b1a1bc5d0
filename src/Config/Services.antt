-- ===== src/Config/Services.antt =====
-- `perago/config.py`: the configuration of Conductor, LakeFS and the metrics exporter.
use perago.Base.{ℕ, Option, none, some, Text, text, List, [], ◌∷◌, ◌++◌}
use perago.Errors.{Outcome, ok, ◌>>=◌, ◌>>◌}
use perago.Config.Environment.{Env, get, env_optional, config_error}
use perago.Config.Values.{
  Compression, parse_metrics_compression, parse_perago_instance_id, parse_metrics_timeout_millis,
  parse_positive_millis,
}

pub record ConductorConfig : Type 0 where
  pub server_url : Text

pub record LakeFsConfig : Type 0 where
  pub endpoint_url : Text
  pub access_key_id : Text
  pub secret_access_key : Text

pub record MetricsConfig : Type 0 where
  pub endpoint : Text
  pub instance_id : Option Text
  pub compression : Option Compression
  pub timeout_millis : Option ℕ
  pub export_interval_millis : Option ℕ

abbrev pub conductor_from : Option Text → Option ConductorConfig
conductor_from none = none
conductor_from (some server_url) = some (record { server_url = server_url })

unfoldable pub parse_conductor_config : Env → Outcome (Option ConductorConfig)
unfolding env_optional
parse_conductor_config env = do
  server_url ← env_optional env (text "CONDUCTOR_SERVER_URL")
  ok (conductor_from server_url)

abbrev pub endpoint_name : Text
endpoint_name = text "LAKECTL_SERVER_ENDPOINT_URL"

abbrev pub key_id_name : Text
key_id_name = text "LAKECTL_CREDENTIALS_ACCESS_KEY_ID"

abbrev pub secret_name : Text
secret_name = text "LAKECTL_CREDENTIALS_SECRET_ACCESS_KEY"

-- the name of a value that is not there, in front of the others
abbrev pub missing_name : Text → Option Text → List Text → List Text
missing_name name none rest = name ∷ rest
missing_name name (some value) rest = rest

-- `', '.join(names)`
unfoldable pub comma_join : List Text → Text
comma_join [] = []
comma_join (name ∷ []) = name
comma_join (name ∷ next ∷ rest) = name ++ text ", " ++ comma_join (next ∷ rest)

unfoldable pub lakefs_from :
    (endpoint_url access_key_id secret_access_key : Option Text) → Outcome (Option LakeFsConfig)
unfolding comma_join
lakefs_from none none none = ok none
lakefs_from (some endpoint_url) (some access_key_id) (some secret_access_key) = ok (
    some (record {
      endpoint_url = endpoint_url;
      access_key_id = access_key_id;
      secret_access_key = secret_access_key;
    }))
lakefs_from endpoint_url access_key_id secret_access_key =
    let missing =
      missing_name endpoint_name endpoint_url
        (missing_name key_id_name access_key_id (missing_name secret_name secret_access_key [])) in
    config_error (text "LakeFS config is incomplete; missing " ++ comma_join missing)

unfoldable pub parse_lakefs_config : Env → Outcome (Option LakeFsConfig)
unfolding env_optional lakefs_from
parse_lakefs_config env = do
  endpoint_url ← env_optional env endpoint_name
  access_key_id ← env_optional env key_id_name
  secret_access_key ← env_optional env secret_name
  lakefs_from endpoint_url access_key_id secret_access_key

abbrev pub unsupported_names : List Text
unsupported_names =
    text "OTEL_EXPORTER_OTLP_METRICS_HEADERS"
    ∷ text "OTEL_SERVICE_NAME"
    ∷ text "OTEL_RESOURCE_ATTRIBUTES"
    ∷ text "OTEL_EXPORTER_OTLP_ENDPOINT"
    ∷ []

abbrev pub refuse_value : Text → Option Text → Outcome (Unit {0})
refuse_value name none = ok tt
refuse_value name (some value) =
    config_error (name ++ text " is not supported by Perago metrics v1")

abbrev pub refuse_names : Env → List Text → Outcome (Unit {0})
refuse_names env [] = ok tt
refuse_names env (name ∷ rest) =
    (env_optional env name >>= refuse_value name) >> refuse_names env rest

abbrev pub timeout_name : Text
timeout_name = text "OTEL_EXPORTER_OTLP_METRICS_TIMEOUT"

abbrev pub interval_name : Text
interval_name = text "OTEL_METRIC_EXPORT_INTERVAL"

abbrev pub metrics_from : Env → Option Text → Outcome (Option MetricsConfig)
metrics_from env none = ok none
metrics_from env (some endpoint) = do
  instance_id ← parse_perago_instance_id (get (text "PERAGO_INSTANCE_ID") env)
  compression ← parse_metrics_compression (get (text "OTEL_EXPORTER_OTLP_METRICS_COMPRESSION") env)
  timeout_millis ← parse_metrics_timeout_millis (get timeout_name env) timeout_name
  export_interval_millis ← parse_positive_millis (get interval_name env) interval_name
  ok (
      some (record {
        endpoint = endpoint;
        instance_id = instance_id;
        compression = compression;
        timeout_millis = timeout_millis;
        export_interval_millis = export_interval_millis;
      }))

unfoldable pub parse_metrics_config : Env → Outcome (Option MetricsConfig)
unfolding env_optional parse_perago_instance_id parse_metrics_compression
    parse_metrics_timeout_millis parse_positive_millis
parse_metrics_config env = do
  refuse_names env unsupported_names
  endpoint ← env_optional env (text "OTEL_EXPORTER_OTLP_METRICS_ENDPOINT")
  metrics_from env endpoint
