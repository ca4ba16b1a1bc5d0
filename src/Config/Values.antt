-- ===== src/Config/Values.antt =====
-- `perago/config.py`: durations, counts and words of the configuration.
use perago.Base.{
  ℕ, ◌+◌, ◌*◌, ◌/◌, ◌^◌, ◌==◌, ltb, leb, Bool, ◌&&◌, ◌||◌, not, Option, none, some, Text, text,
  text_eq, [], ◌∷◌, ◌++◌, map, all, length, is_empty, is_digit, decimal, read_decimal,
  is_positive_number, if◌then◌else◌,
}
use perago.Errors.{value_error, other_error, Outcome, ok, raised, ◌>>=◌}
use perago.Guards.{is_letter}
use perago.Config.Environment.{given, config_error}

-- `int(digits)`: Python refuses more than 4300 digits.
unfoldable pub parse_int : Text → Outcome ℕ
parse_int digits =
    if leb (length digits) 4300
    then ok (read_decimal digits)
    else raised (
        value_error (
          text "Exceeds the limit (4300 digits) for integer string conversion: value has "
          ++ decimal (length digits)
          ++ text " digits; use sys.set_int_max_str_digits() to increase the limit"))

abbrev pub max_days : ℕ
max_days = 999999999

-- `timedelta(seconds=seconds)`, an `OverflowError` if it is too long
unfoldable pub timedelta : (seconds : ℕ) → Outcome ℕ
timedelta seconds =
    let days = seconds / 86400 in
    if leb days max_days
    then ok seconds
    else if ltb days (2 ^ 31)
    then raised
        (other_error (text "days=" ++ decimal days ++ text "; must have magnitude <= 999999999"))
    else raised (other_error (text "Python int too large to convert to C int"))

-- `str.lower` as far as a comparison with ASCII text sees it: the Kelvin sign is the only other
-- character whose lower case is an ASCII letter.
abbrev pub lower_char : ℕ → ℕ
lower_char c = if leb 65 c && leb c 90 then c + 32 else if c == 8490 then 107 else c

abbrev pub lower : Text → Text
lower t = map lower_char t

-- `[smhd]` with `re.IGNORECASE`, which takes the long s for an s
unfoldable pub is_duration_unit : ℕ → Bool
is_duration_unit c =
    let l = lower_char c in l == b's' || l == b'm' || l == b'h' || l == b'd' || c == 383

abbrev pub behind : ℕ → Option (Text × ℕ) → Option (Text × ℕ)
behind c none = none
behind c (some (front, last)) = some (c ∷ front, last)

-- The text in front of the last character, and that character.
unfoldable pub split_last : Text → Option (Text × ℕ)
split_last [] = none
split_last (c ∷ []) = some ([], c)
split_last (c ∷ d ∷ rest) = behind c (split_last (d ∷ rest))

abbrev pub unit_seconds : (unit : ℕ) → ℕ
unit_seconds unit =
    if unit == b's' then 1 else if unit == b'm' then 60 else if unit == b'h' then 3600 else 86400

abbrev pub duration_of : (name digits : Text) (unit : ℕ) → Outcome ℕ
duration_of name digits unit =
    if is_positive_number digits && is_duration_unit unit
    then (do amount ← parse_int digits; timedelta (amount * unit_seconds (lower_char unit)))
    else config_error
        (name ++ text " must be a positive duration such as '30s', '5m', '1h', or '24h'")

abbrev pub duration_at : (name : Text) → Option (Text × ℕ) → Outcome ℕ
duration_at name none =
    config_error (name ++ text " must be a positive duration such as '30s', '5m', '1h', or '24h'")
duration_at name (some (digits, unit)) = duration_of name digits unit

abbrev pub duration_from : (default : ℕ) (name : Text) → Option Text → Outcome ℕ
duration_from default name none = ok default
duration_from default name (some value) = duration_at name (split_last value)

unfoldable pub parse_duration : Option Text → (default : ℕ) (name : Text) → Outcome ℕ
unfolding given split_last parse_int timedelta is_duration_unit
parse_duration value default name = duration_from default name (given value)

abbrev pub optional_from : (name : Text) → Option Text → Option Text → Outcome (Option ℕ)
optional_from name value none = ok none
optional_from name value (some _) = do seconds ← parse_duration value 1 name; ok (some seconds)

unfoldable pub parse_optional_duration : Option Text → (name : Text) → Outcome (Option ℕ)
unfolding given
parse_optional_duration value name = optional_from name value (given value)

abbrev pub default_log_retention : ℕ
default_log_retention = 30 * 86400

abbrev pub retention_at : Option (Text × ℕ) → Outcome ℕ
retention_at none =
    config_error (text "PERAGO_LOG_RETENTION must be a positive day count such as '7d' or '30d'")
retention_at (some (digits, unit)) =
    if is_positive_number digits && lower_char unit == b'd'
    then (do days ← parse_int digits; timedelta (days * 86400))
    else config_error
        (text "PERAGO_LOG_RETENTION must be a positive day count such as '7d' or '30d'")

abbrev pub retention_from : Option Text → Outcome ℕ
retention_from none = ok default_log_retention
retention_from (some value) = retention_at (split_last value)

unfoldable pub parse_log_retention : Option Text → Outcome ℕ
unfolding given split_last parse_int timedelta
parse_log_retention value = retention_from (given value)

pub data ExecutionMode : Type 0 where
  process_mode thread_mode : ExecutionMode

abbrev pub mode_from : Option Text → Outcome ExecutionMode
mode_from none = ok process_mode
mode_from (some value) =
    if text_eq (lower value) (text "process")
    then ok process_mode
    else if text_eq (lower value) (text "thread")
    then ok thread_mode
    else config_error (text "PERAGO_EXECUTION_MODE must be either 'process' or 'thread'")

unfoldable pub parse_execution_mode : Option Text → Outcome ExecutionMode
unfolding given
parse_execution_mode value = mode_from (given value)

-- `re.fullmatch(r"[0-9]+", ...)`, `int(...)` and the test that it is not zero
abbrev pub positive_integer : (not_digits not_positive : Text) → Text → Outcome ℕ
positive_integer not_digits not_positive value =
    if not (is_empty value) && all is_digit value
    then (do parsed ← parse_int value; if parsed == 0 then config_error not_positive else ok parsed)
    else config_error not_digits

abbrev pub reason_length_from : Option Text → Outcome ℕ
reason_length_from none = ok 500
reason_length_from (some value) =
    positive_integer (text "PERAGO_FAILURE_REASON_MAX_LENGTH must be a positive integer")
      (text "PERAGO_FAILURE_REASON_MAX_LENGTH must be greater than zero") value

unfoldable pub parse_failure_reason_max_length : Option Text → Outcome ℕ
unfolding given parse_int
parse_failure_reason_max_length value = reason_length_from (given value)

abbrev pub millis_from : (name : Text) → Option Text → Outcome (Option ℕ)
millis_from name none = ok none
millis_from name (some value) = do
  parsed ←
      positive_integer (name ++ text " must be a positive integer number of milliseconds")
        (name ++ text " must be greater than zero") value
  ok (some parsed)

unfoldable pub parse_metrics_timeout_millis : Option Text → (name : Text) → Outcome (Option ℕ)
unfolding given parse_int
parse_metrics_timeout_millis value name = millis_from name (given value)

unfoldable pub parse_positive_millis : Option Text → (name : Text) → Outcome (Option ℕ)
unfolding given parse_int
parse_positive_millis value name = millis_from name (given value)

pub data Compression : Type 0 where
  gzip : Compression

abbrev pub compression_from : Option Text → Outcome (Option Compression)
compression_from none = ok none
compression_from (some value) =
    if text_eq (lower value) (text "gzip")
    then ok (some gzip)
    else config_error (text "OTEL_EXPORTER_OTLP_METRICS_COMPRESSION must be 'gzip'")

unfoldable pub parse_metrics_compression : Option Text → Outcome (Option Compression)
unfolding given
parse_metrics_compression value = compression_from (given value)

-- `[A-Za-z0-9._-]`
abbrev pub is_instance_char : ℕ → Bool
is_instance_char c = is_letter c || is_digit c || c == b'.' || c == b'_' || c == b'-'

abbrev pub instance_id_from : Option Text → Outcome (Option Text)
instance_id_from none = ok none
instance_id_from (some value) =
    if not (is_empty value) && all is_instance_char value
    then ok (some value)
    else config_error (
        text
          "PERAGO_INSTANCE_ID must contain only ASCII letters, digits, dots, underscores, or hyphens")

unfoldable pub parse_perago_instance_id : Option Text → Outcome (Option Text)
unfolding given
parse_perago_instance_id value = instance_id_from (given value)
