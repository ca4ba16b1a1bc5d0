-- ===== src/Config/Dotenv.antt =====
-- `perago/config.py`: `read_dotenv`.
use perago.Base.{
  ℕ, ◌==◌, leb, Bool, false, ◌&&◌, ◌||◌, not, Option, none, some, Text, text, List, [], ◌∷◌,
  has_char, strip_prefix, strip, is_empty, if◌then◌else◌,
}
use perago.Config.Environment.{Env, put}

-- A line boundary of `str.splitlines`. Reading the file has turned each `\r` into `\n`.
unfoldable pub is_line_break : ℕ → Bool
is_line_break c =
    (leb 10 c && leb c 13) || (leb 28 c && leb c 30) || c == 133 || c == 8232 || c == 8233

abbrev pub onto_first : ℕ → List Text → List Text
onto_first c [] = (c ∷ []) ∷ []
onto_first c (line ∷ lines) = (c ∷ line) ∷ lines

unfoldable pub splitlines : Text → List Text
unfolding is_line_break
splitlines [] = []
splitlines (c ∷ rest) =
    let lines = splitlines rest in if is_line_break c then [] ∷ lines else onto_first c lines

abbrev pub equals_sign : ℕ
equals_sign = b'='

-- `key, value = line.split("=", 1)`
unfoldable pub split_entry : Text → Text × Text
split_entry [] = ([], [])
split_entry (c ∷ rest) =
    let later = split_entry rest in if c == equals_sign then ([], rest) else (c ∷ later.0, later.1)

abbrev pub is_quote : ℕ → Bool
is_quote c = c == 39 || c == 34

abbrev pub prepend : ℕ → Option Text → Option Text
prepend c none = none
prepend c (some t) = some (c ∷ t)

-- The text without its last character, if that is the quote.
unfoldable pub without_last : ℕ → Text → Option Text
without_last quote [] = none
without_last quote (c ∷ []) = if c == quote then some [] else none
without_last quote (c ∷ d ∷ rest) = prepend c (without_last quote (d ∷ rest))

abbrev pub unquoted : Text → Option Text → Text
unquoted value none = value
unquoted value (some inner) = inner

-- `_strip_env_value`: one pair of the same quotes is taken off.
unfoldable pub strip_env_value : Text → Text
unfolding without_last
strip_env_value [] = []
strip_env_value (c ∷ rest) =
    if is_quote c then unquoted (c ∷ rest) (without_last c rest) else c ∷ rest

abbrev pub starts_with_hash : Text → Bool
starts_with_hash [] = false
starts_with_hash (c ∷ rest) = c == b'#'

-- `line.removeprefix("export ").strip()` for a line that starts with it
abbrev pub exported : Text → Option Text → Text
exported line none = line
exported line (some rest) = strip rest

abbrev pub put_entry : Text × Text → Env → Env
put_entry (key, value) env = put (strip key) (strip_env_value (strip value)) env

-- one turn of the loop, on `raw_line.strip()`
unfoldable pub read_line : Text → Env → Env
unfolding split_entry strip_env_value put
read_line line env =
    if is_empty line || starts_with_hash line || not (has_char equals_sign line)
    then env
    else put_entry (split_entry (exported line (strip_prefix (text "export ") line))) env

unfoldable pub read_lines : List Text → Env → Env
unfolding read_line
read_lines [] values = values
read_lines (raw_line ∷ rest) values = read_lines rest (read_line (strip raw_line) values)

-- The text of the file, or `none` when there is no such file.
unfoldable pub read_dotenv : Option Text → Env
unfolding splitlines read_lines
read_dotenv none = []
read_dotenv (some content) = read_lines (splitlines content) []
