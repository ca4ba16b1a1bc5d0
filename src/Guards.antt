-- ===== src/Guards.antt =====
-- `perago/guards.py`: workspace-relative paths, guardrails and their evaluation.
pub mod Paths
pub mod Check
use perago.Base.{
  ℕ, zero, ◌==◌, ◌≤◌, Bool, true, false, ◌&&◌, ◌||◌, not, Option, none, some, Text, text, text_eq,
  ltb, leb, any, if◌then◌else◌, ◌++◌, List, [], ◌∷◌, split, join, has_char, decimal, is_empty,
}
use perago.Errors.{
  Exception, task_definition_error, guardrail_violation, Outcome, ok, raised, raise_if, ◌>>=◌, ◌>>◌,
}

abbrev pub slash : ℕ
slash = b'/'

abbrev pub backslash : ℕ
backslash = 92

-- `str | PathLike[str]`. For a `PureWindowsPath` and another `PurePath` the library gives the drive
-- and root, or whether the path is absolute, and the parts; `os.fspath` gives the text of the rest.
pub data PathArgument : Type 0 where
  windows_path : (drive root : Text) → List Text → PathArgument
  pure_path : (is_absolute : Bool) → List Text → PathArgument
  path_text : Text → PathArgument

abbrev pub is_letter : ℕ → Bool
is_letter c = (leb b'A' c && leb c b'Z') || (leb b'a' c && leb c b'z')

-- `text.startswith("/")`
abbrev pub starts_with_slash : Text → Bool
starts_with_slash [] = false
starts_with_slash (c ∷ rest) = c == slash

-- `_WINDOWS_DRIVE_PREFIX_RE.match(text)`
abbrev pub has_drive_prefix : Text → Bool
has_drive_prefix (c ∷ d ∷ rest) = is_letter c && d == b':'
has_drive_prefix _ = false

abbrev pub string_path_error : Text → Option Exception
string_path_error t =
    if has_char backslash t
    then some (task_definition_error (text "string guardrail paths must use '/' separators"))
    else if starts_with_slash t
    then some (
        task_definition_error
          (text "guardrail paths must be relative to WorkspaceSpec(prefix=...)"))
    else if has_drive_prefix t
    then some (task_definition_error (text "drive-qualified guardrail paths are not allowed"))
    else none

abbrev pub unless_error {ℓ} : {A : Type ℓ} → Option Exception → A → Outcome A
unless_error none a = ok a
unless_error (some e) a = raised e

unfoldable pub path_parts : PathArgument → Outcome (List Text)
path_parts (windows_path drive root parts) =
    if not (is_empty drive) || not (is_empty root)
    then raised
        (task_definition_error (text "drive-qualified or absolute guardrail paths are not allowed"))
    else ok parts
path_parts (pure_path absolute parts) =
    if absolute
    then raised (task_definition_error (text "absolute guardrail paths are not allowed"))
    else ok parts
path_parts (path_text t) = unless_error (string_path_error t) (split slash t)

-- `part in {"", ".", ".."}`
abbrev pub is_special : Text → Bool
is_special [] = true
is_special (c ∷ []) = c == b'.'
is_special (c ∷ d ∷ []) = c == b'.' && d == b'.'
is_special (c ∷ d ∷ e ∷ rest) = false

unfoldable pub canonical_parts : List Text → Outcome Text
canonical_parts parts =
    if is_empty parts
    then raised (task_definition_error (text "workspace guardrail paths must not be empty"))
    else if any is_special parts
    then raised (
        task_definition_error
          (text "workspace guardrail paths must be relative and must not contain '..'"))
    else ok (join slash parts)

unfoldable pub canonical_workspace_path : PathArgument → Outcome Text
unfolding path_parts canonical_parts
canonical_workspace_path value = do parts ← path_parts value; canonical_parts parts

pub data GuardrailKind : Type 0 where
  require_file_kind require_dir_kind require_glob_kind forbid_glob_kind : GuardrailKind

pub record WorkspaceGuardrail : Type 0 where
  pub kind : GuardrailKind
  pub path : Text
  pub min_count : Option ℕ
  pub max_count : Option ℕ

-- `min_count > max_count`, where both are given
abbrev pub bounds_cross : Option ℕ → Option ℕ → Bool
bounds_cross (some low) (some high) = ltb high low
bounds_cross _ _ = false

abbrev pub is_given : Option ℕ → Bool
is_given none = false
is_given (some n) = true

abbrev pub or_default : Option ℕ → ℕ → Option ℕ
or_default none d = some d
or_default (some n) d = some n

-- the default lower bound of `require_glob`
abbrev pub default_require_glob_min_count : ℕ
default_require_glob_min_count = 1

abbrev pub with_default_min : GuardrailKind → Option ℕ → Option ℕ
with_default_min GuardrailKind.require_glob_kind low = or_default low default_require_glob_min_count
with_default_min kind low = low

abbrev pub is_single : GuardrailKind → Bool
is_single GuardrailKind.require_file_kind = true
is_single GuardrailKind.require_dir_kind = true
is_single kind = false

abbrev pub kind_text : GuardrailKind → Text
kind_text GuardrailKind.require_file_kind = text "require_file"
kind_text GuardrailKind.require_dir_kind = text "require_dir"
kind_text GuardrailKind.require_glob_kind = text "require_glob"
kind_text GuardrailKind.forbid_glob_kind = text "forbid_glob"

unfoldable pub validate_count_bounds : WorkspaceGuardrail → Outcome WorkspaceGuardrail
validate_count_bounds g =
    if is_single g.kind
    then (do
      raise_if (is_given g.min_count || is_given g.max_count)
          (task_definition_error (kind_text g.kind ++ text " does not accept count bounds"))
      ok g)
    else let low = with_default_min g.kind g.min_count in
      if bounds_cross low g.max_count
      then raised (task_definition_error (text "guardrail min_count must be <= max_count"))
      else ok (record g { min_count = low })

-- The constructor of the model: the path is validated, then the bounds. Negative bounds, which
-- pydantic refuses, are no natural numbers.
unfoldable pub workspace_guardrail :
    GuardrailKind → Text → Option ℕ → Option ℕ → Outcome WorkspaceGuardrail
unfolding canonical_workspace_path validate_count_bounds
workspace_guardrail kind path low high = do
  checked ← canonical_workspace_path (path_text path)
  validate_count_bounds (record { kind = kind; path = checked; min_count = low; max_count = high })

unfoldable pub require_file : PathArgument → Outcome WorkspaceGuardrail
unfolding workspace_guardrail
require_file path = do
  checked ← canonical_workspace_path path
  workspace_guardrail GuardrailKind.require_file_kind checked none none

unfoldable pub require_dir : PathArgument → Outcome WorkspaceGuardrail
unfolding workspace_guardrail
require_dir path = do
  checked ← canonical_workspace_path path
  workspace_guardrail GuardrailKind.require_dir_kind checked none none

unfoldable pub require_glob : PathArgument → ℕ → Option ℕ → Outcome WorkspaceGuardrail
unfolding workspace_guardrail
require_glob pattern low high = do
  checked ← canonical_workspace_path pattern
  workspace_guardrail GuardrailKind.require_glob_kind checked (some low) high

unfoldable pub forbid_glob : PathArgument → Outcome WorkspaceGuardrail
unfolding workspace_guardrail
forbid_glob pattern = do
  checked ← canonical_workspace_path pattern
  workspace_guardrail GuardrailKind.forbid_glob_kind checked none none

-- What `pathlib` answers about the attempt workspace: `Path.is_file`, `Path.is_dir` under the root,
-- and how many paths `root.glob(pattern)` yields, if it accepts the pattern.
pub record FileView : Type 0 where
  pub is_file : Text → Bool
  pub is_dir : Text → Bool
  pub glob_count : Text → Outcome ℕ

abbrev pub below_min : ℕ → Option ℕ → Bool
below_min count none = false
below_min count (some low) = ltb count low

abbrev pub above_max : ℕ → Option ℕ → Bool
above_max count none = false
above_max count (some high) = ltb high count

-- What each message begins with: the phase and `guardrail.label()`.
abbrev pub label : Text → WorkspaceGuardrail → Text
label phase g = phase ++ text " guardrail " ++ kind_text g.kind ++ text "('" ++ g.path ++ text "')"

abbrev pub matched : Text → WorkspaceGuardrail → ℕ → Text
matched phase g count = label phase g ++ text " matched " ++ decimal count ++ text " files"

abbrev pub bound_text : Option ℕ → Text
bound_text none = text "None"
bound_text (some n) = decimal n

-- what is made of the count of a glob
abbrev pub check_count : Text → WorkspaceGuardrail → ℕ → Outcome (Unit {0})
check_count phase g count = do
  raise_if (below_min count g.min_count)
      (guardrail_violation (matched phase g count ++ text "; min_count=" ++ bound_text g.min_count))
  raise_if (above_max count g.max_count)
      (guardrail_violation (matched phase g count ++ text "; max_count=" ++ bound_text g.max_count))

abbrev pub check_one : Text → GuardrailKind → WorkspaceGuardrail → FileView → Outcome (Unit {0})
check_one phase GuardrailKind.require_file_kind g view =
    raise_if (not (view.is_file g.path))
      (guardrail_violation (label phase g ++ text " did not find a file"))
check_one phase GuardrailKind.require_dir_kind g view =
    raise_if (not (view.is_dir g.path))
      (guardrail_violation (label phase g ++ text " did not find a directory"))
check_one phase GuardrailKind.forbid_glob_kind g view = do
  count ← view.glob_count g.path
  raise_if (not (count == 0)) (guardrail_violation (matched phase g count))
check_one phase GuardrailKind.require_glob_kind g view = do
  count ← view.glob_count g.path
  check_count phase g count

unfoldable pub check_guardrails : FileView → List WorkspaceGuardrail → Text → Outcome (Unit {0})
check_guardrails view [] phase = ok tt
check_guardrails view (g ∷ rest) phase = do
  check_one phase g.kind g view
  check_guardrails view rest phase
