-- ===== src/Tests/Limits.antt =====
-- A budget, a prefix, and a prefix that is accepted although no object under it can be downloaded.
use perago.Base.{
  false, text, text_eq, ◌≡◌, ◌⊎◌, refl, [], ◌∷◌, ◌++◌, split, join, has_char, strip, strip_left,
}
use perago.Errors.{task_definition_error, ok, raised}
use perago.Guards.{pure_path, path_text, path_parts, canonical_parts}
use perago.Guards.Paths.{HasOrdinaryParts}
use perago.Models.{PublishBudget, WorkspaceSpec, validate_merge_timeout_budget, validate_prefix}
use perago.Models.Limits.{validate_prefix-ordinary}
use perago.Workspace.Paths.{workspace_object_path, workspace_local_path}
use perago.Tests.Data.{demo_spec}

abbrev demo_budget : PublishBudget
demo_budget = record {
  observed_merge_p99_seconds = 20;
  safety_margin_seconds = 10;
  lakefs_merge_timeout_seconds = 45;
  conductor_completion_timeout_seconds = 15;
  worker_shutdown_grace_seconds = 30;
  heartbeat_interval_seconds = 10;
}

demo_budget_lem : validate_merge_timeout_budget demo_budget ≡ ok demo_budget
unfolding validate_merge_timeout_budget
demo_budget_lem = refl

audio_prefix : validate_prefix (text " /audio/render") ≡ ok (text "audio/render")
unfolding validate_prefix text text_eq has_char strip strip_left split join
audio_prefix = refl

validate_prefix-ordinary_example :
    (text "audio/render" ≡ text "/") ⊎ HasOrdinaryParts (text "audio/render")
validate_prefix-ordinary_example = validate_prefix-ordinary (text " /audio/render") audio_prefix

abbrev drive_spec : WorkspaceSpec
drive_spec = record demo_spec { prefix = text "C:/data" }

drive_prefix_accepted : validate_prefix (text "C:/data") ≡ ok (text "C:/data")
unfolding validate_prefix text text_eq has_char strip strip_left split join
drive_prefix_accepted = refl

drive_prefix_uploaded :
    workspace_object_path drive_spec (pure_path false (text "a.txt" ∷ []))
    ≡ ok (text "C:/data/a.txt")
unfolding workspace_object_path path_parts canonical_parts text text_eq join has_char
drive_prefix_uploaded = refl

drive_prefix_refused :
    workspace_local_path drive_spec (path_text (text "C:/data/a.txt"))
    ≡ raised (task_definition_error (text "drive-qualified guardrail paths are not allowed"))
unfolding workspace_local_path path_parts canonical_parts text text_eq join has_char split
drive_prefix_refused = refl

-- a file that a task may write on Linux: it is uploaded, and its object is refused afterwards
backslash_uploaded :
    workspace_object_path demo_spec (pure_path false ((text "a" ++ 92 ∷ text "b") ∷ []))
    ≡ ok (text "data/a" ++ 92 ∷ text "b")
unfolding workspace_object_path path_parts canonical_parts text text_eq join has_char
backslash_uploaded = refl

backslash_refused :
    workspace_local_path demo_spec (path_text (text "data/a" ++ 92 ∷ text "b"))
    ≡ raised (task_definition_error (text "string guardrail paths must use '/' separators"))
unfolding workspace_local_path path_parts canonical_parts text text_eq join has_char split
backslash_refused = refl
