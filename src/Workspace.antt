-- ===== src/Workspace.antt =====
-- The attempt-local workspace as the code reads it: `sorted(workspace_dir.rglob("*"))`, each entry
-- with its path relative to the workspace and with what `pathlib` says it is.
pub mod Paths
pub mod Sync
pub mod Gc
use perago.Base.{Text, text, text_eq, Bool, List, [], ◌∷◌}

pub data Node : Type 0 where
  symlink : (target : Text) → Node
  file : (content : Text) → Node
  -- a directory, or something else that is no regular file
  no_file : Node

pub record Entry : Type 0 where
  -- the parts of the relative path
  pub path : List Text
  pub node : Node

-- `ATTEMPT_WORKSPACE_MARKER`
abbrev pub attempt_workspace_marker : Text
attempt_workspace_marker = text ".perago-attempt.json"

-- `path.name`: the last part
unfoldable pub name : List Text → Text
name [] = []
name (p ∷ []) = p
name (p ∷ q ∷ rest) = name (q ∷ rest)

unfoldable pub is_marker : List Text → Bool
unfolding name
is_marker path = text_eq (name path) attempt_workspace_marker
