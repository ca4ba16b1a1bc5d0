-- ===== src/Workspace/Paths.antt =====
-- `perago/workspace/paths.py`: which object a local path stands for, and the other way round. A
-- local path is the list of its parts, relative to the workspace.
pub mod RoundTrip
use perago.Base.{
  Text, text, text_eq, List, [], ◌∷◌, ◌++◌, Option, none, some, split, strip_prefix, if◌then◌else◌,
}
use perago.Errors.{Outcome, ok, raised, ◌>>=◌}
use perago.Guards.{PathArgument, path_text, slash, canonical_workspace_path}
use perago.Models.{WorkspaceSpec}
use perago.Workspace.{is_marker}

-- `"" if prefix == "/" else prefix`
unfoldable pub object_prefix : Text → Text
object_prefix prefix = if text_eq prefix (text "/") then [] else prefix

unfoldable pub workspace_object_prefix : WorkspaceSpec → Text
unfolding object_prefix
workspace_object_prefix spec = object_prefix spec.prefix

-- `f"{prefix}/{local_path}"`, or the path itself if there is no prefix
abbrev pub under : Text → Text → Text
under [] local_path = local_path
under (c ∷ prefix) local_path = (c ∷ prefix) ++ slash ∷ local_path

unfoldable pub workspace_object_path : WorkspaceSpec → PathArgument → Outcome Text
unfolding canonical_workspace_path workspace_object_prefix
workspace_object_path spec workspace_path = do
  local_path ← canonical_workspace_path workspace_path
  ok (under (workspace_object_prefix spec) local_path)

-- The rest behind the prefix is validated anew.
abbrev pub revalidated : Option Text → Outcome (Option Text)
revalidated none = ok none
revalidated (some suffix) = do
  remote_path ← canonical_workspace_path (path_text suffix)
  ok (some remote_path)

abbrev pub inside : Text → Text → Outcome (Option Text)
inside [] remote_path = ok (some remote_path)
inside (c ∷ prefix) remote_path =
    revalidated (strip_prefix ((c ∷ prefix) ++ slash ∷ []) remote_path)

-- `Path(remote_path)`, unless it is the marker of an attempt
abbrev pub without_marker : Option Text → Option (List Text)
without_marker none = none
without_marker (some remote_path) =
    if is_marker (split slash remote_path) then none else some (split slash remote_path)

unfoldable pub workspace_local_path : WorkspaceSpec → PathArgument → Outcome (Option (List Text))
unfolding canonical_workspace_path workspace_object_prefix is_marker
workspace_local_path spec object_path = do
  remote_path ← canonical_workspace_path object_path
  visible ← inside (workspace_object_prefix spec) remote_path
  ok (without_marker visible)
