-- ===== src/Workspace/Sync.antt =====
-- `perago/workspace/sync.py`: which files are uploaded, which objects are downloaded or deleted.
pub mod Plan
pub mod Mirror
pub mod Downloads
use perago.Base.{
  ℕ, ◌+◌, Bool, true, false, Text, text, text_in, List, [], ◌∷◌, ◌++◌, map, Option, none, some,
  length, join, sorted, if◌then◌else◌,
}
use perago.Errors.{task_input_error, Outcome, ok, raised, ◌>>=◌}
use perago.Guards.{pure_path, path_text, slash}
use perago.Models.{WorkspaceSpec}
use perago.Workspace.{Entry, Node, symlink, file, no_file, is_marker}
use perago.Workspace.Paths.{workspace_object_path, workspace_local_path}

-- `local_path` is relative to the workspace directory.
pub record WorkspaceUploadFile : Type 0 where
  pub local_path : List Text
  pub object_path : Text

pub record WorkspaceDownloadFile : Type 0 where
  pub object_path : Text
  pub local_path : List Text

pub record WorkspaceSyncPlan : Type 0 where
  pub upload_files : List WorkspaceUploadFile
  pub delete_object_paths : List Text

unfoldable pub changed_object_count : WorkspaceSyncPlan → ℕ
changed_object_count plan = length plan.upload_files + length plan.delete_object_paths

abbrev pub append_upload :
    WorkspaceSpec
    → List Text
    → Outcome (List WorkspaceUploadFile)
    → Outcome (List WorkspaceUploadFile)
append_upload spec path later = do
  object_path ← workspace_object_path spec (pure_path false path)
  files ← later
  ok (record { local_path = path; object_path = object_path } ∷ files)

-- One turn of the loop, for an entry that is not the marker; `later` is the rest of the loop.
abbrev pub upload_entry :
    WorkspaceSpec
    → List Text
    → Node
    → Outcome (List WorkspaceUploadFile)
    → Outcome (List WorkspaceUploadFile)
upload_entry spec path (symlink target) later =
    raised (
      task_input_error
        (text "workspace publication does not support symlinks: " ++ join slash path))
upload_entry spec path no_file later = later
upload_entry spec path (file content) later = append_upload spec path later

abbrev pub unless_marker {ℓ} : {A : Type ℓ} → Bool → A → A → A
unless_marker true later found = later
unless_marker false later found = found

-- The entries are those of `sorted(workspace_dir.rglob("*"))`.
unfoldable pub workspace_upload_files :
    List Entry → WorkspaceSpec → Outcome (List WorkspaceUploadFile)
unfolding workspace_object_path is_marker
workspace_upload_files [] spec = ok []
workspace_upload_files (e ∷ rest) spec =
    let later = workspace_upload_files rest spec in
    unless_marker (is_marker e.path) later (upload_entry spec e.path e.node later)

abbrev pub append_download :
    Text
    → Option (List Text)
    → Outcome (List WorkspaceDownloadFile)
    → Outcome (List WorkspaceDownloadFile)
append_download object_path none later = later
append_download object_path (some path) later = do
  files ← later
  ok (record { object_path = object_path; local_path = path } ∷ files)

unfoldable pub download_each : WorkspaceSpec → List Text → Outcome (List WorkspaceDownloadFile)
unfolding workspace_local_path
download_each spec [] = ok []
download_each spec (o ∷ rest) =
    let later = download_each spec rest in
    workspace_local_path spec (path_text o) >>= λ local_path. append_download o local_path later

unfoldable pub workspace_download_files :
    WorkspaceSpec → List Text → Outcome (List WorkspaceDownloadFile)
unfolding download_each sorted
workspace_download_files spec object_paths = download_each spec (sorted object_paths)

abbrev pub append_delete : Text → Option (List Text) → Outcome (List Text) → Outcome (List Text)
append_delete object_path none later = later
append_delete object_path (some path) later = do paths ← later; ok (object_path ∷ paths)

-- One turn of the loop; the flag says that the object was uploaded.
abbrev pub delete_entry : WorkspaceSpec → Text → Bool → Outcome (List Text) → Outcome (List Text)
delete_entry spec o true later = later
delete_entry spec o false later =
    workspace_local_path spec (path_text o) >>= λ local_path. append_delete o local_path later

unfoldable pub delete_each : WorkspaceSpec → List Text → List Text → Outcome (List Text)
unfolding workspace_local_path
delete_each spec uploaded [] = ok []
delete_each spec uploaded (o ∷ rest) =
    let later = delete_each spec uploaded rest in delete_entry spec o (text_in o uploaded) later

-- `{file.object_path for file in uploaded_files}`
unfoldable pub object_paths : List WorkspaceUploadFile → List Text
object_paths [] = []
object_paths (f ∷ fs) = f.object_path ∷ object_paths fs

unfoldable pub workspace_delete_object_paths :
    WorkspaceSpec → List Text → List WorkspaceUploadFile → Outcome (List Text)
unfolding delete_each object_paths sorted
workspace_delete_object_paths spec existing_object_paths uploaded_files =
    delete_each spec (object_paths uploaded_files) (sorted existing_object_paths)

unfoldable pub build_workspace_sync_plan :
    List Entry → WorkspaceSpec → List Text → Outcome WorkspaceSyncPlan
unfolding workspace_upload_files workspace_delete_object_paths
build_workspace_sync_plan entries spec existing_object_paths = do
  upload_files ← workspace_upload_files entries spec
  delete_object_paths ← workspace_delete_object_paths spec existing_object_paths upload_files
  ok (record { upload_files = upload_files; delete_object_paths = delete_object_paths })
