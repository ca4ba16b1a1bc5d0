-- ===== src/Tests/Publishing.antt =====
-- Staging and publishing a workspace with one file on the server of `perago.Tests.Server`.
use perago.Base.{
  true, false, Text, text, text_eq, text_in, ◌≡◌, refl, ◌⊎◌, List, [], ◌∷◌, none, some, has_char,
  split, join, strip_prefix, all, not,
}
use perago.Errors.{ok, raised}
use perago.Guards.{slash, path_text, pure_path, path_parts, canonical_parts}
use perago.Models.{WorkspaceSpec}
use perago.Workspace.{Entry, file, is_marker}
use perago.Workspace.Paths.{workspace_local_path, workspace_object_path}
use perago.Workspace.Paths.RoundTrip.{
  workspace_local_path-workspace_object_path, workspace_object_path-workspace_local_path,
}
use perago.Execution.Calls.{StagedWorkspace}
use perago.Lakefs.{
  first_parent_id, publish_workspace, complete_noop_workspace, stage_workspace,
  merge_staged_workspace, hard_reset_target_to_ref, cannot,
}
use perago.Lakefs.Publish.{
  Chosen, head_of, publish_workspace_cases, publish_workspace-head, publish_workspace_again,
}
use perago.Lakefs.Staging.{MirroredFrom, stage_workspace-Mirrors}
use perago.Tests.Data.{demo_ref, demo_spec, demo_staged}
use perago.Tests.Server.{
  World, start, demo_lakefs, demo_branches, demo_objects, demo_file, commit_above, remove, paths,
}
use perago.Workspace.Sync.Downloads.{Downloads, Shows, workspace_download_files_iff}
use perago.Base.{◌↔◌, sorted}
use perago.Workspace.Sync.{
  WorkspaceDownloadFile, workspace_download_files, build_workspace_sync_plan,
}

abbrev one_path : List Text
one_path = text "in" ∷ text "a.txt" ∷ []

abbrev one_object : Text
one_object = text "data/in/a.txt"

abbrev data_spec : WorkspaceSpec
data_spec = record demo_spec { prefix = text "data" }

one_object_lem : workspace_object_path data_spec (pure_path false one_path) ≡ ok one_object
unfolding workspace_object_path path_parts canonical_parts text text_eq join has_char
one_object_lem = refl

one_path_lem : workspace_local_path data_spec (path_text one_object) ≡ ok (some one_path)
unfolding workspace_local_path path_parts canonical_parts text text_eq join has_char split is_marker
    strip_prefix
one_path_lem = refl

plain_names : all (λ p. not (has_char slash p)) one_path ≡ true
unfolding text has_char
plain_names = refl

no_marker : is_marker one_path ≡ false
unfolding is_marker text text_eq
no_marker = refl

workspace_local_path-workspace_object_path_example : some one_path ≡ some one_path
workspace_local_path-workspace_object_path_example =
    workspace_local_path-workspace_object_path data_spec one_path one_object (some one_path)
      plain_names no_marker one_object_lem one_path_lem

workspace_object_path-workspace_local_path_example :
    workspace_object_path data_spec (pure_path false one_path) ≡ ok one_object
workspace_object_path-workspace_local_path_example =
    workspace_object_path-workspace_local_path data_spec one_object one_path one_path_lem

abbrev one_entry : List Entry
one_entry = record { path = one_path; node = file (text "hello") } ∷ []

abbrev staged_world : World
staged_world = record start {
  work =
      record { path = one_object; content = text "hello" }
      ∷ record { path = text "other/kept.txt"; content = text "kept" }
      ∷ [];
  saved =
      record { path = one_object; content = text "hello" }
      ∷ record { path = text "other/kept.txt"; content = text "kept" }
      ∷ [];
}

staged_lem :
    stage_workspace demo_lakefs none
      (text "/tmp/ws")
      one_entry
      demo_ref
      data_spec
      (text "perago-staging-1")
      start
    ≡ (ok demo_staged, staged_world)
unfolding stage_workspace text build_workspace_sync_plan text_eq paths text_in join has_char split
    strip_prefix remove
staged_lem = refl

stage_workspace-Mirrors_example :
    MirroredFrom demo_lakefs none demo_file demo_objects
      (text "/tmp/ws")
      one_entry
      demo_ref
      data_spec
      (text "perago-staging-1")
      start
      demo_staged
      staged_world
stage_workspace-Mirrors_example =
    stage_workspace-Mirrors demo_lakefs none demo_file demo_objects (text "/tmp/ws") one_entry
      demo_ref data_spec (text "perago-staging-1") start (plain_names, tt) staged_lem

abbrev merged_world : World
merged_world = record start { head = commit_above (text "m1") (text "c0") }

published_lem :
    publish_workspace demo_lakefs none demo_staged demo_ref start ≡ (ok (text "m1"), merged_world)
unfolding publish_workspace text text_eq
published_lem = refl

publish_workspace_cases_example :
    Chosen demo_lakefs none demo_branches
      (head_of demo_lakefs none demo_branches demo_ref start)
      (text "c0")
      (publish_workspace demo_lakefs none demo_staged demo_ref start)
      (merge_staged_workspace demo_lakefs none demo_staged demo_ref start)
      (hard_reset_target_to_ref demo_lakefs none demo_ref (text "c1") start)
      (raised (cannot (text " cannot publish") demo_ref (text "c0")), start)
publish_workspace_cases_example =
    publish_workspace_cases demo_lakefs none demo_branches demo_staged demo_ref start
      {c = start.head} {t = start} refl

staged_above :
    first_parent_id (demo_branches.commit_at start (text "repo") (text "c1")) ≡ some (text "c0")
unfolding first_parent_id
staged_above = refl

publish_workspace-head_example :
    ((head_of demo_lakefs none demo_branches demo_ref merged_world).id ≡ text "m1")
    × (first_parent_id (head_of demo_lakefs none demo_branches demo_ref merged_world)
        ≡ some (text "c0"))
publish_workspace-head_example =
    publish_workspace-head demo_lakefs none demo_branches demo_staged demo_ref start refl
      staged_above published_lem

-- the staged workspace of the attempt that is tried next
abbrev second_staged : StagedWorkspace
second_staged = record demo_staged { branch = text "perago-staging-2" }

publish_workspace_again_example :
    (publish_workspace demo_lakefs none second_staged demo_ref merged_world
      ≡ merge_staged_workspace demo_lakefs none second_staged demo_ref merged_world)
    ⊎ (publish_workspace demo_lakefs none second_staged demo_ref merged_world
        ≡ hard_reset_target_to_ref demo_lakefs none demo_ref (text "c1") merged_world)
publish_workspace_again_example =
    publish_workspace_again demo_lakefs none demo_branches demo_staged second_staged demo_ref start
      {t = merged_world} {c = merged_world.head} refl staged_above published_lem refl

abbrev reset_world : World
reset_world = record start { head = commit_above (text "c0") (text "c0") }

noop_lem :
    complete_noop_workspace demo_lakefs none demo_ref merged_world ≡ (ok (text "c0"), reset_world)
unfolding complete_noop_workspace text text_eq
noop_lem = refl

-- an object that the task can see, and one that it cannot
abbrev two_listed : List Text
two_listed = one_object ∷ text "other/kept.txt" ∷ []

abbrev one_download : List WorkspaceDownloadFile
one_download = record { object_path = one_object; local_path = one_path } ∷ []

one_download_lem : workspace_download_files data_spec two_listed ≡ ok one_download
unfolding workspace_download_files workspace_local_path path_parts canonical_parts text text_eq join
    has_char split is_marker strip_prefix sorted
one_download_lem = refl

workspace_download_files_iff_example :
    ((text_in one_object two_listed ≡ true) × Shows data_spec one_object one_path)
    ↔ Downloads one_download one_object one_path
workspace_download_files_iff_example =
    workspace_download_files_iff data_spec two_listed one_download one_object one_path
      one_download_lem
