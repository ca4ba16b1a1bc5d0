-- ===== src/Lakefs.antt =====
-- `perago/lakefs_runtime.py`: how a workspace is staged, published, completed without a change, and
-- how its staging branch is removed.
pub mod Client
pub mod Objects
pub mod Staging
pub mod Publish
use perago.Base.{
  ℕ, Bool, true, false, Text, text, text_eq, List, [], ◌∷◌, ◌++◌, Option, none, some, if◌then◌else◌,
}
use perago.Errors.{Exception, publish_fence_error, Outcome, ok, raised}
use perago.Models.{WorkspaceRef, WorkspaceSpec, PublishBudget}
use perago.Execution.Calls.{StagedWorkspace}
use perago.Workspace.{Entry}
use perago.Workspace.Paths.{workspace_object_prefix}
use perago.Workspace.Sync.{WorkspaceUploadFile, build_workspace_sync_plan}
use Client.{Parent, parent_text, parent_record, Commit, Call, ◌>>=◌, ◌>>◌, lift, Service}

-- `_commit_parents`
unfoldable pub commit_parents : Commit → List Parent
commit_parents commit = elim commit.parents [ none ↦ [] | some parents ↦ parents ]

abbrev pub parent_id : List Parent → Option Text
parent_id [] = none
parent_id (parent_text id ∷ parents) = some id
parent_id (parent_record id ∷ parents) = id

-- `_first_parent_id`
unfoldable pub first_parent_id : Commit → Option Text
unfolding commit_parents
first_parent_id commit = parent_id (commit_parents commit)

-- `_first_parent_id(head_commit) == workspace_input.ref`
abbrev pub is_ref : Option Text → Text → Bool
is_ref none ref = false
is_ref (some id) ref = text_eq id ref

abbrev pub merge_timeout : Option PublishBudget → Option ℕ
merge_timeout none = none
merge_timeout (some budget) = some budget.lakefs_merge_timeout_seconds

abbrev pub cannot : Text → WorkspaceRef → Text → Exception
cannot does input head = publish_fence_error (
    input.branch
    ++ does
    ++ text " from input ref "
    ++ input.ref
    ++ text "; current head is "
    ++ head)

module _ {S : Type 0} (lakefs : Service S) (publish_budget : Option PublishBudget) where
  unfoldable pub delete_objects : (repository branch : Text) → List Text → Call S (Unit {0})
  delete_objects repository branch [] = lift (ok tt)
  delete_objects repository branch (path ∷ paths) = do
    lakefs.delete_object repository branch path
    delete_objects repository branch paths

  unfoldable pub upload_files :
      (repository branch dir : Text) → List WorkspaceUploadFile → Call S (Unit {0})
  upload_files repository branch dir [] = lift (ok tt)
  upload_files repository branch dir (file ∷ files) = do
    content ← lakefs.read_bytes dir file.local_path
    lakefs.upload_object repository branch file.object_path content
    upload_files repository branch dir files

  -- `entries` is what `rglob` finds in `dir`, and `staging_branch` the branch name of the attempt.
  unfoldable pub stage_workspace :
      (dir : Text)
      → List Entry
      → WorkspaceRef
      → WorkspaceSpec
      → (staging_branch : Text) → Call S StagedWorkspace
  unfolding delete_objects upload_files
  stage_workspace dir entries input spec staging_branch = do
    lakefs.create_branch input.repository staging_branch input.ref
    existing_paths ← lakefs.objects input.repository staging_branch (workspace_object_prefix spec)
    plan ← lift (build_workspace_sync_plan entries spec existing_paths)
    delete_objects input.repository staging_branch plan.delete_object_paths
    upload_files input.repository staging_branch dir plan.upload_files
    commit ← lakefs.commit input.repository staging_branch (text "perago try")
    lift (ok (record { repository = input.repository; branch = staging_branch; commit = commit }))

  -- `_merge_staged_workspace`: without a budget, the client's own repository object merges.
  unfoldable pub merge_staged_workspace : StagedWorkspace → WorkspaceRef → Call S Text
  merge_staged_workspace staged input = elim publish_budget [
    | none ↦ lakefs.merge_into staged.repository staged.branch input.branch none
    | some budget ↦
        lakefs.merge_into input.repository staged.branch input.branch (merge_timeout (some budget))
  ]

  -- `_hard_reset_target_to_ref`
  unfoldable pub hard_reset_target_to_ref : WorkspaceRef → Text → Call S Text
  hard_reset_target_to_ref input ref = do
    lakefs.hard_reset_branch input.repository input.branch ref (merge_timeout publish_budget)
    lift (ok ref)

  -- What is done at the head: it is the ref of the input, or its first parent is, or neither.
  abbrev pub at_head :
      (same_head same_parent : Bool) → Call S Text → Call S Text → Exception → Call S Text
  at_head true same_parent first second error = first
  at_head false true first second error = second
  at_head false false first second error = lift (raised error)

  unfoldable pub publish_workspace : StagedWorkspace → WorkspaceRef → Call S Text
  unfolding merge_staged_workspace hard_reset_target_to_ref first_parent_id
  publish_workspace staged input = do
    head_commit ← lakefs.get_commit input.repository input.branch
    at_head (text_eq head_commit.id input.ref) (is_ref (first_parent_id head_commit) input.ref)
        (merge_staged_workspace staged input) (hard_reset_target_to_ref input staged.commit)
        (cannot (text " cannot publish") input head_commit.id)

  unfoldable pub complete_noop_workspace : WorkspaceRef → Call S Text
  unfolding hard_reset_target_to_ref first_parent_id
  complete_noop_workspace input = do
    head_commit ← lakefs.get_commit input.repository input.branch
    at_head (text_eq head_commit.id input.ref) (is_ref (first_parent_id head_commit) input.ref)
        (lift (ok input.ref)) (hard_reset_target_to_ref input input.ref)
        (cannot (text " cannot complete no-op") input head_commit.id)

  unfoldable pub cleanup_staging : StagedWorkspace → Call S (Unit {0})
  cleanup_staging staged = lakefs.delete_branch staged.repository staged.branch
