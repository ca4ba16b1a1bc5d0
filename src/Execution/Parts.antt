-- ===== src/Execution/Parts.antt =====
-- The types and the functions of `perago/execution.py` that do not depend on the attempt.
use perago.Base.{
  ℕ, ◌+◌, Bool, true, false, ◌&&◌, Option, none, some, Text, text, text_eq, List, [], ◌∷◌,
  if◌then◌else◌, length, join, text_in,
}
use perago.Errors.{Exception, task_input_error, guardrail_violation, os_error, Outcome, ok, raised}
use perago.Value.{Value, dict, field, end, str_key}
use perago.Guards.{WorkspaceGuardrail, FileView, check_guardrails, slash}
use perago.Models.{WorkspaceRef, WorkspaceSpec, MetricSpec, dump_workspace_ref}
use perago.Workspace.{Entry, symlink, file, no_file, is_marker}
use perago.Execution.Calls.{
  StagedWorkspace, Machine, Run, lift, perform, prepare, stage, noop, clean_staging, History,
}

-- The fields of `TaskDefinition` that an attempt reads.
pub record Task : Type 0 where
  pub workspace : Option WorkspaceSpec
  pub metrics : Option MetricSpec
  pub strict_params : Bool

-- The two top-level fields of the Conductor input that are read; others are ignored.
pub record InputData : Type 0 where
  pub workspace : Option Value
  pub params : Option Value

pub record SnapshotEntry : Type 0 where
  pub path : Text
  pub kind : Text
  pub content : Text

-- `_snapshot_workspace`, after the listing
unfoldable pub snapshot_entries : (Text → Text) → List Entry → List SnapshotEntry
snapshot_entries digest [] = []
snapshot_entries digest (e ∷ rest) =
    let later = snapshot_entries digest rest in
    let path = join slash e.path in
    if is_marker e.path then later else elim e.node [
      | symlink target ↦ record { path = path; kind = text "symlink"; content = target } ∷ later
      | file content ↦ record { path = path; kind = text "file"; content = digest content } ∷ later
      | no_file ↦ later
    ]

-- `==` on snapshots
unfoldable pub same_snapshot : List SnapshotEntry → List SnapshotEntry → Bool
same_snapshot [] [] = true
same_snapshot [] (y ∷ ys) = false
same_snapshot (x ∷ xs) [] = false
same_snapshot (x ∷ xs) (y ∷ ys) =
    (text_eq x.path y.path && text_eq x.kind y.kind && text_eq x.content y.content)
    && same_snapshot xs ys

-- `_workspace_file_bytes`, after the listing
unfoldable pub workspace_file_bytes : List Entry → ℕ
workspace_file_bytes [] = 0
workspace_file_bytes (e ∷ rest) =
    let later = workspace_file_bytes rest in
    elim e.node [
      | symlink target ↦ later
      | file content ↦ if is_marker e.path then later else length content + later
      | no_file ↦ later
    ]

abbrev pub as_phase_error : (Text → Exception) → Outcome (Unit {0}) → Outcome (Unit {0})
as_phase_error error (raised (guardrail_violation m)) = raised (error m)
as_phase_error error r = r

-- `_check_phase_guardrails`
unfoldable pub check_phase_guardrails :
    FileView → List WorkspaceGuardrail → Text → (Text → Exception) → Outcome (Unit {0})
check_phase_guardrails view guardrails phase error =
    as_phase_error error (check_guardrails view guardrails phase)

-- `{"workspace", "params"}.issubset(input_data)`
abbrev pub required_fields : Option Value → Option Value → Outcome (Value × Value)
required_fields (some w) (some p) = ok (w, p)
required_fields _ _ =
    raised (task_input_error (text "workspace task input must contain workspace and params"))

abbrev pub workspace_io : Option MetricSpec → Bool
workspace_io none = false
workspace_io (some m) = m.workspace_io

-- `{"workspace": …, "result": …}`
abbrev pub output_value : WorkspaceRef → Value → Value
output_value w result = dict (
    field (str_key (text "workspace")) (dump_workspace_ref w)
      (field (str_key (text "result")) result end))

abbrev pub after_timer {ℓ} : {A : Type ℓ} → Outcome (Unit {0}) → Outcome A → Outcome A
after_timer (ok _) r = r
after_timer (raised e) r = raised e

abbrev pub drop_os_error : Outcome (Unit {0}) → Outcome (Unit {0})
drop_os_error (raised (os_error m)) = ok tt
drop_os_error r = r

-- `set.add` and `set.discard` on the active tokens
unfoldable pub add : Text → List Text → List Text
add t ts = if text_in t ts then ts else t ∷ ts

unfoldable pub discard : Text → List Text → List Text
discard t [] = []
discard t (u ∷ ts) = let rest = discard t ts in if text_eq t u then rest else u ∷ rest

-- The call, and the assignment of what it returned.
abbrev pub keep_dir : Outcome Text → Run Text
keep_dir (ok dir) s =
    (ok dir, record s { history = prepare (ok dir) ∷ s.history; workspace_dir = some dir })
keep_dir (raised e) s = (raised e, record s { history = prepare (raised e) ∷ s.history })

abbrev pub keep_staged : Outcome StagedWorkspace → Run StagedWorkspace
keep_staged (ok st) s = (ok st, record s { history = stage (ok st) ∷ s.history; staged = some st })
keep_staged (raised e) s = (raised e, record s { history = stage (raised e) ∷ s.history })

abbrev pub NoopCallback : Type 0
NoopCallback = WorkspaceRef → WorkspaceSpec → History → Outcome Text

abbrev pub call_noop : WorkspaceRef → WorkspaceSpec → Option NoopCallback → Run Text
call_noop w spec none = lift (
    raised (
      task_input_error (
        text
          "complete_noop_workspace callback is required for writable no-op workspace completion")))
call_noop w spec (some callback) = perform (callback w spec) noop

abbrev pub forget_staging : Option StagedWorkspace → Machine → Machine
forget_staging none s = s
forget_staging (some st) s = record s { history = clean_staging st ∷ s.history }
