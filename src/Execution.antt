-- ===== src/Execution.antt =====
-- `perago/execution.py`: one attempt of a workspace task, from the Conductor input to the result.
pub mod Calls
pub mod Parts
pub mod Protocol
pub mod Rules
pub mod Follows
pub mod Finally
pub mod Runs
pub mod Finishes
pub mod Guarantees
pub mod Publication
pub mod Free
use perago.Base.{
  ℕ, ◌+◌, ◌==◌, Bool, true, false, ◌&&◌, ◌||◌, not, Option, none, some, Text, text, text_eq, List,
  [], ◌∷◌, ◌++◌, if◌then◌else◌, length, join, text_in,
}
use perago.Errors.{
  Exception, task_input_error, guardrail_violation, pre_guardrail_violation,
  post_guardrail_violation, os_error, Outcome, ok, raised,
}
use perago.Value.{Value, dict, field, end, str_key}
use perago.Guards.{WorkspaceGuardrail, FileView, check_guardrails, slash}
use perago.Models.{
  WorkspaceRef, WorkspaceSpec, MetricSpec, validate_workspace_ref, dump_workspace_ref,
  published_output,
}
use perago.Attempt.{Attempt, assert_current_attempt_snapshot}
use perago.Result.{RuntimeTaskResult, completed_result, result_for_exception}
use perago.Workspace.{Entry, Node, symlink, file, no_file, is_marker}
use Calls.{
  StagedWorkspace, Event, Environment, Machine, Run, ◌>>=◌, ◌>>◌, lift, ask, ask_outcome, perform,
  prepare, download, body, load, stage, publish, noop, clean_staging, clean_workspace, continue,
  History,
}
unfoldable pub use Parts.{
  snapshot_entries, same_snapshot, workspace_file_bytes, check_phase_guardrails, add, discard,
}
pub use Parts.{
  as_phase_error, required_fields, workspace_io, output_value, after_timer, drop_os_error, keep_dir,
  keep_staged, NoopCallback, call_noop, forget_staging, Task, InputData, SnapshotEntry,
}

-- The parameters of one attempt. `depth` is the interpreter's recursion limit, `has_recorder` says
-- whether a recorder was passed.
module _ (env : Environment) (task : Task) (input : InputData) (attempt : Attempt)
    (has_recorder : Bool) (depth : ℕ) where
  -- `_workspace_io_metrics_enabled`
  unfoldable pub io_metrics : Bool
  io_metrics = has_recorder && workspace_io task.metrics

  -- `with metrics.runtime_timer(…)`: the sample is taken on every way out, and an exception of the
  -- recorder replaces what the block gave.
  unfoldable pub timed : {A : Type 0} → Text → Run A → Run A
  timed operation m s =
      let (r, s') = m s in
      (
        after_timer
            (env.record_metric (text "workspace_io_duration_seconds") operation none s'.history) r,
        s',
      )

  abbrev pub maybe_timed : {A : Type 0} → Text → Run A → Run A
  maybe_timed operation m = if io_metrics then timed operation m else m

  unfoldable pub sample_bytes : Text → ℕ → Run (Unit {0})
  sample_bytes operation bytes =
      ask_outcome (env.record_metric (text "workspace_io_bytes") operation (some bytes))

  unfoldable pub measure : Text → Run ℕ
  unfolding workspace_file_bytes
  measure dir = do entries ← ask_outcome (env.listing dir); lift (ok (workspace_file_bytes entries))

  unfoldable pub snapshot_workspace : Text → Run (List SnapshotEntry)
  unfolding snapshot_entries
  snapshot_workspace dir = do
    entries ← ask_outcome (env.listing dir)
    lift (ok (snapshot_entries env.file_digest entries))

  -- `workspace_dir = prepare_attempt_workspace(…)`
  unfoldable pub prepare_workspace : Run Text
  prepare_workspace s = keep_dir (env.prepare_attempt_workspace s.history) s

  unfoldable pub download_phase : WorkspaceRef → WorkspaceSpec → Text → Run (Unit {0})
  unfolding timed sample_bytes measure
  download_phase w spec dir =
      let call : Run (Unit {0}) = perform (env.download_workspace w spec dir) download in
      if io_metrics
      then (do
        timed (text "download") call
        bytes ← measure dir
        sample_bytes (text "download") bytes)
      else call

  -- `task.fn(workspace_dir, params)` or `task.fn(workspace_dir, params, metrics)`
  unfoldable pub call_fn : Option MetricSpec → Value → Run Value
  call_fn none params = perform (env.fn params) body
  call_fn (some m) params =
      if has_recorder
      then perform (env.fn params) body
      else lift (
          raised
            (task_input_error (text "metrics-enabled task invocation requires a MetricRecorder")))

  unfoldable pub invoke_workspace_task_body : WorkspaceSpec → Text → Run Value
  unfolding call_fn check_phase_guardrails
  invoke_workspace_task_body spec dir = do
    (w, p) ← lift (required_fields input.workspace input.params)
    _ ← lift (validate_workspace_ref w)
    params ← lift (env.validate_params task.strict_params p)
    before ← ask (env.view dir)
    lift (check_phase_guardrails before spec.pre (text "pre") pre_guardrail_violation)
    raw ← call_fn task.metrics params
    result ← lift (env.validate_result raw)
    after ← ask (env.view dir)
    lift (check_phase_guardrails after spec.post (text "post") post_guardrail_violation)
    lift (ok result)

  -- `assert_current_attempt_snapshot(attempt, load_current_attempt(attempt))`
  unfoldable pub fence : Run (Unit {0})
  fence = do
    fresh ← perform (env.load_current_attempt attempt) load
    lift (assert_current_attempt_snapshot attempt fresh)

  unfoldable pub complete : WorkspaceRef → Text → Value → Run RuntimeTaskResult
  complete w ref result = do
    out ← lift (published_output w ref)
    lift (completed_result depth (output_value out result))

  -- `_complete_noop_workspace`
  unfoldable pub complete_noop : WorkspaceRef → WorkspaceSpec → Run Text
  complete_noop w spec = call_noop w spec env.complete_noop_workspace

  -- `staged = stage_workspace(…)`
  unfoldable pub call_stage : WorkspaceRef → WorkspaceSpec → Text → Run StagedWorkspace
  call_stage w spec dir s = keep_staged (env.stage_workspace dir w spec s.history) s

  unfoldable pub stage_phase : WorkspaceRef → WorkspaceSpec → Text → Run StagedWorkspace
  unfolding timed sample_bytes measure call_stage
  stage_phase w spec dir =
      if io_metrics
      then (do
        bytes ← measure dir
        st ← timed (text "upload") (call_stage w spec dir)
        sample_bytes (text "upload") bytes
        lift (ok st))
      else call_stage w spec dir

  unfoldable pub publish_changes :
      WorkspaceRef → WorkspaceSpec → Text → Value → Run RuntimeTaskResult
  unfolding stage_phase fence complete timed
  publish_changes w spec dir result = do
    st ← stage_phase w spec dir
    fence
    ref ← maybe_timed (text "publish") (perform (env.publish_workspace st w spec) (publish st))
    complete w ref result

  unfoldable pub publish_nothing : WorkspaceRef → WorkspaceSpec → Value → Run RuntimeTaskResult
  unfolding complete_noop complete timed
  publish_nothing w spec result = do
    ref ← maybe_timed (text "publish") (complete_noop w spec)
    complete w ref result

  unfoldable pub finish_writable :
      WorkspaceRef → WorkspaceSpec → Text → List SnapshotEntry → Value → Run RuntimeTaskResult
  unfolding snapshot_workspace fence publish_changes publish_nothing same_snapshot
  finish_writable w spec dir initial result = do
    final ← snapshot_workspace dir
    fence
    (if same_snapshot final initial
        then publish_nothing w spec result
        else publish_changes w spec dir result)

  unfoldable pub after_download : WorkspaceRef → WorkspaceSpec → Text → Run RuntimeTaskResult
  unfolding snapshot_workspace invoke_workspace_task_body finish_writable complete
  after_download w spec dir =
      if spec.read_only
      then (do result ← invoke_workspace_task_body spec dir; complete w w.ref result)
      else (do
        initial ← snapshot_workspace dir
        result ← invoke_workspace_task_body spec dir
        finish_writable w spec dir initial result)

  -- the `try` block
  unfoldable pub attempt_block : WorkspaceSpec → Run RuntimeTaskResult
  unfolding prepare_workspace download_phase after_download
  attempt_block spec = do
    (wv, pv) ← lift (required_fields input.workspace input.params)
    w ← lift (validate_workspace_ref wv)
    dir ← prepare_workspace
    download_phase w spec dir
    after_download w spec dir

  -- `_cleanup_staging_safely`: every exception is logged and dropped.
  unfoldable pub cleanup_staging_safely : Machine → Machine
  cleanup_staging_safely s = forget_staging s.staged s

  abbrev pub remove_dir : Option Text → Run (Unit {0})
  remove_dir none s = (ok tt, s)
  remove_dir (some dir) s = (
    drop_os_error (env.cleanup_attempt_workspace dir s.history),
    record s { history = clean_workspace dir ∷ s.history },
  )

  -- `cleanup_attempt_workspace_safely`: an `OSError` is logged, another exception passes. The log
  -- record reads attributes of the attempt that `prepare_attempt_workspace` has read before.
  unfoldable pub cleanup_workspace_safely : Run (Unit {0})
  cleanup_workspace_safely s = remove_dir s.workspace_dir s

  abbrev pub finish_with :
      Text
      → Outcome RuntimeTaskResult
      → Outcome (Unit {0})
      → Machine
      → Outcome RuntimeTaskResult × Machine
  finish_with token result (ok _) s =
      (result, record s { active_owner_tokens = discard token s.active_owner_tokens })
  finish_with token result (raised e) s = (raised e, s)

  -- The `finally` clause.
  unfoldable pub finally_clause :
      Text → Outcome RuntimeTaskResult → Machine → Outcome RuntimeTaskResult × Machine
  unfolding cleanup_staging_safely cleanup_workspace_safely
  finally_clause token result s =
      let (cleaned, s') = cleanup_workspace_safely (cleanup_staging_safely s) in
      finish_with token result cleaned s'

  abbrev pub handle : ℕ → Outcome RuntimeTaskResult → Outcome RuntimeTaskResult
  handle max_length (ok r) = ok r
  handle max_length (raised e) = result_for_exception depth e max_length

  -- `token` is the token of the new owner, `max_length` the limit on the failure reason.
  unfoldable pub run_with_spec :
      WorkspaceSpec → Text → ℕ → Machine → Outcome RuntimeTaskResult × Machine
  unfolding attempt_block finally_clause
  run_with_spec spec token max_length s =
      let (r, s') = attempt_block spec (record s {
        workspace_dir = none;
        staged = none;
        active_owner_tokens = add token s.active_owner_tokens;
      }) in
      finally_clause token (handle max_length r) s'

  abbrev pub with_spec :
      Option WorkspaceSpec → Text → ℕ → Machine → Outcome RuntimeTaskResult × Machine
  with_spec none token max_length s = (
    raised (task_input_error (text "run_workspace_task_attempt only supports workspace tasks")),
    s,
  )
  with_spec (some spec) token max_length s = run_with_spec spec token max_length s

  unfoldable pub run_workspace_task_attempt :
      Text → ℕ → Machine → Outcome RuntimeTaskResult × Machine
  unfolding run_with_spec
  run_workspace_task_attempt token max_length s = with_spec task.workspace token max_length s
