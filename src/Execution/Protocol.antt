-- ===== src/Execution/Protocol.antt =====
-- The calls that an attempt may make, in their order: the abstract specification of
-- `run_workspace_task_attempt`.
use perago.Base.{Bool, false, ◌≡◌, Text, Option, none, some, [], ◌∷◌}
use perago.Errors.{Exception, Outcome, ok, raised}
use perago.Value.{Value}
use perago.Attempt.{Attempt}
use perago.Attempt.Fence.{SameAttempt}
use perago.Execution.Calls.{
  StagedWorkspace, History, prepare, download, body, load, stage, publish, noop, clean_staging,
  clean_workspace,
}

-- How far an attempt has come.
pub data Progress : Type 0 where
  started ready downloaded ran : Progress
  -- the fence has passed once
  fenced : Progress
  staged_as : StagedWorkspace → Progress
  -- the fence has passed again, after staging
  cleared : StagedWorkspace → Progress
  -- a ref was given by the publication, or by the completion of an unchanged workspace
  published : Text → Progress

-- The calls that lead to a point of the attempt, all of which succeeded. A read-only task never
-- reads the attempt again, and so never stages, publishes or completes.
pub data Trace (attempt : Attempt) (read_only : Bool) : Progress → History → Type 0 where
  start_trace : Trace attempt read_only started []
  prepare_trace :
      {h : History} (dir : Text)
      → Trace attempt read_only started h
      → Trace attempt read_only ready (prepare (ok dir) ∷ h)
  download_trace :
      {h : History}
      → Trace attempt read_only ready h
      → Trace attempt read_only downloaded (download (ok tt) ∷ h)
  body_trace :
      {h : History} (v : Value)
      → Trace attempt read_only downloaded h
      → Trace attempt read_only ran (body (ok v) ∷ h)
  fence_trace :
      {h : History} (fresh : Attempt)
      → read_only ≡ false
      → SameAttempt attempt fresh
      → Trace attempt read_only ran h
      → Trace attempt read_only fenced (load (ok fresh) ∷ h)
  stage_trace :
      {h : History} (w : StagedWorkspace)
      → Trace attempt read_only fenced h
      → Trace attempt read_only (staged_as w) (stage (ok w) ∷ h)
  fence_again_trace :
      {h : History} (w : StagedWorkspace) (fresh : Attempt)
      → SameAttempt attempt fresh
      → Trace attempt read_only (staged_as w) h
      → Trace attempt read_only (cleared w) (load (ok fresh) ∷ h)
  publish_trace :
      {h : History} (w : StagedWorkspace) (ref : Text)
      → Trace attempt read_only (cleared w) h
      → Trace attempt read_only (published ref) (publish w (ok ref) ∷ h)
  noop_trace :
      {h : History} (ref : Text)
      → Trace attempt read_only fenced h
      → Trace attempt read_only (published ref) (noop (ok ref) ∷ h)

-- Where an attempt may stop: at any point, or with a call that raised or gave a stale attempt.
pub data Stopped (attempt : Attempt) (read_only : Bool) : History → Type 0 where
  stop_at : {h : History} (p : Progress) → Trace attempt read_only p h → Stopped attempt read_only h
  prepare_fails :
      {h : History} (e : Exception)
      → Trace attempt read_only started h
      → Stopped attempt read_only (prepare (raised e) ∷ h)
  download_fails :
      {h : History} (e : Exception)
      → Trace attempt read_only ready h
      → Stopped attempt read_only (download (raised e) ∷ h)
  body_fails :
      {h : History} (e : Exception)
      → Trace attempt read_only downloaded h
      → Stopped attempt read_only (body (raised e) ∷ h)
  fence_fails :
      {h : History} (r : Outcome Attempt)
      → read_only ≡ false
      → Trace attempt read_only ran h
      → Stopped attempt read_only (load r ∷ h)
  stage_fails :
      {h : History} (e : Exception)
      → Trace attempt read_only fenced h
      → Stopped attempt read_only (stage (raised e) ∷ h)
  fence_again_fails :
      {h : History} (w : StagedWorkspace) (r : Outcome Attempt)
      → Trace attempt read_only (staged_as w) h
      → Stopped attempt read_only (load r ∷ h)
  publish_fails :
      {h : History} (w : StagedWorkspace) (e : Exception)
      → Trace attempt read_only (cleared w) h
      → Stopped attempt read_only (publish w (raised e) ∷ h)
  noop_fails :
      {h : History} (e : Exception)
      → Trace attempt read_only fenced h
      → Stopped attempt read_only (noop (raised e) ∷ h)

-- The directory and the staged workspace that a history has made.
abbrev pub prepared_in : History → Option Text
prepared_in [] = none
prepared_in (prepare (ok dir) ∷ h) = some dir
prepared_in (_ ∷ h) = prepared_in h

abbrev pub staged_in : History → Option StagedWorkspace
staged_in [] = none
staged_in (stage (ok w) ∷ h) = some w
staged_in (_ ∷ h) = staged_in h

abbrev pub clean_staging_of : Option StagedWorkspace → History → History
clean_staging_of none h = h
clean_staging_of (some w) h = clean_staging w ∷ h

abbrev pub clean_workspace_of : Option Text → History → History
clean_workspace_of none h = h
clean_workspace_of (some dir) h = clean_workspace dir ∷ h

-- The history with the calls of the `finally` clause: what was staged is removed, then the
-- prepared directory, each once and nothing else.
abbrev pub cleaned : History → History
cleaned h = clean_workspace_of (prepared_in h) (clean_staging_of (staged_in h) h)
