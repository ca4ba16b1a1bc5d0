-- ===== src/Execution/Guarantees.antt =====
-- `run_workspace_task_attempt` as a whole: what it calls, what it returns and what it leaves.
use perago.Base.{ℕ, ◌<◌, Bool, true, false, some, Text, text_in, [], ◌≡◌, ap}
use perago.Errors.{Exception, Outcome, ok, raised}
use perago.Models.{WorkspaceSpec}
use perago.Attempt.{Attempt}
use perago.Result.{RuntimeTaskResult, TaskResultStatus}
use perago.Result.Classify.{Carries, output_data}
use perago.Execution.Calls.{Environment, Machine}
use perago.Execution.Finally.{OnlyOsErrors}
use perago.Execution.Publication.{
  AllFenced, OnlyReads, Stopped-AllFenced, Stopped-OnlyReads, cleaned-AllFenced, cleaned-OnlyReads,
}
use perago.Execution.{Task, InputData, run_with_spec, with_spec, run_workspace_task_attempt}
use perago.Execution.Runs.{
  FollowsProtocol, Succeeded, block, run-follows, run-returns, run-succeeds,
}

module _ (env : Environment) (task : Task) (input : InputData) (attempt : Attempt)
    (has_recorder : Bool) (depth : ℕ) (token : Text) (max_length : ℕ) (s : Machine) where
  abbrev attempt_run : Outcome RuntimeTaskResult × Machine
  attempt_run =
      run_workspace_task_attempt env task input attempt has_recorder depth token max_length s

  attempt-eq :
      {spec : WorkspaceSpec}
      → task.workspace ≡ some spec
      → attempt_run
        ≡ run_with_spec env task input attempt has_recorder depth spec token max_length s
  unfolding run_workspace_task_attempt
  attempt-eq has =
      ap (λ o. with_spec env task input attempt has_recorder depth o token max_length s) has

  -- Whatever the callbacks, the file system and the task give, an attempt of a workspace task that
  -- starts with no call made follows the protocol: it prepares, downloads, runs the task, and, only
  -- when the task may write, fences and completes, or fences, stages, fences again and publishes,
  -- stopping at the first step that fails; then it removes what it staged and what it prepared.
  pub attempt-FollowsProtocol :
      {spec : WorkspaceSpec}
      → task.workspace ≡ some spec
      → s.history ≡ []
      → FollowsProtocol attempt spec.read_only attempt_run.1.history
  attempt-FollowsProtocol {spec} has empty =
      rw (attempt-eq has)
        (run-follows env task input attempt has_recorder depth spec token max_length s empty)

  -- When an attempt that starts with no call made ends with a completed result, it has done all of
  -- its work, and reports the ref of the input, for a read-only task, or else the ref that its last
  -- call before the cleanup has published or relocated.
  pub completed-Succeeded :
      {spec : WorkspaceSpec} {r : RuntimeTaskResult}
      → task.workspace ≡ some spec
      → s.history ≡ []
      → attempt_run.0 ≡ ok r
      → r.status ≡ TaskResultStatus.completed
      → Succeeded attempt spec.read_only input r attempt_run.1.history
  completed-Succeeded {spec} has empty done c = rw (attempt-eq has) (
      run-succeeds env task input attempt has_recorder depth spec token max_length s empty
        (rw (attempt-eq has) at done) c)

  -- An attempt raises nothing and leaves the set of active owners as it was, whatever its steps
  -- raise, when it starts with no call made, its token is new, the length limit is positive,
  -- removing a directory fails only with `OSError`, and what the block raises carries acceptable
  -- metadata, which the constructors of the two exceptions with metadata ensure.
  pub attempt_returns :
      {spec : WorkspaceSpec}
      → task.workspace ≡ some spec
      → s.history ≡ []
      → text_in token s.active_owner_tokens ≡ false
      → 0 < max_length
      → OnlyOsErrors env
      → ((e : Exception)
          → (block env task input attempt has_recorder depth spec token max_length s).0 ≡ raised e
          → Carries depth (output_data e))
      → ((r : RuntimeTaskResult) × (attempt_run.0 ≡ ok r))
        × (attempt_run.1.active_owner_tokens ≡ s.active_owner_tokens)
  attempt_returns {spec} has empty fresh pos only carried = rw (attempt-eq has) (
      run-returns env task input attempt has_recorder depth spec token max_length s empty fresh pos
        only carried)

  -- Every publication of an attempt that starts with no call made comes right after a fresh read
  -- of the same running attempt, which comes right after the staging of what is published, which
  -- comes right after another such read.
  pub attempt-AllFenced :
      {spec : WorkspaceSpec}
      → task.workspace ≡ some spec
      → s.history ≡ []
      → AllFenced attempt attempt_run.1.history
  attempt-AllFenced {spec} has empty =
      let f = attempt-FollowsProtocol has empty in
      rw f.cleaned_up (cleaned-AllFenced attempt f.before (Stopped-AllFenced attempt f.stopped))

  -- An attempt of a read-only task that starts with no call made neither reads the attempt again
  -- nor stages, publishes or relocates anything.
  pub attempt-OnlyReads :
      {spec : WorkspaceSpec}
      → task.workspace ≡ some spec
      → spec.read_only ≡ true
      → s.history ≡ []
      → OnlyReads attempt_run.1.history
  attempt-OnlyReads {spec} has reading empty =
      let f = attempt-FollowsProtocol has empty in
      rw f.cleaned_up
        (cleaned-OnlyReads f.before (Stopped-OnlyReads attempt (rw reading at f.stopped)))
