-- ===== src/Tests/Data.antt =====
-- One attempt of a task that writes a file into its workspace.
use perago.Base.{true, false, none, some, text, List, [], ◌∷◌}
use perago.Errors.{os_error, Outcome, ok, raised}
use perago.Value.{Value, dict, field, end, str, str_key}
use perago.Models.{WorkspaceRef, WorkspaceSpec}
use perago.Attempt.{Attempt, in_progress}
use perago.Workspace.{Entry, file}
use perago.Execution.{Task, InputData}
use perago.Execution.Calls.{Environment, History, Machine, StagedWorkspace, body}

abbrev pub demo_attempt : Attempt
demo_attempt = record {
  status = some in_progress;
  workflow_instance_id = some (text "workflow-1");
  task_id = some (text "task-1");
  retry_count = some 2;
  task_def_name = some (text "render");
  reference_task_name = some (text "render_ref");
  seq = some 1;
  iteration = some 0;
  execution_id = none;
}

abbrev pub demo_spec : WorkspaceSpec
demo_spec = record { prefix = text "data"; pre = []; post = []; read_only = false }

abbrev pub reading_spec : WorkspaceSpec
reading_spec = record { prefix = text "data"; pre = []; post = []; read_only = true }

abbrev pub demo_task : Task
demo_task = record { workspace = some demo_spec; metrics = none; strict_params = true }

abbrev pub reading_task : Task
reading_task = record { workspace = some reading_spec; metrics = none; strict_params = true }

abbrev pub demo_ref : WorkspaceRef
demo_ref = record { repository = text "repo"; branch = text "main"; ref = text "c0" }

abbrev pub no_fields : Value
no_fields = dict end

-- `dump_workspace_ref demo_ref`, written out
abbrev pub demo_ref_value : Value
demo_ref_value = dict (
    field (str_key (text "repository")) (str (text "repo")) (
      field (str_key (text "branch")) (str (text "main")) (
        field (str_key (text "refType")) (str (text "commit"))
          (field (str_key (text "ref")) (str (text "c0")) end))))

abbrev pub demo_input : InputData
demo_input = record { workspace = some demo_ref_value; params = some no_fields }

abbrev pub demo_staged : StagedWorkspace
demo_staged = record {
  repository = text "repo";
  branch = text "perago-staging-1";
  commit = text "c1";
}

-- the workspace is empty until the task has run
abbrev pub demo_listing : History → Outcome (List Entry)
demo_listing (body r ∷ h) =
    ok (record { path = text "out.txt" ∷ []; node = file (text "hello") } ∷ [])
demo_listing h = ok []

abbrev pub demo_env : Environment
demo_env = record {
  prepare_attempt_workspace = λ h. ok (text "/tmp/ws");
  download_workspace = λ w spec dir h. ok tt;
  listing = λ dir. demo_listing;
  view = λ dir h. record { is_file = λ p. true; is_dir = λ p. true; glob_count = λ p. ok 0 };
  file_digest = λ content. content;
  validate_params = λ strict v. ok v;
  fn = λ params h. ok (str (text "done"));
  validate_result = λ v. ok v;
  load_current_attempt = λ attempt h. ok attempt;
  stage_workspace = λ dir w spec h. ok demo_staged;
  publish_workspace = λ st w spec h. ok (text "c2");
  complete_noop_workspace = none;
  cleanup_staging = λ st h. ok tt;
  cleanup_attempt_workspace = λ dir h. raised (os_error (text "busy"));
  record_metric = λ metric operation bytes h. ok tt;
}

abbrev pub demo_machine : Machine
demo_machine = record {
  history = [];
  workspace_dir = none;
  staged = none;
  active_owner_tokens = text "other" ∷ [];
}
