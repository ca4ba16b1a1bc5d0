-- ===== src/Tests/Attempts.antt =====
-- The attempt of `perago.Tests.Data` from its start to its result.
use perago.Base.{is_blank, is_space, false, text, text_in, text_eq, [], ◌∷◌, ◌≡◌, refl, arith}
use perago.Errors.{Outcome, ok}
use perago.Value.{str}
use perago.Attempt.{assert_current_attempt_snapshot}
use perago.Guards.{check_guardrails}
use perago.Workspace.{is_marker}
use perago.Models.{validate_workspace_ref, only_keys, field_value, published_output}
use perago.Result.{completed_result, RuntimeTaskResult}
use perago.Execution.Calls.{
  ◌>>=◌, lift, perform, ask, ask_outcome, Machine, prepare, download, body, load, stage, publish,
  clean_staging, clean_workspace,
}
use perago.Execution.{Task, run_workspace_task_attempt, attempt_block, io_metrics}
use perago.Execution.Finishes.{completed_with}
use perago.Execution.Publication.{AllFenced, OnlyReads}
use perago.Execution.Runs.{FollowsProtocol, block, Succeeded}
use perago.Execution.Guarantees.{
  attempt-FollowsProtocol, completed-Succeeded, attempt_returns, attempt-AllFenced,
  attempt-OnlyReads,
}
use perago.Tests.Data.{
  demo_attempt, demo_spec, reading_spec, demo_task, reading_task, demo_ref, demo_input, demo_env,
  demo_machine, demo_staged,
}

abbrev demo_run : Task → Outcome RuntimeTaskResult × Machine
demo_run task =
    run_workspace_task_attempt demo_env task demo_input demo_attempt false 100 (text "me") 500
      demo_machine

abbrev demo_result : RuntimeTaskResult
demo_result = completed_with demo_ref (text "c2") (str (text "done"))

demo_run_lem : (demo_run demo_task).0 ≡ ok demo_result
unfolding run_workspace_task_attempt ◌>>=◌ lift validate_workspace_ref only_keys field_value text_in
    text_eq text attempt_block is_blank is_space io_metrics perform ask_outcome ask check_guardrails
    assert_current_attempt_snapshot is_marker published_output completed_result
demo_run_lem = refl

demo_block_lem :
    (block demo_env demo_task demo_input demo_attempt false 100 demo_spec
      (text "me")
      500
      demo_machine).0
    ≡ ok demo_result
unfolding run_workspace_task_attempt ◌>>=◌ lift validate_workspace_ref only_keys field_value text_in
    text_eq text attempt_block is_blank is_space io_metrics perform ask_outcome ask check_guardrails
    assert_current_attempt_snapshot is_marker published_output completed_result
demo_block_lem = refl

-- the calls of the attempt, the last one first
demo_history_lem :
    (demo_run demo_task).1.history
    ≡ clean_workspace (text "/tmp/ws")
      ∷ clean_staging demo_staged
      ∷ publish demo_staged (ok (text "c2"))
      ∷ load (ok demo_attempt)
      ∷ stage (ok demo_staged)
      ∷ load (ok demo_attempt)
      ∷ body (ok (str (text "done")))
      ∷ download (ok tt)
      ∷ prepare (ok (text "/tmp/ws"))
      ∷ []
unfolding run_workspace_task_attempt ◌>>=◌ lift validate_workspace_ref only_keys field_value text_in
    text_eq text attempt_block is_blank is_space io_metrics perform ask_outcome ask check_guardrails
    assert_current_attempt_snapshot is_marker published_output completed_result
demo_history_lem = refl

attempt-FollowsProtocol_example : FollowsProtocol demo_attempt false (demo_run demo_task).1.history
attempt-FollowsProtocol_example =
    attempt-FollowsProtocol demo_env demo_task demo_input demo_attempt false 100 (text "me") 500
      demo_machine {spec = demo_spec} refl refl

completed-Succeeded_example :
    Succeeded demo_attempt false demo_input demo_result (demo_run demo_task).1.history
completed-Succeeded_example =
    completed-Succeeded demo_env demo_task demo_input demo_attempt false 100 (text "me") 500
      demo_machine {spec = demo_spec} refl refl demo_run_lem refl

new_token : text_in (text "me") (text "other" ∷ []) ≡ false
unfolding text_in text_eq text
new_token = refl

attempt_returns_example :
    ((r : RuntimeTaskResult) × ((demo_run demo_task).0 ≡ ok r))
    × ((demo_run demo_task).1.active_owner_tokens ≡ text "other" ∷ [])
attempt_returns_example =
    attempt_returns demo_env demo_task demo_input demo_attempt false 100 (text "me") 500
      demo_machine {spec = demo_spec} refl refl new_token (omega arith)
      (λ dir h e busy. (text "busy", cc busy)) (λ e h. cc (demo_block_lem, h))

attempt-AllFenced_example : AllFenced demo_attempt (demo_run demo_task).1.history
attempt-AllFenced_example =
    attempt-AllFenced demo_env demo_task demo_input demo_attempt false 100 (text "me") 500
      demo_machine {spec = demo_spec} refl refl

attempt-OnlyReads_example : OnlyReads (demo_run reading_task).1.history
attempt-OnlyReads_example =
    attempt-OnlyReads demo_env reading_task demo_input demo_attempt false 100 (text "me") 500
      demo_machine {spec = reading_spec} refl refl refl
