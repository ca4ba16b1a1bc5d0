-- ===== src/Tests/FreeTasks.antt =====
-- A task without a workspace, and the output of a task with one.
use perago.Base.{text_in, text_eq, is_blank, true, false, text, none, some, ◌≡◌, refl, ◌⊎◌, arith}
use perago.Errors.{Exception, task_failed, message, ok, raised}
use perago.Value.{Value, str}
use perago.Models.{published_output, WorkspaceRef, validate_workspace_ref, dump_workspace_ref}
use perago.Result.Classify.{report, status_for, output_data, Carries}
use perago.Execution.{Task, output_value}
use perago.Execution.Free.{
  Callable, invoke_workspace_free_task, run_workspace_free_task_attempt,
  build_workspace_task_output,
}
use perago.Execution.Free.Outcomes.{
  Ran, completed_output, run_workspace_free_task_attempt_cases, build_workspace_task_output-eq-ok,
}
use perago.Tests.Data.{demo_task, demo_ref, demo_ref_value, no_fields}

abbrev free_task : Task
free_task = record { workspace = none; metrics = none; strict_params = true }

-- its function raises `TaskFailed`
abbrev failing : Callable
failing = record {
  validate_params = λ strict v. ok v;
  fn = λ v. raised (task_failed (text "too large") none);
  validate_result = λ v. ok v;
}

failing_lem :
    invoke_workspace_free_task free_task failing (some no_fields) false
    ≡ raised (task_failed (text "too large") none)
unfolding invoke_workspace_free_task
failing_lem = refl

run_workspace_free_task_attempt_cases_example :
    ((v : Value) × Ran free_task failing (some no_fields) v
      × (run_workspace_free_task_attempt free_task failing 100 (some no_fields) false 500
          ≡ ok (completed_output v)))
    ⊎ ((e : Exception) × (invoke_workspace_free_task free_task failing (some no_fields) false
          ≡ raised e)
        × (run_workspace_free_task_attempt free_task failing 100 (some no_fields) false 500
            ≡ ok (report (status_for e) (output_data e) (message e) 500)))
run_workspace_free_task_attempt_cases_example =
    run_workspace_free_task_attempt_cases free_task failing 100 (some no_fields) false 500 refl
      (omega arith) (λ e h. carried e (cc (failing_lem, h)))
  where
    carried :
        (e : Exception) → e ≡ task_failed (text "too large") none → Carries 100 (output_data e)
    carried e same = rw same tt

abbrev built : Value
built = output_value (record demo_ref { ref = text "c2" }) (str (text "done"))

built_lem :
    build_workspace_task_output demo_task failing demo_ref_value (text "c2") (str (text "done"))
    ≡ ok built
unfolding build_workspace_task_output text validate_workspace_ref text_in text_eq is_blank
    published_output
built_lem = refl

build_workspace_task_output-eq-ok_example :
    (w : WorkspaceRef) × (result : Value) × (validate_workspace_ref demo_ref_value ≡ ok w)
    × (failing.validate_result (str (text "done")) ≡ ok result)
    × (built ≡ output_value (record w { ref = text "c2" }) result)
    × (validate_workspace_ref (dump_workspace_ref (record w { ref = text "c2" }))
        ≡ ok (record w { ref = text "c2" }))
build_workspace_task_output-eq-ok_example =
    build_workspace_task_output-eq-ok demo_task failing demo_ref_value (text "c2")
      (str (text "done")) built_lem
