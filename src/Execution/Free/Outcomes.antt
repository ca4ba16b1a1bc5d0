-- ===== src/Execution/Free/Outcomes.antt =====
-- How an attempt without a workspace ends, and what a workspace output holds.
use perago.Base.{ℕ, ◌<◌, Bool, Text, text, Option, none, some, ◌≡◌, refl, ap, ◌⊎◌, inl, inr}
use perago.Errors.{Exception, message, Outcome, ok, raised, >>=-eq-ok}
use perago.Value.{Value}
use perago.Models.{WorkspaceRef, validate_workspace_ref, dump_workspace_ref, published_output}
use perago.Models.References.{published_output_cases}
use perago.Result.{RuntimeTaskResult, TaskResultStatus, completed_result, validate_payload_shape}
use perago.Result.Classify.{Carries, output_data, status_for, report, result_for_exception_total}
use perago.Execution.{Task, output_value}
use perago.Execution.Free.{
  Callable, without_workspace, with_workspace, params_field, recorder_given, result_value,
  build_workspace_free_task_output, build_workspace_task_output, invoke_workspace_free_task,
  run_workspace_free_task_attempt,
}

abbrev pub completed_output : Value → RuntimeTaskResult
completed_output v = record {
  status = TaskResultStatus.completed;
  output = some v;
  reason_for_incompletion = none;
}

-- All the steps of the invocation have succeeded, and `v` is its output.
pub record Ran (task : Task) (callable : Callable) (params : Option Value) (v : Value)
    : Type 0 where
  pub raw : Value
  pub given : params ≡ some raw
  pub validated : Value
  pub accepted : callable.validate_params task.strict_params raw ≡ ok validated
  pub returned : Value
  pub ran : callable.fn validated ≡ ok returned
  pub result : Value
  pub checked : callable.validate_result returned ≡ ok result
  pub output : v ≡ result_value result

module _ (task : Task) (callable : Callable) where
  params_field-eq : (p : Option Value) {raw : Value} → params_field p ≡ ok raw → p ≡ some raw
  params_field-eq none h = cc
  params_field-eq (some p) h = cc

  invoke-Ran :
      (params : Option Value) (has_recorder : Bool) {v : Value}
      → invoke_workspace_free_task task callable params has_recorder ≡ ok v
      → Ran task callable params v
  unfolding invoke_workspace_free_task build_workspace_free_task_output
  invoke-Ran params has_recorder h =
      let (_, _, h1) = >>=-eq-ok (without_workspace task.workspace _) _ h in
      let (raw, given, h2) = >>=-eq-ok (params_field params) _ h1 in
      let (validated, accepted, h3) =
        >>=-eq-ok (callable.validate_params task.strict_params raw) _ h2 in
      let (_, _, h4) = >>=-eq-ok (recorder_given task.metrics has_recorder) _ h3 in
      let (returned, ran, h5) = >>=-eq-ok (callable.fn validated) _ h4 in
      let (_, _, h6) = >>=-eq-ok (without_workspace task.workspace _) _ h5 in
      let (result, checked, h7) = >>=-eq-ok (callable.validate_result returned) _ h6 in
      record {
        raw = raw;
        given = params_field-eq params given;
        validated = validated;
        accepted = accepted;
        returned = returned;
        ran = ran;
        result = result;
        checked = checked;
        output = cc h7;
      }

  completes : (depth : ℕ) (v : Value) → completed_result depth v ≡ ok (completed_output v)
  unfolding completed_result validate_payload_shape
  completes depth v = refl

  -- An attempt of a task without a workspace always returns, if the length limit is positive and
  -- the exceptions of the invocation carry acceptable metadata: with the validated result of the
  -- task function when every step succeeds, and otherwise with the report of the exception.
  pub run_workspace_free_task_attempt_cases :
      (depth : ℕ) (params : Option Value) (has_recorder : Bool) (max_length : ℕ)
      → task.workspace ≡ none
      → 0 < max_length
      → ((e : Exception)
          → invoke_workspace_free_task task callable params has_recorder ≡ raised e
          → Carries depth (output_data e))
      → ((v : Value) × Ran task callable params v
          × (run_workspace_free_task_attempt task callable depth params has_recorder max_length
              ≡ ok (completed_output v)))
        ⊎ ((e : Exception) × (invoke_workspace_free_task task callable params has_recorder
              ≡ raised e)
            × (run_workspace_free_task_attempt task callable depth params has_recorder max_length
                ≡ ok (report (status_for e) (output_data e) (message e) max_length)))
  unfolding run_workspace_free_task_attempt
  run_workspace_free_task_attempt_cases depth params has_recorder max_length free pos carried =
      ended (invoke_workspace_free_task task callable params has_recorder) refl
    where
      allowed :
          without_workspace task.workspace
            (text "run_workspace_free_task_attempt only supports workspace-free tasks")
          ≡ ok tt
      allowed =
          ap
            (λ o.
              without_workspace o
                (text "run_workspace_free_task_attempt only supports workspace-free tasks"))
            free

      ended :
          (r : Outcome Value)
          → invoke_workspace_free_task task callable params has_recorder ≡ r
          → ((v : Value) × Ran task callable params v
              × (run_workspace_free_task_attempt task callable depth params has_recorder max_length
                  ≡ ok (completed_output v)))
            ⊎ ((e : Exception) × (invoke_workspace_free_task task callable params has_recorder
                  ≡ raised e)
                × (run_workspace_free_task_attempt task callable depth params has_recorder
                      max_length
                    ≡ ok (report (status_for e) (output_data e) (message e) max_length)))
      ended (ok v) e =
          inl (v, invoke-Ran params has_recorder e, rw (allowed, e, completes depth v) refl)
      ended (raised x) e =
          inr (
            x,
            e,
            rw (allowed, e) (result_for_exception_total depth x max_length pos (carried x e)),
          )

  -- When a workspace output is built, it holds the input's reference with the published ref in the
  -- place of its own, which the next task accepts as its input, and the validated result.
  pub build_workspace_task_output-eq-ok :
      (input : Value) (ref : Text) (raw : Value) {v : Value}
      → build_workspace_task_output task callable input ref raw ≡ ok v
      → (w : WorkspaceRef) × (result : Value) × (validate_workspace_ref input ≡ ok w)
        × (callable.validate_result raw ≡ ok result)
        × (v ≡ output_value (record w { ref = ref }) result)
        × (validate_workspace_ref (dump_workspace_ref (record w { ref = ref }))
            ≡ ok (record w { ref = ref }))
  unfolding build_workspace_task_output
  build_workspace_task_output-eq-ok input ref raw h =
      let (_, _, h1) = >>=-eq-ok (with_workspace task.workspace _) _ h in
      let (w, accepted, h2) = >>=-eq-ok (validate_workspace_ref input) _ h1 in
      let (out, published, h3) = >>=-eq-ok (published_output w ref) _ h2 in
      let (result, checked, h4) = >>=-eq-ok (callable.validate_result raw) _ h3 in
      elim (published_output_cases input w ref accepted) [
        | inl (e, again, _) ↦ (w, result, accepted, checked, cc (h4, published, e), again)
        | inr (e, _) ↦ cc (e, published)
      ]
