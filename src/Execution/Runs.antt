-- ===== src/Execution/Runs.antt =====
-- An attempt of a task with a workspace: the `try` block, its handler and the `finally` clause
-- taken together.
use perago.Base.{
  ℕ, ◌<◌, Bool, true, false, Option, none, some, Text, text_in, [], ◌≡◌, ◌≢◌, refl, ◌∙◌, ◌⊎◌, inl,
  inr,
}
use perago.Errors.{
  Exception, message, pre_guardrail_violation, task_failed, task_terminal_error, Outcome, ok,
  raised, Returns, Returns-bind_any, Returns-eq,
}
use perago.Value.{Value}
use perago.Models.{WorkspaceRef, WorkspaceSpec, validate_workspace_ref}
use perago.Attempt.{Attempt}
use perago.Result.{
  RuntimeTaskResult, TaskResultStatus, result_for_exception, failed_result, terminal_failed_result,
  validate_payload_shape, failure_reason, check_shape,
}
use perago.Result.Classify.{result_for_exception_total, Carries, output_data}
use perago.Execution.Calls.{History, Environment, Machine}
use perago.Execution.Protocol.{started, ran, published, Trace, start_trace, Stopped, cleaned}
use perago.Execution.Rules.{At, Halted, halt, Ends}
use perago.Execution.Finishes.{completed_with, BlockEnds, attempt_block-leads}
use perago.Execution.Finally.{
  OnlyOsErrors, finally-history, finally-eq-ok, finally-keeps, discard-add,
}
use perago.Execution.{Task, InputData, add, attempt_block, handle, run_with_spec}

-- The calls keep to the protocol, and the `finally` clause has removed what they made.
pub record FollowsProtocol (attempt : Attempt) (read_only : Bool) (h : History) : Type 0 where
  pub before : History
  pub stopped : Stopped attempt read_only before
  pub cleaned_up : h ≡ cleaned before

-- The attempt has done all of its work: a read-only one ran the task and reports the ref that it
-- was given; another one reports the ref that its last call has published or relocated.
pub record Succeeded (attempt : Attempt) (read_only : Bool) (input : InputData)
    (r : RuntimeTaskResult) (h : History) : Type 0 where
  pub before : History
  pub cleaned_up : h ≡ cleaned before
  pub value : Value
  pub given : input.workspace ≡ some value
  pub w : WorkspaceRef
  pub accepted : validate_workspace_ref value ≡ ok w
  pub result : Value
  pub reported :
      ((read_only ≡ true)
        × Trace attempt read_only ran before
        × (r ≡ completed_with w w.ref result))
      ⊎ ((ref : Text) × (read_only ≡ false)
          × Trace attempt read_only (published ref) before
          × (r ≡ completed_with w ref result))

abbrev NotCompleted : RuntimeTaskResult → Type 0
NotCompleted r = r.status ≢ TaskResultStatus.completed

validated_fails :
    (depth : ℕ) (r : RuntimeTaskResult)
    → NotCompleted r
    → Returns NotCompleted (validate_payload_shape depth r)
unfolding validate_payload_shape
validated_fails depth r h =
    Returns-bind_any NotCompleted (check_shape depth r.status r.output r.reason_for_incompletion)
      (λ _. ok r) (λ _. h)

abbrev shown_as : TaskResultStatus → Option Value → Text → RuntimeTaskResult
shown_as status o shown = record {
  status = status;
  output = o;
  reason_for_incompletion = some shown;
}

failed_fails :
    (depth : ℕ) (t : Text) (n : ℕ) (o : Option Value)
    → Returns NotCompleted (failed_result depth t n o)
unfolding failed_result
failed_fails depth t n o =
    Returns-bind_any NotCompleted (failure_reason t n)
      (λ shown. validate_payload_shape depth (shown_as TaskResultStatus.failed o shown))
      (λ shown. validated_fails depth (shown_as TaskResultStatus.failed o shown) (λ h. cc))

terminal_fails :
    (depth : ℕ) (t : Text) (n : ℕ) (o : Option Value)
    → Returns NotCompleted (terminal_failed_result depth t n o)
unfolding terminal_failed_result
terminal_fails depth t n o =
    Returns-bind_any NotCompleted (failure_reason t n)
      (λ shown.
        validate_payload_shape depth (shown_as TaskResultStatus.failed_with_terminal_error o shown))
      (λ shown.
        validated_fails depth (shown_as TaskResultStatus.failed_with_terminal_error o shown)
          (λ h. cc))

-- An exception never becomes a completed result.
exception_fails :
    (depth : ℕ) (e : Exception) (n : ℕ) → Returns NotCompleted (result_for_exception depth e n)
unfolding result_for_exception
exception_fails depth (task_terminal_error reason output) n = terminal_fails depth reason n output
exception_fails depth (pre_guardrail_violation m) n = terminal_fails depth m n none
exception_fails depth (task_failed reason output) n = failed_fails depth reason n output
exception_fails depth e n = failed_fails depth (message e) n none

module _ (env : Environment) (task : Task) (input : InputData) (attempt : Attempt)
    (has_recorder : Bool) (depth : ℕ) (spec : WorkspaceSpec) (token : Text) (max_length : ℕ)
    (s : Machine) where
  -- the machine when the block starts
  abbrev pub begun : Machine
  begun = record s {
    workspace_dir = none;
    staged = none;
    active_owner_tokens = add token s.active_owner_tokens;
  }

  abbrev pub block : Outcome RuntimeTaskResult × Machine
  block = attempt_block env task input attempt has_recorder depth spec begun

  abbrev run : Outcome RuntimeTaskResult × Machine
  run = run_with_spec env task input attempt has_recorder depth spec token max_length s

  abbrev Ends_ : RuntimeTaskResult → Machine → Type 0
  Ends_ = BlockEnds env task input attempt has_recorder depth spec (add token s.active_owner_tokens)

  begins :
      s.history ≡ [] → At attempt spec.read_only (add token s.active_owner_tokens) started begun
  begins e = record {
    trace = rw e start_trace;
    synced = record { dir = rw e refl; staged = rw e refl; tokens_kept = refl };
  }

  block-Ends :
      s.history ≡ []
      → Ends attempt spec.read_only (add token s.active_owner_tokens) Ends_ block.0 block.1
  block-Ends e =
      (attempt_block-leads env task input attempt has_recorder depth spec _ (begins e)).at

  Ends-Halted :
      (r : Outcome RuntimeTaskResult) (s' : Machine)
      → Ends attempt spec.read_only (add token s.active_owner_tokens) Ends_ r s'
      → Halted attempt spec.read_only (add token s.active_owner_tokens) s'
  Ends-Halted (ok r) s' h = elim h.ended [ inl (_, c) ↦ halt c.0 | inr (_, (ref, c)) ↦ halt c.0 ]
  Ends-Halted (raised e) s' h = h

  halted : s.history ≡ [] → Halted attempt spec.read_only (add token s.active_owner_tokens) block.1
  halted e = Ends-Halted block.0 block.1 (block-Ends e)

  run-history : s.history ≡ [] → run.1.history ≡ cleaned block.1.history
  unfolding run_with_spec
  run-history e =
      finally-history env task input attempt has_recorder depth token _ block.1 (halted e).synced

  pub run-follows : s.history ≡ [] → FollowsProtocol attempt spec.read_only run.1.history
  run-follows e = record {
    before = block.1.history;
    stopped = (halted e).stopped;
    cleaned_up = run-history e;
  }

  handled-Ends :
      (b : Outcome RuntimeTaskResult) (s' : Machine) {r : RuntimeTaskResult}
      → Ends attempt spec.read_only (add token s.active_owner_tokens) Ends_ b s'
      → handle env task input attempt has_recorder depth max_length b ≡ ok r
      → r.status ≡ TaskResultStatus.completed
      → Ends_ r s'
  handled-Ends (ok r') s' h e c = rw (← (ok-injective e)) h
    where
      ok-injective : {a b : RuntimeTaskResult} → ok a ≡ ok b → a ≡ b
      ok-injective e = cc
  handled-Ends (raised x) s' h e c =
      absurd (Returns-eq NotCompleted _ (exception_fails depth x max_length) e c)

  handled-ok :
      0 < max_length
      → (b : Outcome RuntimeTaskResult)
      → ((e : Exception) → b ≡ raised e → Carries depth (output_data e))
      → (r : RuntimeTaskResult) × (handle env task input attempt has_recorder depth max_length b
          ≡ ok r)
  handled-ok pos (ok r) k = (r, refl)
  handled-ok pos (raised e) k = (_, result_for_exception_total depth e max_length pos (k e refl))

  pub run-returns :
      s.history ≡ []
      → text_in token s.active_owner_tokens ≡ false
      → 0 < max_length
      → OnlyOsErrors env
      → ((e : Exception) → block.0 ≡ raised e → Carries depth (output_data e))
      → ((r : RuntimeTaskResult) × (run.0 ≡ ok r))
        × (run.1.active_owner_tokens ≡ s.active_owner_tokens)
  unfolding run_with_spec
  run-returns empty fresh pos only carried =
      let (r, done) = handled-ok pos block.0 carried in
      let (same, forgotten) =
        finally-keeps env task input attempt has_recorder depth only token
          (handle env task input attempt has_recorder depth max_length block.0) block.1
          (halted empty).synced in
      ((r, same ∙ done), forgotten ∙ discard-add token s.active_owner_tokens fresh)

  pub run-succeeds :
      {r : RuntimeTaskResult}
      → s.history ≡ []
      → run.0 ≡ ok r
      → r.status ≡ TaskResultStatus.completed
      → Succeeded attempt spec.read_only input r run.1.history
  unfolding run_with_spec
  run-succeeds {r} empty done c =
      let h : Ends_ r block.1 =
        handled-Ends block.0 block.1 (block-Ends empty)
          (finally-eq-ok env task input attempt has_recorder depth token _ block.1 done) c in
      elim h.ended [
        | inl (reading, (here, (result, e))) ↦ record {
          before = block.1.history;
          cleaned_up = run-history empty;
          value = h.value;
          given = h.given;
          w = h.w;
          accepted = h.accepted;
          result = result;
          reported = inl (reading, here.trace, e);
        }
        | inr (writable, (ref, (here, (result, e)))) ↦ record {
          before = block.1.history;
          cleaned_up = run-history empty;
          value = h.value;
          given = h.given;
          w = h.w;
          accepted = h.accepted;
          result = result;
          reported = inr (ref, writable, here.trace, e);
        }
      ]
