-- ===== src/Dispatch/Reports.antt =====
-- `perago/conductor_runtime/workers.py`: what the process dispatch worker reports of a task.
use perago.Base.{
  ℕ, none, some, Text, text_eq, text_eq_iff, List, [], ◌∷◌, ◌≡◌, ◌⊎◌, inl, inr, refl, sym, ap, ◌∙◌,
  ◌≢◌, Option, Bool-cases,
}
use perago.Errors.{Outcome, ok, >>=-eq-ok}
use perago.Result.{
  RuntimeTaskResult, TaskResultStatus, completed, failed, failed_with_terminal_error, failed_result,
  failure_reason, validate_payload_shape,
}
use perago.Config.Loaded.{ok-injective}
use perago.Dispatch.{Broker, Lease, ExecutorEvent, drain_executor_events}
use perago.Dispatch.Mapping.{
  ConductorTaskAttempt, TaskResult, runtime_result_to_sdk_task_result, shown_reason,
}
use perago.Dispatch.Completion.{
  ProcessTaskCompletion, Received, nothing_yet, broken_pipe, another_object, completion, Wake,
  Reply, check_completion, receive, wake_up, wait_for_completion, slot_generation_exited, Sent,
  delivered, not_delivered, mapped, finish, run_lease, execute_leased,
}

-- The pipe has given this completion in one of the turns.
pub data Receives (c : ProcessTaskCompletion) : List Wake → Type 0 where
  now : {w : Wake} {rest : List Wake} → w.received ≡ completion c → Receives c (w ∷ rest)
  later : {w : Wake} {rest : List Wake} → Receives c rest → Receives c (w ∷ rest)

-- The result is a failure, or it is the executor's own, in a completion of this task and execution.
pub record Answered (task_id execution_id : Text) (wakes : List Wake) (r : RuntimeTaskResult)
    : Type 0 where
  pub completion : ProcessTaskCompletion
  pub received : Receives completion wakes
  pub same_task : completion.task_id ≡ task_id
  pub same_execution : completion.execution_id ≡ execution_id
  pub result : r ≡ completion.result

abbrev pub Justified : (task_id execution_id : Text) → List Wake → RuntimeTaskResult → Type 0
Justified task_id execution_id wakes r = (r.status ≡ failed) ⊎ Answered task_id execution_id wakes r

failed_result-failed :
    (depth n : ℕ) (reason : Text) (r : RuntimeTaskResult)
    → failed_result depth reason n none ≡ ok r
    → r.status ≡ failed
unfolding failed_result failure_reason validate_payload_shape
failed_result-failed depth n reason r h =
    let (shown, e, made) = >>=-eq-ok (failure_reason reason n) _ h in
    ap (λ (x : RuntimeTaskResult). x.status) (sym (ok-injective made))

abbrev pub reply_of {ℓ} : {A : Type ℓ} → Outcome A → Broker → Reply A
reply_of o b = some (o, b)

reply-outcome {ℓ} :
    {A : Type ℓ} {o p : Outcome A} {b c : Broker} → reply_of o b ≡ reply_of p c → o ≡ p
reply-outcome h = cc

module _ (depth n : ℕ) (lease : Lease) (task_id execution_id : Text) where
  check_completion_cases :
      (c : ProcessTaskCompletion) (r : RuntimeTaskResult)
      → check_completion depth n lease task_id execution_id c ≡ ok r
      → (r.status ≡ failed)
        ⊎ ((c.task_id ≡ task_id) × (c.execution_id ≡ execution_id) × (r ≡ c.result))
  unfolding check_completion
  check_completion_cases c r h = elim (Bool-cases (text_eq c.task_id task_id)) [
    | inr other ↦ inl (failed_result-failed depth n _ r (rw other at h))
    | inl same ↦ elim (Bool-cases (text_eq c.execution_id execution_id)) [
      | inr other ↦ inl (failed_result-failed depth n _ r (rw (same, other) at h))
      | inl again ↦ inr (
        (text_eq_iff _ _).0 same,
        (text_eq_iff _ _).0 again,
        sym (ok-injective (rw (same, again) at h)),
      )
    ]
  ]

  receive_cases :
      (w : Wake) (rest : List Wake) (b c : Broker) (next : Reply RuntimeTaskResult)
      (r : RuntimeTaskResult) (x : Received)
      → w.received ≡ x
      → (next ≡ reply_of (ok r) c → Justified task_id execution_id rest r)
      → receive depth n lease task_id execution_id x b next ≡ reply_of (ok r) c
      → Justified task_id execution_id (w ∷ rest) r
  receive_cases w rest b c next r nothing_yet e k h = after_rest (k h)
    where
      after_rest :
          Justified task_id execution_id rest r → Justified task_id execution_id (w ∷ rest) r
      after_rest (inl failing) = inl failing
      after_rest (inr a) = inr (record {
        completion = a.completion;
        received = later a.received;
        same_task = a.same_task;
        same_execution = a.same_execution;
        result = a.result;
      })
  receive_cases w rest b c next r broken_pipe e k h =
      inl (failed_result-failed depth n _ r (reply-outcome h))
  receive_cases w rest b c next r another_object e k h =
      inl (failed_result-failed depth n _ r (reply-outcome h))
  receive_cases w rest b c next r (completion d) e k h =
      checked (check_completion_cases d r (reply-outcome h))
    where
      checked :
          (r.status ≡ failed)
            ⊎ ((d.task_id ≡ task_id) × (d.execution_id ≡ execution_id) × (r ≡ d.result))
          → Justified task_id execution_id (w ∷ rest) r
      checked (inl failing) = inl failing
      checked (inr (same, again, result)) = inr (record {
        completion = d;
        received = now e;
        same_task = same;
        same_execution = again;
        result = result;
      })

  wake_cases :
      (w : Wake) (rest : List Wake) (b c : Broker) (next : Reply RuntimeTaskResult)
      (r : RuntimeTaskResult)
      → (next ≡ reply_of (ok r) c → Justified task_id execution_id rest r)
      → wake_up depth n lease task_id execution_id w b next ≡ reply_of (ok r) c
      → Justified task_id execution_id (w ∷ rest) r
  wake_cases w rest b c next r k h =
      elim (Bool-cases (slot_generation_exited lease.worker_id lease.generation b)) [
        | inl gone ↦ inl (failed_result-failed depth n _ r (reply-outcome (rw gone at h)))
        | inr there ↦ elim (Bool-cases w.expired) [
          | inl over ↦
              inl (failed_result-failed depth n _ r (reply-outcome (rw (there, over) at h)))
          | inr on ↦ receive_cases w rest b c next r w.received refl k (rw (there, on) at h)
        ]
      ]

  wait_cases :
      (wakes : List Wake) (b c : Broker) (r : RuntimeTaskResult)
      → wait_for_completion depth n lease task_id execution_id wakes b ≡ reply_of (ok r) c
      → Justified task_id execution_id wakes r
  unfolding wait_for_completion
  wait_cases [] b c r h = cc
  wait_cases (w ∷ rest) b c r h =
      let drained = drain_executor_events w.events b in
      wake_cases w rest drained c
        (wait_for_completion depth n lease task_id execution_id rest drained) r
        (λ e. wait_cases rest drained c r e) h

-- The ids of the attempt and of the worker, the status and the output of a justified result, and its
-- reason unless it is completed.
pub record Reports (attempt : ConductorTaskAttempt) (worker_id execution_id : Text)
    (wakes : List Wake) (t : TaskResult) : Type 0 where
  pub result : RuntimeTaskResult
  pub justified : Justified attempt.task_id execution_id wakes result
  pub workflow : t.workflow_instance_id ≡ attempt.workflow_instance_id
  pub task : t.task_id ≡ attempt.task_id
  pub worker : t.worker_id ≡ worker_id
  pub status : t.status ≡ result.status
  pub output : t.output_data ≡ result.output
  pub completed_reason : result.status ≡ completed → t.reason_for_incompletion ≡ none
  pub other_reason :
      result.status ≢ completed → t.reason_for_incompletion ≡ result.reason_for_incompletion

reason_shown :
    (s : TaskResultStatus) (reason : Option Text)
    → (s ≡ completed → shown_reason s reason ≡ none)
      × (s ≢ completed → shown_reason s reason ≡ reason)
reason_shown completed reason = (λ e. refl, λ n. absurd (n refl))
reason_shown failed reason = (λ e. cc, λ n. refl)
reason_shown failed_with_terminal_error reason = (λ e. cc, λ n. refl)

mapped-Reports :
    (attempt : ConductorTaskAttempt) (worker_id execution_id : Text) (wakes : List Wake)
    (o : Outcome RuntimeTaskResult) (t : TaskResult)
    → ((r : RuntimeTaskResult) → o ≡ ok r → Justified attempt.task_id execution_id wakes r)
    → mapped attempt worker_id o ≡ ok t
    → Reports attempt worker_id execution_id wakes t
unfolding runtime_result_to_sdk_task_result
mapped-Reports attempt worker_id execution_id wakes o t k h =
    let (r, e, made) = >>=-eq-ok o _ h in
    let same : t ≡ runtime_result_to_sdk_task_result attempt r worker_id =
      sym (ok-injective made) in
    let (done, undone) = reason_shown r.status r.reason_for_incompletion in
    record {
      result = r;
      justified = k r e;
      workflow = ap (λ (x : TaskResult). x.workflow_instance_id) same;
      task = ap (λ (x : TaskResult). x.task_id) same;
      worker = ap (λ (x : TaskResult). x.worker_id) same;
      status = ap (λ (x : TaskResult). x.status) same;
      output = ap (λ (x : TaskResult). x.output_data) same;
      completed_reason = λ f. ap (λ (x : TaskResult). x.reason_for_incompletion) same ∙ done f;
      other_reason = λ f. ap (λ (x : TaskResult). x.reason_for_incompletion) same ∙ undone f;
    }

finish-Reports :
    (lease : Lease) (attempt : ConductorTaskAttempt) (worker_id execution_id : Text)
    (wakes : List Wake) (events : List ExecutorEvent) (reply : Reply RuntimeTaskResult)
    (t : TaskResult) (c : Broker)
    → ((r : RuntimeTaskResult) (b : Broker)
        → reply ≡ reply_of (ok r) b
        → Justified attempt.task_id execution_id wakes r)
    → finish lease attempt worker_id events reply ≡ reply_of (ok t) c
    → Reports attempt worker_id execution_id wakes t
finish-Reports lease attempt worker_id execution_id wakes events none t c k h = cc
finish-Reports lease attempt worker_id execution_id wakes events (some (o, b)) t c k h =
    mapped-Reports attempt worker_id execution_id wakes o t
      (λ r e. k r b (ap (λ (x : Outcome RuntimeTaskResult). reply_of x b) e)) (reply-outcome h)

-- Whatever the executors, their pipes and the supervisor do: what is reported for a task carries the
-- workflow's and the task's ids of that task, the id of the worker, and the status and the output of
-- a runtime result, with the reason of that result exactly if it is not completed; the runtime
-- result is either a failure or that of a completion which the leased executor sent for this very
-- task and execution.
pub execute_leased-Reports :
    (depth n : ℕ) (lease : Lease) (worker_id execution_id : Text) (attempt : ConductorTaskAttempt)
    (sent : Sent) (wakes : List Wake) (events : List ExecutorEvent) (b c : Broker) (t : TaskResult)
    → execute_leased depth n lease worker_id execution_id attempt sent wakes events b
      ≡ some (ok t, c)
    → Reports attempt worker_id execution_id wakes t
unfolding execute_leased
execute_leased-Reports depth n lease worker_id execution_id attempt not_delivered wakes events b c t
      h =
    finish-Reports lease attempt worker_id execution_id wakes events
      (run_lease depth n lease execution_id attempt not_delivered wakes b) t c
      (λ r d e. inl (failed_result-failed depth n _ r (reply-outcome e))) h
execute_leased-Reports depth n lease worker_id execution_id attempt delivered wakes events b c t h =
    finish-Reports lease attempt worker_id execution_id wakes events
      (run_lease depth n lease execution_id attempt delivered wakes b) t c
      (λ r d e. wait_cases depth n lease attempt.task_id execution_id wakes b d r e) h
