-- ===== src/Dispatch/Completion.antt =====
-- `perago/conductor_runtime/workers.py`: `execute` of the process dispatch worker, from the lease of a
-- slot to the result that is reported.
use perago.Base.{
  ℕ, ◌==◌, Bool, true, false, ◌||◌, not, Option, none, some, Text, text, text_eq, List, [], ◌∷◌,
  ◌++◌, if◌then◌else◌,
}
use perago.Errors.{Outcome, ok, ◌>>=◌}
use perago.Result.{RuntimeTaskResult, failed_result}
use perago.Dispatch.{
  Slot, Broker, Lease, ExecutorEvent, drain_executor_events, mark_slot_exited, release_slot,
}
use perago.Dispatch.Mapping.{ConductorTaskAttempt, TaskResult, runtime_result_to_sdk_task_result}

pub record ProcessTaskCompletion : Type 0 where
  pub task_id : Text
  pub execution_id : Text
  pub result : RuntimeTaskResult

-- What the pipe gives in a turn of the wait: nothing yet, an error, a completion or another object.
pub data Received : Type 0 where
  nothing_yet broken_pipe another_object : Received
  completion : ProcessTaskCompletion → Received

-- A turn of the wait: the events that are on the queue, whether the deadline
-- has passed, if there is one, and the pipe.
pub record Wake : Type 0 where
  pub events : List ExecutorEvent
  pub expired : Bool
  pub received : Received

-- `slot.exited_generation == generation or slot.generation != generation`
abbrev pub is_generation : (generation : ℕ) → Option ℕ → Bool
is_generation generation none = false
is_generation generation (some g) = g == generation

abbrev pub generation_exited : (generation : ℕ) → Option Slot → Bool
generation_exited generation none = true
generation_exited generation (some slot) =
    is_generation generation slot.exited_generation || not (slot.generation == generation)

-- `_slot_generation_exited`; the slot of a lease is always there.
unfoldable pub slot_generation_exited : (worker_id : Text) (generation : ℕ) → Broker → Bool
slot_generation_exited worker_id generation b = generation_exited generation (b.slots worker_id)

-- The broker with what a call gave or raised; `none` as long as the call has not come back.
abbrev pub Reply {ℓ} : Type ℓ → Type ℓ
Reply A = Option (Outcome A × Broker)

-- The parameters of one execution: the interpreter's limit and the length limit of `failed_result`,
-- the lease, and the ids.
module _ (depth max_length : ℕ) (lease : Lease) (task_id execution_id : Text) where
  abbrev pub failure : Text → Outcome RuntimeTaskResult
  failure reason = failed_result depth reason max_length none

  abbrev pub executor_exited : Outcome RuntimeTaskResult
  executor_exited = failure (
      text "executor process for worker "
      ++ lease.worker_id
      ++ text " exited while running task "
      ++ task_id)

  abbrev pub pipe_broken : Outcome RuntimeTaskResult
  pipe_broken = failure (
      text "executor pipe for worker " ++ lease.worker_id ++ text " is broken for task " ++ task_id)

  -- the checks behind the loop
  unfoldable pub check_completion : ProcessTaskCompletion → Outcome RuntimeTaskResult
  check_completion c =
      if not (text_eq c.task_id task_id)
      then failure (
          text "executor returned completion for task "
          ++ c.task_id
          ++ text "; expected "
          ++ task_id)
      else if not (text_eq c.execution_id execution_id)
      then failure (
          text "executor returned completion for execution "
          ++ c.execution_id
          ++ text "; expected "
          ++ execution_id)
      else ok c.result

  abbrev pub receive : Received → Broker → Reply RuntimeTaskResult → Reply RuntimeTaskResult
  receive nothing_yet b later = later
  receive broken_pipe b later =
      some (pipe_broken, mark_slot_exited lease.worker_id lease.generation b)
  receive another_object b later =
      some (failure (text "executor returned invalid completion for task " ++ task_id), b)
  receive (completion c) b later = some (check_completion c, b)

  -- a turn, on the broker that has taken the events; `later` are the turns behind it
  abbrev pub wake_up : Wake → Broker → Reply RuntimeTaskResult → Reply RuntimeTaskResult
  wake_up w b later =
      if slot_generation_exited lease.worker_id lease.generation b
      then some (executor_exited, b)
      else if w.expired
      then some (failure (text "executor did not return result for task " ++ task_id), b)
      else receive w.received b later

  -- `_wait_for_completion`, for the turns that are given
  unfoldable pub wait_for_completion : List Wake → Broker → Reply RuntimeTaskResult
  unfolding check_completion slot_generation_exited drain_executor_events
  wait_for_completion [] b = none
  wait_for_completion (w ∷ rest) b =
      let drained = drain_executor_events w.events b in
      wake_up w drained (wait_for_completion rest drained)

-- What the pipe does with the assignment.
pub data Sent : Type 0 where
  delivered : Sent
  not_delivered : Sent

abbrev pub released : Lease → (events : List ExecutorEvent) → Broker → Broker
released lease events b = release_slot lease.worker_id (drain_executor_events events b)

abbrev pub mapped :
    ConductorTaskAttempt → (worker_id : Text) → Outcome RuntimeTaskResult → Outcome TaskResult
mapped attempt worker_id result = do
  r ← result
  ok (runtime_result_to_sdk_task_result attempt r worker_id)

-- `finally`, and the mapping of the result; `events` are on the queue when the slot is released.
abbrev pub finish :
    Lease
    → ConductorTaskAttempt
    → (worker_id : Text) (events : List ExecutorEvent) → Reply RuntimeTaskResult
    → Reply TaskResult
finish lease attempt worker_id events none = none
finish lease attempt worker_id events (some (result, b)) =
    some (mapped attempt worker_id result, released lease events b)

abbrev pub run_lease :
    (depth max_length : ℕ)
    → Lease
    → (execution_id : Text) → ConductorTaskAttempt
    → Sent
    → List Wake
    → Broker
    → Reply RuntimeTaskResult
run_lease depth max_length lease execution_id attempt not_delivered wakes b = some (
  pipe_broken depth max_length lease attempt.task_id execution_id,
  mark_slot_exited lease.worker_id lease.generation b,
)
run_lease depth max_length lease execution_id attempt delivered wakes b =
    wait_for_completion depth max_length lease attempt.task_id execution_id wakes b

-- `execute`, once its slot is leased; a task that is no attempt raises before any lease.
unfoldable pub execute_leased :
    (depth max_length : ℕ)
    → Lease
    → (worker_id execution_id : Text) → ConductorTaskAttempt
    → Sent
    → List Wake
    → (events : List ExecutorEvent) → Broker
    → Reply TaskResult
unfolding wait_for_completion
execute_leased depth max_length lease worker_id execution_id attempt sent wakes events b =
    finish lease attempt worker_id events
      (run_lease depth max_length lease execution_id attempt sent wakes b)
