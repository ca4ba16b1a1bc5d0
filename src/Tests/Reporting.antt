-- ===== src/Tests/Reporting.antt =====
-- One execution through the process dispatch worker, and one read of an attempt through the broker.
use perago.Base.{false, Text, text, text_eq, ◌≡◌, refl, [], ◌∷◌, none, some}
use perago.Errors.{runtime_error, Outcome, ok, raised}
use perago.Result.{RuntimeTaskResult, TaskResultStatus}
use perago.Dispatch.{get_slot, lease_slot, Lease, Broker, set_at}
use perago.Dispatch.Mapping.{ConductorTaskAttempt, TaskResult, runtime_result_to_sdk_task_result}
use perago.Dispatch.Completion.{
  Wake, nothing_yet, completion, broken_pipe, delivered, execute_leased, released,
}
use perago.Dispatch.Reports.{Reports, execute_leased-Reports}
use perago.Dispatch.Fences.{Queues, request, load_current_attempt_via_broker, as_reload_error}
use perago.Dispatch.Reloads.{load_current_attempt_via_broker_lem}
use perago.Tests.Broker.{w1, one_leased}

abbrev the_lease : Lease
the_lease = record { worker_id = w1; generation = 1; connection = 7 }

abbrev execution : Text
execution = text "execution-1"

abbrev sdk_attempt : ConductorTaskAttempt
sdk_attempt = record {
  workflow_instance_id = text "workflow-1";
  task_id = text "task-1";
  retry_count = 0;
  task_def_name = text "features.build";
  reference_task_name = text "build";
  seq = 1;
  iteration = 0;
  status = text "IN_PROGRESS";
  input_data = 5;
  retried_task_id = none;
  response_timeout_seconds = none;
}

abbrev done : RuntimeTaskResult
done = record {
  status = TaskResultStatus.failed_with_terminal_error;
  output = none;
  reason_for_incompletion = some (text "no such file");
}

abbrev quiet_turn : Wake
quiet_turn = record { events = []; expired = false; received = nothing_yet }

abbrev last_turn : Wake
last_turn = record {
  events = [];
  expired = false;
  received =
      completion (record { task_id = text "task-1"; execution_id = execution; result = done });
}

-- a turn behind the first one, in which the pipe breaks
abbrev broken_turn : Wake
broken_turn = record { events = []; expired = false; received = broken_pipe }

abbrev reported : TaskResult
reported = runtime_result_to_sdk_task_result sdk_attempt done w1

run_reports :
    execute_leased 100 200 the_lease w1 execution sdk_attempt delivered
      (quiet_turn ∷ last_turn ∷ [])
      []
      one_leased
    ≡ some (ok reported, released the_lease [] one_leased)
unfolding execute_leased lease_slot get_slot text_eq text
run_reports = refl

execute_leased-Reports_example :
    Reports sdk_attempt w1 execution (quiet_turn ∷ last_turn ∷ []) reported
execute_leased-Reports_example =
    execute_leased-Reports 100 200 the_lease w1 execution sdk_attempt delivered
      (quiet_turn ∷ last_turn ∷ []) [] one_leased (released the_lease [] one_leased) reported
      run_reports

-- A request of another worker is waiting.
abbrev waiting_queues : Queues
waiting_queues = record {
  requests = request (record { worker_id = text "worker-2"; task_id = text "task-9" }) ∷ [];
  responses = set_at w1 (some []) (λ u. none);
}

abbrev refuses : Text → Outcome ConductorTaskAttempt
refuses task_id = raised (runtime_error (text "not found"))

load_current_attempt_via_broker_lem_example :
    (last : Queues) × (load_current_attempt_via_broker
        (some refuses)
        w1
        (text "task-1")
        waiting_queues
      ≡ some (as_reload_error (text "task-1") (refuses (text "task-1")), last))
    × (last.responses w1 ≡ some [])
unfolding text_eq text
load_current_attempt_via_broker_lem_example =
    load_current_attempt_via_broker_lem refuses w1 (text "task-1") waiting_queues refl refl
