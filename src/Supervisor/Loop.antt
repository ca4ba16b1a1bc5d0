-- ===== src/Supervisor/Loop.antt =====
-- `perago/supervisor.py`, `_run_worker_supervisor_locked`: the loop that keeps the executor processes
-- of the process mode running.
use perago.Base.{
  ℕ, ◌+◌, Bool, true, false, none, some, Text, text, List, [], ◌∷◌, ◌++◌, if◌then◌else◌,
}
use perago.Errors.{Outcome, ok, ◌>>=◌}
use perago.Dispatch.{ExecutorEvent, exited, started, Slot, init_broker, Broker}
use perago.Supervisor.{restart_backoff_seconds, worker_child_specs, worker_ids}

-- One entry of `executors`, with `executor_generations[slot]` and the broker's end of the slot's
-- pipe, `broker_slots_by_slot[slot].connection`.
pub record Executor : Type 0 where
  pub worker_id : Text
  pub restart_count : ℕ
  pub generation : ℕ
  pub connection : ℕ

-- What the loop finds: the process is alive, or it is dead and `stop` is set during the delay, or not.
pub data Observation : Type 0 where
  alive : Observation
  dead : (stopped : Bool) → Observation

-- The supervisor after a part of its loop. `pipes` is the number of the next pipe.
pub record Supervisor : Type 0 where
  pub executors : List Executor
  pub events : List ExecutorEvent
  pub waits : List ℕ
  pub pipes : ℕ
  pub stopped : Bool

abbrev pub replacement : Executor → (pipe : ℕ) → Executor
replacement e pipe = record e {
  restart_count = e.restart_count + 1;
  generation = e.generation + 1;
  connection = pipe;
}

abbrev pub exit_event : Executor → ExecutorEvent
exit_event e = exited (record { worker_id = e.worker_id; generation = e.generation })

abbrev pub start_event : Executor → ExecutorEvent
start_event e =
    started
      (record { worker_id = e.worker_id; generation = e.generation; connection = e.connection })

abbrev pub keep : Executor → Supervisor → Supervisor
keep e s = record s { executors = e ∷ s.executors }

-- `break`: the executors behind this one are not looked at any more.
unfoldable pub stop_at : Executor → List Executor → (pipes : ℕ) → Supervisor
stop_at e rest pipes = record {
  executors = e ∷ rest;
  events = exit_event e ∷ [];
  waits = restart_backoff_seconds e.restart_count ∷ [];
  pipes = pipes;
  stopped = true;
}

unfoldable pub restart : Executor → (pipe : ℕ) → Supervisor → Supervisor
restart e pipe s = record s {
  executors = replacement e pipe ∷ s.executors;
  events = exit_event e ∷ start_event (replacement e pipe) ∷ s.events;
  waits = restart_backoff_seconds e.restart_count ∷ s.waits;
}

-- One executor; `later` is the rest of the loop, by the number of the next pipe.
abbrev pub observed :
    Observation → Executor → List Executor → (pipes : ℕ) (later : ℕ → Supervisor) → Supervisor
observed alive e rest pipes later = keep e (later pipes)
observed (dead true) e rest pipes later = stop_at e rest pipes
observed (dead false) e rest pipes later = restart e pipes (later (pipes + 1))

-- The `for` loop over the executors; `observe` is what it finds of each.
unfoldable pub supervise : (Executor → Observation) → List Executor → (pipes : ℕ) → Supervisor
unfolding stop_at restart
supervise observe [] pipes = record {
  executors = [];
  events = [];
  waits = [];
  pipes = pipes;
  stopped = false;
}
supervise observe (e ∷ rest) pipes =
    observed (observe e) e rest pipes (λ next. supervise observe rest next)

-- One turn of the `while` loop: whether a signal has set `stop`, whether the broker is alive, and
-- what is found of the executors.
pub record Turn : Type 0 where
  pub stop_set : Bool
  pub broker_alive : Bool
  pub observe : Executor → Observation

-- The next turn of a supervisor, its queue behind what it had.
abbrev pub follow : Supervisor → Supervisor → Supervisor
follow s next = record next { events = s.events ++ next.events; waits = s.waits ++ next.waits }

abbrev pub halt : Supervisor → Supervisor
halt s = record s { stopped = true }

unfoldable pub turn : Turn → Supervisor → Supervisor
unfolding supervise
turn t s =
    if s.stopped
    then s
    else if t.stop_set
    then halt s
    else if t.broker_alive
    then follow s (supervise t.observe s.executors s.pipes)
    else halt s

unfoldable pub turns : List Turn → Supervisor → Supervisor
unfolding turn
turns [] s = s
turns (t ∷ rest) s = turns rest (turn t s)

-- One executor for every worker, of the first generation, each with a pipe of its own.
abbrev pub first_executors : List Text → (pipe : ℕ) → List Executor
first_executors [] pipe = []
first_executors (w ∷ rest) pipe =
    record { worker_id = w; restart_count = 0; generation = 1; connection = pipe }
    ∷ first_executors rest (pipe + 1)

abbrev pub pipes_after : List Text → ℕ → ℕ
pipes_after [] pipe = pipe
pipes_after (w ∷ rest) pipe = pipes_after rest (pipe + 1)

unfoldable pub start_supervisor : (worker_ids : List Text) → Supervisor
start_supervisor worker_ids = record {
  executors = first_executors worker_ids 0;
  events = [];
  waits = [];
  pipes = pipes_after worker_ids 0;
  stopped = false;
}

-- `_run_worker_supervisor_locked` in process mode, up to a turn of its loop.
unfoldable pub run_supervisor :
    (worker_id_prefix module_target : Text) (process_count : ℕ) → List Turn → Outcome Supervisor
unfolding turns start_supervisor
run_supervisor worker_id_prefix module_target process_count ts = do
  specs ←
      worker_child_specs ((text "PERAGO_WORKER_ID_PREFIX", worker_id_prefix) ∷ []) module_target
        process_count
  ids ← worker_ids specs
  ok (turns ts (start_supervisor ids))

-- `broker_slots`, as they are when the broker process is started
abbrev pub broker_slots : List Executor → List (Text × Slot)
broker_slots [] = []
broker_slots (e ∷ es) =
    (
      e.worker_id,
      record {
        connection = some e.connection;
        generation = e.generation;
        exited_generation = none;
      },
    )
    ∷ broker_slots es

-- The broker process starts before the executors, with their slots.
unfoldable pub start_broker :
    (worker_id_prefix module_target : Text) (process_count : ℕ) → Outcome Broker
unfolding init_broker start_supervisor
start_broker worker_id_prefix module_target process_count = do
  specs ←
      worker_child_specs ((text "PERAGO_WORKER_ID_PREFIX", worker_id_prefix) ∷ []) module_target
        process_count
  ids ← worker_ids specs
  ok (init_broker (broker_slots (start_supervisor ids).executors))
