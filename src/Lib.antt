-- ===== src/Lib.antt =====
-- Perago: the runtime of Conductor task workers with LakeFS workspaces.
--
-- A worker receives an attempt of a task. For a task with a workspace, it prepares a local
-- directory, downloads the workspace from LakeFS, checks guardrails, runs the task function,
-- stages and publishes what changed behind two fences that read the attempt again, and reports a
-- result to Conductor. Failures on the way become failed results, and what the attempt has made
-- is removed. The modules follow `src/perago/`:
--
--   Base: lists, texts (lists of code points), splitting and joining, decimal numbers.
--   Value: `failure_output.py`: the Python objects a task hands over as failure metadata, and
--     the copy that accepts only JSON.
--   Errors: `errors.py`: the exceptions as one data type; a function that may raise returns an
--     Outcome.
--   Result: `result.py`: RuntimeTaskResult, its validator, result_for_exception.
--   Attempt: `attempt.py`: assert_current_attempt_snapshot; an attribute that an attempt lacks
--     is none.
--   Guards: `guards.py`: canonical paths, the four guardrails and check_guardrails, over a
--     FileView that says what pathlib answers.
--   Models: `models.py`: the policies, budgets and references with their validators.
--   Workspace: the entries of a local workspace, and its marker file; `workspace/paths.py`
--     (Workspace.Paths) maps local paths to LakeFS objects and back, `workspace/sync.py`
--     (Workspace.Sync) plans uploads, downloads and deletes, and `workspace/gc.py`
--     (Workspace.Gc) removes what was left behind.
--   Execution: `execution.py`: run_workspace_task_attempt, one definition for each phase, in a
--     state monad (Execution.Calls) whose state is the local variables, the active owner tokens
--     and the history of all calls. Execution.Protocol is the abstract specification, a step
--     relation on histories; Rules, Follows, Finishes and Runs show that the code implements
--     it, and Guarantees states what follows. Execution.Free holds the attempts without a
--     workspace and the output builders.
--   Segments: `_segments.py` and `staging.py`: safe path segments, staging_branch_name.
--   Lakefs: `lakefs_runtime.py`: stage_workspace, publish_workspace, complete_noop_workspace
--     and cleanup_staging, against a Service (Lakefs.Client) whose state is arbitrary.
--     Lakefs.Objects and Lakefs.Publish name the laws of LakeFS that the theorems rely on;
--     Tests.Server is a server that has them.
--   Dispatch: `conductor_runtime/workers.py`: the executor slots of
--     PeragoProcessDispatchWorker, each locked section, and the call on the queue of available
--     slots before it, as one function; Dispatch.Steps is the relation of the steps that the
--     broker's threads take in any order. Dispatch.Completion is `execute` behind the lease of
--     a slot: the turns of its wait are given, each with the events on the queue, whether the
--     deadline has passed, and what the pipe gives. Dispatch.Mapping is
--     `conductor_runtime/sdk_mapping.py`, and Dispatch.Fences the way an executor process
--     (`conductor_runtime/process_executor.py`) reads its attempt again through the queues of
--     the broker.
--   Config: `config.py`: load_runtime_config and every parser it calls; Config.Environment
--     holds the environments, Config.Dotenv the `.env` file, Config.Values the durations,
--     counts and words, Config.Sizes the log size with the decimal arithmetic behind it,
--     Config.WorkerIds the names of the workers. Durations are numbers of seconds.
--   Supervisor: `supervisor.py`: the specifications of the child processes, the loop of the
--     process mode (Supervisor.Loop) with the events that it sends to the broker of Dispatch,
--     and the workspace lock, one system call at a time (Supervisor.Lock); Supervisor.Processes
--     is the relation of the steps of several processes whose calls interleave. A turn of the
--     loop is given what it finds: whether a signal came, whether the broker and each executor
--     are alive, and whether `stop` is set during a delay. A process that takes the lock with
--     no other in between makes at most eight system calls.
--   Tasks: `task.py`: the decorator's checks of a function and its arguments, Tasks.Loading the
--     registry and load_module_task; Tasks.Signature and Tasks.Definition say which functions
--     are accepted.
--   TaskDef: `taskdef.py`: the JSON schema of a model, with its references inlined (TaskDef),
--     and build_taskdef (TaskDef.Build). What pydantic's model_json_schema gives and the root
--     models of a task are parameters, and a dictionary that Python changes in place is
--     returned changed.
--   Tests: the theorems at concrete inputs.
--
-- The callbacks of an attempt, pydantic, the file system, the recorder and the task function are
-- an Environment (Execution.Calls): arbitrary functions of all the calls that were made before,
-- which may raise at any point. Nothing is assumed of them unless a theorem says so. `depth` is
-- the number of nested calls that Python still allows, which decides when copying metadata and
-- inlining references end in a RecursionError; apart from the number of system calls of the
-- lock, no other fuel is used, since every loop is a structural recursion.
--
-- Not modelled: the walk over the annotations of a model and the writing of a TaskDef, the loop
-- of the executor processes and the runners, the making of the directory of an attempt, the
-- shutdown of the supervisor, the Conductor client, metrics and the command line; the text of
-- pydantic's error messages, log records, threads other than the order of calls, and the
-- contents of HTTP requests. Messages are kept where the program builds them itself.
pub mod Base
pub mod Value
pub mod Errors
pub mod Result
pub mod Attempt
pub mod Guards
pub mod Models
pub mod Workspace
pub mod Execution
pub mod Lakefs
pub mod Dispatch
pub mod Segments
pub mod Config
pub mod Supervisor
pub mod Tasks
pub mod TaskDef
pub mod Tests
