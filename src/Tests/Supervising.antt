-- ===== src/Tests/Supervising.antt =====
-- The supervisor's theorems at concrete inputs.
use perago.Base.{
  ℕ, ◌==◌, Bool, true, false, none, some, Text, text, text_eq, strip, decimal, List, [], ◌∷◌, ◌≡◌,
  refl,
}
use perago.Errors.{ok}
use perago.Dispatch.{Broker}
use perago.Config.Environment.{Env, get, put}
use perago.Config.WorkerIds.{child_environment}
use perago.Supervisor.{WorkerChildSpec, worker_ids, worker_child_specs}
use perago.Supervisor.Names.{AreWorkerIds, worker_child_specs-AreWorkerIds}
use perago.Supervisor.Loop.{
  Observation, alive, dead, Executor, Supervisor, Turn, turns, start_supervisor, run_supervisor,
  start_broker,
}
use perago.Supervisor.Runs.{Follows, run_supervisor-Follows}
use perago.Supervisor.Restarts.{Counted, start_supervisor-Counted}
use perago.Supervisor.Lock.{
  int_owner, Root, Phase, idle, opening, comparing, failed, too_large, next_call, calls_alone,
  pid_is_alive,
}
use perago.Supervisor.Taking.{Settled, acquire_lock_lem}
use perago.Supervisor.Processes.{World, at_phase}

abbrev demo_env : Env
demo_env = (text "PERAGO_WORKER_ID_PREFIX", text "Demo") ∷ []

abbrev demo_spec : (index : ℕ) (id : Text) → WorkerChildSpec
demo_spec index id = record {
  slot = index;
  env = (text "PERAGO_WORKER_ID_PREFIX", text "Demo") ∷ (text "PERAGO_WORKER_ID", id) ∷ [];
}

abbrev two_specs : List WorkerChildSpec
two_specs = demo_spec 1 (text "Demo0001") ∷ demo_spec 2 (text "Demo0002") ∷ []

worker_child_specs-AreWorkerIds_example :
    (ids : List Text) × (worker_ids two_specs ≡ ok ids) × AreWorkerIds 2 ids
unfolding worker_child_specs child_environment get text_eq text strip put decimal
worker_child_specs-AreWorkerIds_example =
    worker_child_specs-AreWorkerIds demo_env (text "demo") 2 two_specs refl

abbrev two_ids : List Text
two_ids = text "Demo0001" ∷ text "Demo0002" ∷ []

-- The second executor dies twice.
abbrev second_dies : Executor → Observation
second_dies e = elim (text_eq e.worker_id (text "Demo0002")) [ true ↦ dead false | false ↦ alive ]

abbrev second_dies_turn : Turn
second_dies_turn = record { stop_set = false; broker_alive = true; observe = second_dies }

abbrev twice : List Turn
twice = second_dies_turn ∷ second_dies_turn ∷ []

abbrev restarted_twice : Supervisor
restarted_twice = turns twice (start_supervisor two_ids)

run_supervisor-Follows_example :
    (b : Broker) × (start_broker (text "Demo") (text "demo") 2 ≡ ok b) × Follows b restarted_twice
unfolding run_supervisor worker_child_specs child_environment get text_eq text strip worker_ids put
    decimal
run_supervisor-Follows_example =
    run_supervisor-Follows (text "Demo") (text "demo") 2 twice restarted_twice refl refl

start_supervisor-Counted_example : Counted restarted_twice
start_supervisor-Counted_example = start_supervisor-Counted two_ids twice

abbrev empty_root : Root
empty_root = record { lock_file = none; next_inode = 5 }

-- Process 3 has left its lock file behind.
abbrev left_root : Root
left_root = record {
  lock_file = some (record { inode = 4; content = int_owner false 3 });
  next_inode = 5;
}

abbrev only_seven : ℕ → Bool
only_seven p = p == 7

acquire_lock_lem_example :
    Settled 7 true left_root.lock_file left_root
      (calls_alone only_seven (text "/w") 7 8 opening left_root)
unfolding pid_is_alive
acquire_lock_lem_example = acquire_lock_lem only_seven (text "/w") 7 0 left_root

-- A lock file whose owner is no C int.
abbrev large_root : Root
large_root = record {
  lock_file = some (record { inode = 4; content = int_owner false 2147483648 });
  next_inode = 5;
}

large_owner_test :
    calls_alone only_seven (text "/w") 7 8 opening large_root ≡ (failed too_large, large_root)
unfolding calls_alone pid_is_alive
large_owner_test = refl

abbrev free_world : World
free_world = record { root = empty_root; exists = only_seven; phase = λ p. idle }

abbrev after_calls : World → World
after_calls w = record (at_phase w 7 (next_call w.exists (text "/w") 7 (w.phase 7) w.root).0) {
  root = (next_call w.exists (text "/w") 7 (w.phase 7) w.root).1;
}

abbrev held_world : World
held_world = after_calls (after_calls (at_phase free_world 7 opening))

abbrev holder : ℕ
holder = 7

-- Two processes find the file of process 3, which was killed. Process 8 has compared its inode and is
-- about to unlink it; process 7 has unlinked it already, and holds the lock with a new file. The call
-- of process 8 then unlinks the file of process 7, so that a third process can make one.
abbrev raced : Phase × Root
raced =
    next_call only_seven (text "/w") 8
      (next_call only_seven (text "/w") 8 (comparing 4) left_root).0
      (calls_alone only_seven (text "/w") 7 8 opening left_root).1

stale_race_test : raced ≡ (opening, record { lock_file = none; next_inode = 6 })
unfolding next_call calls_alone pid_is_alive
stale_race_test = refl
