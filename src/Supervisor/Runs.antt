-- ===== src/Supervisor/Runs.antt =====
-- `perago/supervisor.py` and `perago/conductor_runtime/workers.py` together: whole runs of the loop.
use perago.Base.{
  ℕ, ◌+◌, Bool, true, false, ◌||◌, Option, none, some, Text, text, text_eq, text_eq_sound,
  text_eq_refl, text_in, distinct, List, [], ◌∷◌, ◌≡◌, refl, sym, ap, ◌∙◌, inl, inr, arith,
  if◌then◌else◌, Bool-cases,
}
use perago.Errors.{ok, >>=-eq-ok}
use perago.Config.Loaded.{ok-injective}
use perago.Dispatch.{
  ExecutorEvent, exited, started, drain_executor_events, Slot, Broker, init_broker,
  handle_executor_started, handle_executor_exited, slots_by_worker_id, last_slot,
}
use perago.Dispatch.Slots.{Sound}
use perago.Dispatch.Started.{all_connected, init_broker-Sound, slots-init_broker}
use perago.Dispatch.Steps.{Step, Step-Sound}
use perago.Supervisor.{worker_child_specs, worker_ids}
use perago.Supervisor.Names.{worker_child_specs-AreWorkerIds}
use perago.Supervisor.Loop.{
  Executor, Observation, alive, dead, Supervisor, supervise, restart, stop_at, Turn, follow, halt,
  turn, turns, first_executors, start_supervisor, broker_slots, run_supervisor, start_broker,
}
use perago.Supervisor.Tracks.{workers, Tracks, supervise-Tracks, drain-append, seen}

workers-seen :
    (observe : Executor → Observation) (o : Observation) (e : Executor) (es : List Executor)
    (pipes : ℕ)
    → ((p : ℕ) → workers (supervise observe es p).executors ≡ workers es)
    → workers (seen observe o e es pipes).executors ≡ e.worker_id ∷ workers es
unfolding restart stop_at
workers-seen observe alive e es pipes h = ap (λ (r : List Text). e.worker_id ∷ r) (h pipes)
workers-seen observe (dead true) e es pipes h = refl
workers-seen observe (dead false) e es pipes h =
    ap (λ (r : List Text). e.worker_id ∷ r) (h (pipes + 1))

workers-supervise :
    (observe : Executor → Observation) (es : List Executor) (pipes : ℕ)
    → workers (supervise observe es pipes).executors ≡ workers es
unfolding supervise
workers-supervise observe [] pipes = refl
workers-supervise observe (e ∷ es) pipes =
    workers-seen observe (observe e) e es pipes (λ p. workers-supervise observe es p)

drain-Sound :
    (events : List ExecutorEvent) (b : Broker) → Sound b → Sound (drain_executor_events events b)
unfolding drain_executor_events
drain-Sound [] b s = s
drain-Sound (exited event ∷ rest) b s =
    drain-Sound rest (handle_executor_exited event b) (Step-Sound (Step.exited event) s)
drain-Sound (started event ∷ rest) b s =
    drain-Sound rest (handle_executor_started event b) (Step-Sound (Step.started event) s)

-- The broker that took all events of the supervisor tracks its executors.
record InStep (b : Broker) (s : Supervisor) : Type 0 where
  different : distinct (workers s.executors) ≡ true
  pub tracks : Tracks (drain_executor_events s.events b) s.executors

turn-stopped : (t : Turn) (s : Supervisor) → s.stopped ≡ true → turn t s ≡ s
unfolding turn
turn-stopped t s h = rw h refl

turns-stopped : (ts : List Turn) (s : Supervisor) → s.stopped ≡ true → (turns ts s).stopped ≡ true
unfolding turns
turns-stopped [] s h = h
turns-stopped (t ∷ ts) s h = turns-stopped ts (turn t s) (rw (turn-stopped t s h) h)

follow-InStep :
    (observe : Executor → Observation) (s : Supervisor) (b : Broker)
    → InStep b s
    → (supervise observe s.executors s.pipes).stopped ≡ false
    → InStep b (follow s (supervise observe s.executors s.pipes))
follow-InStep observe s b i go = record {
  different = ap distinct (workers-supervise observe s.executors s.pipes) ∙ i.different;
  tracks = rw (drain-append s.events (supervise observe s.executors s.pipes).events b) (
      supervise-Tracks observe s.executors s.pipes (drain_executor_events s.events b) i.different
        i.tracks go);
}

abbrev taken_turn : Turn → Supervisor → (stopped stop_set broker_alive : Bool) → Supervisor
taken_turn t s stopped stop_set broker_alive =
    if stopped
    then s
    else if stop_set
    then halt s
    else if broker_alive
    then follow s (supervise t.observe s.executors s.pipes)
    else halt s

turn-InStep :
    (t : Turn) (s : Supervisor) (b : Broker)
    → InStep b s
    → (turn t s).stopped ≡ false
    → InStep b (turn t s)
unfolding turn
turn-InStep t s b i go = taken s.stopped t.stop_set t.broker_alive go
  where
    taken :
        (stopped stop_set broker_alive : Bool)
        → (taken_turn t s stopped stop_set broker_alive).stopped ≡ false
        → InStep b (taken_turn t s stopped stop_set broker_alive)
    taken true stop_set broker_alive go = i
    taken false true broker_alive go = cc
    taken false false false go = cc
    taken false false true go = follow-InStep t.observe s b i go

turns-InStep :
    (ts : List Turn) (s : Supervisor) (b : Broker)
    → InStep b s
    → (turns ts s).stopped ≡ false
    → InStep b (turns ts s)
unfolding turns
turns-InStep [] s b i go = i
turns-InStep (t ∷ ts) s b i go = elim (Bool-cases (turn t s).stopped) [
  | inl stopped ↦ cc (turns-stopped ts (turn t s) stopped, go)
  | inr on ↦ turns-InStep ts (turn t s) b (turn-InStep t s b i on) go
]

workers-first : (ids : List Text) (pipe : ℕ) → workers (first_executors ids pipe) ≡ ids
workers-first [] pipe = refl
workers-first (w ∷ ids) pipe = ap (λ (r : List Text). w ∷ r) (workers-first ids (pipe + 1))

all_connected-broker_slots : (es : List Executor) → all_connected (broker_slots es) ≡ true
all_connected-broker_slots [] = refl
all_connected-broker_slots (e ∷ es) = all_connected-broker_slots es

slots_absent :
    (es : List Executor) (u : Text)
    → text_in u (workers es) ≡ false
    → slots_by_worker_id (broker_slots es) u ≡ none
unfolding text_in
slots_absent [] u h = refl
slots_absent (e ∷ es) u h = rw (slots_absent es u (ground arith), the_other e es u h) refl
  where
    the_other :
        (e : Executor) (es : List Executor) (u : Text)
        → (text_eq u e.worker_id || text_in u (workers es)) ≡ false
        → text_eq u e.worker_id ≡ false
    the_other e es u h = ground arith

last_slot-none : (o : Option Slot) → last_slot o none ≡ o
last_slot-none none = refl
last_slot-none (some slot) = refl

or_true : (b : Bool) → (b || true) ≡ true
or_true true = refl
or_true false = refl

Tracks-first :
    (es : List Executor) (b : Broker)
    → distinct (workers es) ≡ true
    → ((u : Text)
        → text_in u (workers es) ≡ true
        → b.slots u ≡ slots_by_worker_id (broker_slots es) u)
    → Tracks b es
unfolding distinct text_in
Tracks-first [] b d h = tt
Tracks-first (e ∷ es) b d h = (
  h e.worker_id (rw (text_eq_refl e.worker_id) refl)
      ∙ rw (slots_absent es e.worker_id (ground arith), text_eq_refl e.worker_id) refl,
  Tracks-first es b (ground arith) (λ u listed.
      h u (rw listed (or_true (text_eq u e.worker_id)))
      ∙ rw (unlike u listed) (last_slot-none (slots_by_worker_id (broker_slots es) u))),
)
  where
    unlike : (u : Text) → text_in u (workers es) ≡ true → text_eq u e.worker_id ≡ false
    unlike u listed = elim (Bool-cases (text_eq u e.worker_id)) [
      | inl same ↦ cc (
        ap (λ (w : Text). text_in w (workers es)) (text_eq_sound u e.worker_id same),
        listed,
        absent,
      )
      | inr other ↦ other
    ]
      where
        absent : text_in e.worker_id (workers es) ≡ false
        absent = ground arith

abbrev first_broker : List Text → Broker
first_broker ids = init_broker (broker_slots (first_executors ids 0))

-- The broker has every executor of the supervisor in its slot, and is sound.
pub record Follows (b : Broker) (s : Supervisor) : Type 0 where
  pub tracks : Tracks (drain_executor_events s.events b) s.executors
  pub sound : Sound (drain_executor_events s.events b)

turns-Follows :
    (ids : List Text) (ts : List Turn)
    → distinct ids ≡ true
    → (turns ts (start_supervisor ids)).stopped ≡ false
    → Follows (first_broker ids) (turns ts (start_supervisor ids))
unfolding start_supervisor drain_executor_events
turns-Follows ids ts d go =
    let es = first_executors ids 0 in
    let different : distinct (workers es) ≡ true = ap distinct (workers-first ids 0) ∙ d in
    let begun =
      Tracks-first es (first_broker ids) different
        (λ u listed. ap (λ (f : Text → Option Slot). f u) (slots-init_broker (broker_slots es))) in
    let i =
      turns-InStep ts (start_supervisor ids) (first_broker ids)
        (record { different = different; tracks = begun }) go in
    record {
      tracks = i.tracks;
      sound =
          drain-Sound (turns ts (start_supervisor ids)).events (first_broker ids)
            (init_broker-Sound (broker_slots es) (all_connected-broker_slots es));
    }

-- A supervisor that is not stopped, whatever turns it took and however often its executors died: a
-- broker that takes the supervisor's events off the queue has every executor in its slot, with the
-- generation and the connection of the running process, and every worker's slot is connected
-- exactly if it is available or leased.
pub run_supervisor-Follows :
    (worker_id_prefix module_target : Text) (process_count : ℕ) (ts : List Turn) (s : Supervisor)
    → run_supervisor worker_id_prefix module_target process_count ts ≡ ok s
    → s.stopped ≡ false
    → (b : Broker) × (start_broker worker_id_prefix module_target process_count ≡ ok b)
      × Follows b s
unfolding run_supervisor start_broker start_supervisor
run_supervisor-Follows worker_id_prefix module_target process_count ts s h go =
    let env = (text "PERAGO_WORKER_ID_PREFIX", worker_id_prefix) ∷ [] in
    let (specs, made, rest) = >>=-eq-ok (worker_child_specs env module_target process_count) _ h in
    let (ids, read, last) = >>=-eq-ok (worker_ids specs) _ rest in
    let (again, listed, are_ids) =
      worker_child_specs-AreWorkerIds env module_target process_count specs made in
    let same : again ≡ ids = ok-injective (sym listed ∙ read) in
    let e : turns ts (start_supervisor ids) ≡ s = ok-injective last in
    (
      first_broker ids,
      rw (made, read) refl,
      rw (← e) (
          turns-Follows ids ts (ap distinct (sym same) ∙ are_ids.different)
            (ap (λ (r : Supervisor). r.stopped) e ∙ go)),
    )
