-- ===== src/Supervisor/Tracks.antt =====
-- `perago/supervisor.py` and `perago/conductor_runtime/workers.py` together: what the broker knows
-- of the executors once it has taken the supervisor's events off the queue.
use perago.Base.{
  ℕ, ◌+◌, ◌==◌, leb, true, false, Option, none, some, Text, text_eq, text_eq_sound, text_eq_refl,
  text_in, distinct, List, [], ◌∷◌, ◌++◌, ◌≡◌, refl, ap, ◌∙◌, inl, inr, ◌⊎◌, ◌<◌, arith, Bool-cases,
}
use perago.Dispatch.{
  ExecutorEvent, handle_event, drain_executor_events, Slot, Broker, set_at, unless_busy,
  mark_slot_available, handle_executor_started, handle_executor_exited,
}
use perago.Supervisor.Loop.{
  Executor, Observation, observed, alive, dead, Supervisor, replacement, exit_event, start_event,
  supervise, stop_at, restart,
}

-- The slot of a live executor.
abbrev pub slot_of : Executor → Slot
slot_of e = record {
  connection = some e.connection;
  generation = e.generation;
  exited_generation = none;
}

abbrev pub workers : List Executor → List Text
workers [] = []
workers (e ∷ es) = e.worker_id ∷ workers es

-- The broker has every executor in its slot, with its generation and its connection.
abbrev pub Tracks : Broker → List Executor → Type 0
Tracks b [] = Unit
Tracks b (e ∷ es) = (b.slots e.worker_id ≡ some (slot_of e)) × Tracks b es

slots-unless_busy : (w : Text) (b : Broker) → (unless_busy w b).slots ≡ b.slots
unfolding mark_slot_available
slots-unless_busy w b = ground arith

abbrev exited_slot : Executor → Slot
exited_slot e = record {
  connection = none;
  generation = e.generation;
  exited_generation = some e.generation;
}

slots-exited :
    (e : Executor) (b : Broker) (u : Text)
    → b.slots e.worker_id ≡ some (slot_of e)
    → (handle_event (exit_event e) b).slots u ≡ set_at e.worker_id (some (exited_slot e)) b.slots u
unfolding handle_executor_exited
slots-exited e b u h =
    let same : (e.generation == e.generation) ≡ true = ground arith in rw (h, same) refl

abbrev begun : Executor → Broker → Broker
begun e b = record b { slots = set_at e.worker_id (some (slot_of e)) b.slots }

slots-started :
    (e : Executor) (slot : Slot) (b : Broker) (u : Text)
    → b.slots e.worker_id ≡ some slot
    → slot.generation < e.generation
    → (handle_event (start_event e) b).slots u ≡ set_at e.worker_id (some (slot_of e)) b.slots u
unfolding handle_executor_started
slots-started e slot b u h newer =
    let later : leb e.generation slot.generation ≡ false = ground arith in
    rw (h, later) (ap (λ (f : Text → Option Slot). f u) (slots-unless_busy e.worker_id (begun e b)))

-- A restart replaces the slot of the worker and leaves the others alone.
slots-restart :
    (e : Executor) (pipe : ℕ) (b : Broker) (u : Text)
    → b.slots e.worker_id ≡ some (slot_of e)
    → (handle_event (start_event (replacement e pipe)) (handle_event (exit_event e) b)).slots u
      ≡ set_at e.worker_id (some (slot_of (replacement e pipe))) b.slots u
slots-restart e pipe b u h =
    slots-started (replacement e pipe) (exited_slot e) (handle_event (exit_event e) b) u
      (slots-exited e b e.worker_id h ∙ rw (text_eq_refl e.worker_id) refl) (omega arith)
    ∙ over (Bool-cases (text_eq u e.worker_id))
  where
    over :
        (text_eq u e.worker_id ≡ true) ⊎ (text_eq u e.worker_id ≡ false)
        → set_at e.worker_id
            (some (slot_of (replacement e pipe)))
            (handle_event (exit_event e) b).slots
            u
          ≡ set_at e.worker_id (some (slot_of (replacement e pipe))) b.slots u
    over (inl same) = rw same refl
    over (inr other) = rw other (slots-exited e b u h ∙ rw other refl)

pub drain-append :
    (xs ys : List ExecutorEvent) (b : Broker)
    → drain_executor_events (xs ++ ys) b ≡ drain_executor_events ys (drain_executor_events xs b)
unfolding drain_executor_events
drain-append [] ys b = refl
drain-append (x ∷ xs) ys b = drain-append xs ys (handle_event x b)

abbrev restarted : Executor → (pipe : ℕ) → Broker → Broker
restarted e pipe b = handle_event (start_event (replacement e pipe)) (handle_event (exit_event e) b)

slots-elsewhere :
    (e : Executor) (pipe : ℕ) (b : Broker) (u : Text)
    → b.slots e.worker_id ≡ some (slot_of e)
    → text_eq u e.worker_id ≡ false
    → (restarted e pipe b).slots u ≡ b.slots u
slots-elsewhere e pipe b u h other = slots-restart e pipe b u h ∙ rw other refl

-- The slots of other executors are as they were.
Tracks-same :
    (es : List Executor) (b c : Broker)
    → Tracks b es
    → ((u : Text) → text_in u (workers es) ≡ true → c.slots u ≡ b.slots u)
    → Tracks c es
unfolding text_in
Tracks-same [] b c t same = tt
Tracks-same (e ∷ es) b c t same = (
  same e.worker_id (rw (text_eq_refl e.worker_id) refl) ∙ t.0,
  Tracks-same es b c t.1 (λ u h. same u (ground arith)),
)

Tracks-restarted :
    (e : Executor) (es : List Executor) (pipe : ℕ) (b : Broker)
    → b.slots e.worker_id ≡ some (slot_of e)
    → text_in e.worker_id (workers es) ≡ false
    → Tracks b es
    → Tracks (restarted e pipe b) es
Tracks-restarted e es pipe b h fresh t = Tracks-same es b (restarted e pipe b) t others
  where
    others : (u : Text) → text_in u (workers es) ≡ true → (restarted e pipe b).slots u ≡ b.slots u
    others u listed = elim (Bool-cases (text_eq u e.worker_id)) [
      | inl same ↦ cc (text_eq_sound u e.worker_id same, listed, fresh)
      | inr other ↦ slots-elsewhere e pipe b u h other
    ]

-- What a turn over `es` does to the slots of the broker.
abbrev LeavesOthers : (Executor → Observation) → List Executor → Type 0
LeavesOthers observe es =
    (pipes : ℕ) (b : Broker) (u : Text)
    → Tracks b es
    → text_in u (workers es) ≡ false
    → (supervise observe es pipes).stopped ≡ false
    → (drain_executor_events (supervise observe es pipes).events b).slots u ≡ b.slots u

abbrev pub seen : (Executor → Observation) → Observation → Executor → List Executor → ℕ → Supervisor
seen observe o e es pipes = observed o e es pipes (λ next. supervise observe es next)

seen_others :
    (observe : Executor → Observation) (o : Observation) (e : Executor) (es : List Executor)
    (pipes : ℕ) (b : Broker) (u : Text)
    → LeavesOthers observe es
    → Tracks b (e ∷ es)
    → text_in e.worker_id (workers es) ≡ false
    → text_eq u e.worker_id ≡ false
    → text_in u (workers es) ≡ false
    → (seen observe o e es pipes).stopped ≡ false
    → (drain_executor_events (seen observe o e es pipes).events b).slots u ≡ b.slots u
unfolding drain_executor_events restart stop_at
seen_others observe alive e es pipes b u rest t fresh other out go = rest pipes b u t.1 out go
seen_others observe (dead true) e es pipes b u rest t fresh other out go = cc
seen_others observe (dead false) e es pipes b u rest t fresh other out go =
    rest (pipes + 1) (restarted e pipes b) u (Tracks-restarted e es pipes b t.0 fresh t.1) out go
    ∙ slots-elsewhere e pipes b u t.0 other

-- A turn that is not stopped leaves the slots of other workers alone.
supervise-LeavesOthers :
    (observe : Executor → Observation) (es : List Executor)
    → distinct (workers es) ≡ true
    → LeavesOthers observe es
unfolding supervise drain_executor_events distinct text_in
supervise-LeavesOthers observe [] d pipes b u t out go = refl
supervise-LeavesOthers observe (e ∷ es) d pipes b u t out go =
    seen_others observe (observe e) e es pipes b u
      (supervise-LeavesOthers observe es (ground arith)) t (ground arith) (ground arith)
      (ground arith) go

seen-Tracks :
    (observe : Executor → Observation) (o : Observation) (e : Executor) (es : List Executor)
    (pipes : ℕ) (b : Broker)
    → LeavesOthers observe es
    → ((p : ℕ) (c : Broker)
        → Tracks c es
        → (supervise observe es p).stopped ≡ false
        → Tracks
            (drain_executor_events (supervise observe es p).events c)
            (supervise observe es p).executors)
    → Tracks b (e ∷ es)
    → text_in e.worker_id (workers es) ≡ false
    → (seen observe o e es pipes).stopped ≡ false
    → Tracks
        (drain_executor_events (seen observe o e es pipes).events b)
        (seen observe o e es pipes).executors
unfolding drain_executor_events restart stop_at
seen-Tracks observe alive e es pipes b others rest t fresh go =
    (others pipes b e.worker_id t.1 fresh go ∙ t.0, rest pipes b t.1 go)
seen-Tracks observe (dead true) e es pipes b others rest t fresh go = cc
seen-Tracks observe (dead false) e es pipes b others rest t fresh go =
    let t' = Tracks-restarted e es pipes b t.0 fresh t.1 in
    (
      others (pipes + 1) (restarted e pipes b) e.worker_id t' fresh go
          ∙ slots-restart e pipes b e.worker_id t.0
          ∙ rw (text_eq_refl e.worker_id) refl,
      rest (pipes + 1) (restarted e pipes b) t' go,
    )

-- After a turn that is not stopped, the broker tracks the executors that the turn leaves.
pub supervise-Tracks :
    (observe : Executor → Observation) (es : List Executor) (pipes : ℕ) (b : Broker)
    → distinct (workers es) ≡ true
    → Tracks b es
    → (supervise observe es pipes).stopped ≡ false
    → Tracks
        (drain_executor_events (supervise observe es pipes).events b)
        (supervise observe es pipes).executors
unfolding supervise drain_executor_events distinct
supervise-Tracks observe [] pipes b d t go = tt
supervise-Tracks observe (e ∷ es) pipes b d t go =
    seen-Tracks observe (observe e) e es pipes b (supervise-LeavesOthers observe es (ground arith))
      (λ p c t' go'. supervise-Tracks observe es p c (ground arith) t' go') t (ground arith) go
