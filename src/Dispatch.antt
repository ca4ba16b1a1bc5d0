-- ===== src/Dispatch.antt =====
-- `perago/conductor_runtime/workers.py`, `PeragoProcessDispatchWorker`: the slots of the executor
-- processes, which the broker's threads lease. Each operation is one section under `_slot_lock`, or,
-- for `get_slot`, one call on the queue.
pub mod Slots
pub mod Started
pub mod Steps
pub mod Mapping
pub mod Completion
pub mod Reports
pub mod Returns
pub mod Fences
pub mod Reloads
use perago.Base.{
  ℕ, ◌==◌, leb, Bool, true, false, not, Text, text_eq, List, [], ◌∷◌, ◌++◌, Option, none, some,
  if◌then◌else◌,
}

-- `ProcessExecutorSlot`; a connection is known by its number only.
pub record Slot : Type 0 where
  pub connection : Option ℕ
  pub generation : ℕ
  pub exited_generation : Option ℕ

pub record ProcessExecutorStarted : Type 0 where
  pub worker_id : Text
  pub generation : ℕ
  pub connection : ℕ

pub record ProcessExecutorExited : Type 0 where
  pub worker_id : Text
  pub generation : ℕ

-- What is put on `executor_event_queue`.
pub data ExecutorEvent : Type 0 where
  exited : ProcessExecutorExited → ExecutorEvent
  started : ProcessExecutorStarted → ExecutorEvent

-- `_slots_by_worker_id`, `_available_slots`, `_available_worker_ids` and `_busy_worker_ids`; `taken`
-- are the slots that threads in `_lease_slot` have got off the queue, and for which they have not
-- had the lock yet.
pub record Broker : Type 0 where
  pub slots : Text → Option Slot
  pub queue : List Text
  pub taken : List Text
  pub available : Text → Bool
  pub busy : Text → Bool

pub record Lease : Type 0 where
  pub worker_id : Text
  pub generation : ℕ
  pub connection : ℕ

-- a map or a set with one entry changed
abbrev pub set_at {ℓ} : {A : Type ℓ} → Text → A → (Text → A) → Text → A
set_at w a f u = if text_eq u w then a else f u

abbrev pub has_connection : Option ℕ → Bool
has_connection none = false
has_connection (some c) = true

abbrev pub is_connected : Option Slot → Bool
is_connected none = false
is_connected (some slot) = has_connection slot.connection

-- `_mark_slot_available_locked`
unfoldable pub mark_slot_available : Text → Broker → Broker
mark_slot_available w b =
    if b.available w
    then b
    else record b { available = set_at w true b.available; queue = b.queue ++ w ∷ [] }

abbrev pub last_slot : (later earlier : Option Slot) → Option Slot
last_slot none earlier = earlier
last_slot (some later) earlier = some later

-- `{slot.worker_id: slot for slot in slots}`: the last slot of a worker is the one that stays.
abbrev pub slots_by_worker_id : List (Text × Slot) → Text → Option Slot
slots_by_worker_id [] u = none
slots_by_worker_id ((w, slot) ∷ rest) u =
    last_slot (slots_by_worker_id rest u) (if text_eq u w then some slot else none)

unfoldable pub mark_slots_available : List (Text × Slot) → Broker → Broker
unfolding mark_slot_available
mark_slots_available [] b = b
mark_slots_available ((w, slot) ∷ rest) b = mark_slots_available rest (mark_slot_available w b)

-- `PeragoProcessDispatchWorker.__init__`
unfoldable pub init_broker : List (Text × Slot) → Broker
unfolding mark_slots_available
init_broker slots = mark_slots_available slots (record {
  slots = slots_by_worker_id slots;
  queue = [];
  taken = [];
  available = λ u. false;
  busy = λ u. false;
})

abbrev pub unless_busy : Text → Broker → Broker
unless_busy w b = if b.busy w then b else mark_slot_available w b

abbrev pub start_at : ProcessExecutorStarted → Option Slot → Broker → Broker
start_at event none b = b
start_at event (some slot) b =
    if leb event.generation slot.generation
    then b
    else unless_busy event.worker_id (record b {
      slots =
          set_at event.worker_id
            (some (record {
              connection = some event.connection;
              generation = event.generation;
              exited_generation = none;
            }))
            b.slots;
    })

unfoldable pub handle_executor_started : ProcessExecutorStarted → Broker → Broker
unfolding mark_slot_available
handle_executor_started event b = start_at event (b.slots event.worker_id) b

-- The connection is dropped if the slot is still of the generation that has exited.
abbrev pub exit_at : Text → ℕ → Option Slot → Broker → Broker
exit_at w generation none b = b
exit_at w generation (some slot) b =
    if slot.generation == generation
    then record b {
      slots =
          set_at w (some (record slot { connection = none; exited_generation = some generation }))
            b.slots;
      available = set_at w false b.available;
      busy = set_at w false b.busy;
    }
    else b

unfoldable pub handle_executor_exited : ProcessExecutorExited → Broker → Broker
handle_executor_exited event b =
    exit_at event.worker_id event.generation (b.slots event.worker_id) b

-- `_mark_slot_exited`, when the pipe of a lease is broken
unfoldable pub mark_slot_exited : Text → ℕ → Broker → Broker
mark_slot_exited w generation b = exit_at w generation (b.slots w) b

-- The broker takes one event off its queue, `_handle_executor_event`.
abbrev pub handle_event : ExecutorEvent → Broker → Broker
handle_event (exited event) = handle_executor_exited event
handle_event (started event) = handle_executor_started event

-- `_drain_executor_events`
unfoldable pub drain_executor_events : List ExecutorEvent → Broker → Broker
unfolding handle_executor_exited handle_executor_started
drain_executor_events [] b = b
drain_executor_events (event ∷ rest) b = drain_executor_events rest (handle_event event b)

abbrev pub lease_connection : Text → ℕ → Option ℕ → Broker → Option Lease × Broker
lease_connection w generation none b = (none, b)
lease_connection w generation (some c) b = (
  some (record { worker_id = w; generation = generation; connection = c }),
  record b { available = set_at w false b.available; busy = set_at w true b.busy },
)

abbrev pub lease_at : Text → Option Slot → Broker → Option Lease × Broker
lease_at w none b = (none, b)
lease_at w (some slot) b =
    if b.available w then lease_connection w slot.generation slot.connection b else (none, b)

-- `self._available_slots.get(…)`, without the lock; `none` if the queue stays empty
abbrev pub get_first : List Text → Broker → Option Text × Broker
get_first [] b = (none, b)
get_first (w ∷ rest) b = (some w, record b { queue = rest; taken = w ∷ b.taken })

unfoldable pub get_slot : Broker → Option Text × Broker
get_slot b = get_first b.queue b

-- the list without the first of its elements that are `w`
unfoldable pub remove_first : Text → List Text → List Text
remove_first w [] = []
remove_first w (x ∷ xs) = let later = remove_first w xs in if text_eq w x then xs else x ∷ later

-- The locked section of a thread of `_lease_slot` that has got `w`; without a lease it loops.
unfoldable pub lease_slot : (w : Text) → Broker → Option Lease × Broker
unfolding remove_first
lease_slot w b = lease_at w (b.slots w) (record b { taken = remove_first w b.taken })

unfoldable pub release_slot : Text → Broker → Broker
unfolding mark_slot_available
release_slot w b =
    let freed : Broker = record b { busy = set_at w false b.busy } in
    if is_connected (freed.slots w) then mark_slot_available w freed else freed
