-- ===== src/Tests/Broker.antt =====
-- One executor process that exits while it is leased, and is started again.
use perago.Base.{
  ℕ, true, false, Text, text, text_eq, text_eq_refl, text_in, ◌≡◌, refl, [], ◌∷◌, none, some,
  Bool-cases, inl, inr,
}
use perago.Dispatch.{
  Slot, Broker, set_at, mark_slot_available, handle_executor_started, handle_executor_exited,
  get_slot, lease_slot, release_slot,
}
use perago.Dispatch.Slots.{Sound}
use perago.Dispatch.Steps.{
  Reachable, Leases, at_start, after, got, leased, exited, Reachable-Sound, lease_slot-available,
}

abbrev pub w1 : Text
w1 = text "worker-1"

abbrev first_slot : Slot
first_slot = record { connection = some 7; generation = 1; exited_generation = none }

abbrev one_slot : Broker
one_slot = record {
  slots = set_at w1 (some first_slot) (λ u. none);
  queue = w1 ∷ [];
  taken = [];
  available = set_at w1 true (λ u. false);
  busy = λ u. false;
}

one_slot-Sound : Sound one_slot
unfolding text_in
one_slot-Sound u = elim (Bool-cases (text_eq u w1)) [
  | inl same ↦ record {
    connected = rw same refl;
    one_of = rw same refl;
    queued = λ h. rw same refl;
  }
  | inr different ↦ record {
    connected = rw different refl;
    one_of = rw different refl;
    queued = λ h. cc (rw different at h);
  }
]

abbrev one_got : Broker
one_got = (get_slot one_slot).1

abbrev pub one_leased : Broker
one_leased = (lease_slot w1 one_got).1

abbrev one_exited : Broker
one_exited = handle_executor_exited (record { worker_id = w1; generation = 1 }) one_leased

one_in_hand : text_in w1 one_got.taken ≡ true
unfolding get_slot text_in
one_in_hand = rw (text_eq_refl w1) refl

Reachable-Sound_example : Sound one_exited
Reachable-Sound_example = Reachable-Sound {b = one_slot} {c = one_exited} one_slot-Sound (
    after (after (after at_start got) (leased w1 one_in_hand))
      (exited (record { worker_id = w1; generation = 1 })))

lease_slot-available_example :
    (slot : Slot) × (n : ℕ) × (c : Broker) × (d : Broker) × (one_slot.slots w1 ≡ some slot)
    × (slot.connection ≡ some n)
    × Reachable one_slot c
    × (text_in w1 c.taken ≡ true)
    × (lease_slot w1 c
        ≡ (some (record { worker_id = w1; generation = slot.generation; connection = n }), d))
    × Leases w1 c d
lease_slot-available_example =
    lease_slot-available one_slot w1 one_slot-Sound (rw (text_eq_refl w1) refl)

abbrev restarted : Broker
restarted =
    handle_executor_started (record { worker_id = w1; generation = 2; connection = 8 }) one_exited

-- The lease of the second thread, while the first one still holds the lease of generation 1.
second_lease :
    (lease_slot w1 (get_slot restarted).1).0
    ≡ some (record { worker_id = w1; generation = 2; connection = 8 })
unfolding lease_slot get_slot handle_executor_started handle_executor_exited text text_eq
    mark_slot_available
second_lease = refl

-- The first thread's release frees the slot that the second thread has leased, so that a third
-- thread leases the same generation and connection as the second.
double_lease :
    (lease_slot w1 (get_slot (release_slot w1 (lease_slot w1 (get_slot restarted).1).1)).1).0
    ≡ some (record { worker_id = w1; generation = 2; connection = 8 })
unfolding lease_slot get_slot handle_executor_started handle_executor_exited text text_eq
    mark_slot_available release_slot
double_lease = refl
