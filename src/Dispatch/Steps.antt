-- ===== src/Dispatch/Steps.antt =====
-- The broker's threads as steps, and what holds after any of them.
use perago.Base.{
  ℕ, Bool, true, false, ◌||◌, Text, text_eq, text_eq_refl, text_in, ◌≡◌, ◌⊎◌, inl, inr, refl, sym,
  ap, ◌∙◌, arith, List, [], ◌∷◌, Option, none, some, if◌then◌else◌,
}
use perago.Dispatch.{
  Slot, ProcessExecutorStarted, ProcessExecutorExited, Broker, handle_executor_started,
  handle_executor_exited, mark_slot_exited, lease_connection, lease_at, Lease, get_slot,
  remove_first, lease_slot, release_slot,
}
use perago.Dispatch.Slots.{
  Sound, start_at-Sound, exit_at-Sound, get_first-Sound, lease_slot-Sound, release_slot-Sound,
}

-- What the broker's threads may do, in any order: the locked sections, and between them the taking of a
-- slot off the queue. A thread leases only a slot that it has taken.
pub data Step (b : Broker) : Broker → Type 0 where
  started : (event : ProcessExecutorStarted) → Step b (handle_executor_started event b)
  exited : (event : ProcessExecutorExited) → Step b (handle_executor_exited event b)
  broken : (w : Text) (generation : ℕ) → Step b (mark_slot_exited w generation b)
  got : Step b (get_slot b).1
  leased : (w : Text) → text_in w b.taken ≡ true → Step b (lease_slot w b).1
  released : (w : Text) → Step b (release_slot w b)

pub data Reachable (b : Broker) : Broker → Type 0 where
  at_start : Reachable b b
  after : {c d : Broker} → Reachable b c → Step c d → Reachable b d

pub Step-Sound : {b c : Broker} → Step b c → Sound b → Sound c
unfolding handle_executor_started handle_executor_exited mark_slot_exited get_slot
Step-Sound {b} (started event) s = start_at-Sound event (b.slots event.worker_id) b refl s
Step-Sound {b} (exited event) s =
    exit_at-Sound event.worker_id event.generation (b.slots event.worker_id) b refl s
Step-Sound {b} (broken w generation) s = exit_at-Sound w generation (b.slots w) b refl s
Step-Sound {b} got s = get_first-Sound b.queue b refl s
Step-Sound {b} (leased w waiting) s = lease_slot-Sound w b s
Step-Sound {b} (released w) s = release_slot-Sound w b s

-- From a sound broker, whatever the threads do and in any order: every worker's slot stays connected
-- exactly if it is available or busy, is never both, and if it is available, stands in the queue or
-- is in the hands of a thread that has got it from there and waits for the lock. So no connected
-- executor is ever lost to the broker.
pub Reachable-Sound : {b c : Broker} → Sound b → Reachable b c → Sound c
Reachable-Sound s at_start = s
Reachable-Sound s (after r step) = Step-Sound step (Reachable-Sound s r)

-- What a lease of `w` changes: the slot is busy and no longer available, and its thread has it no
-- longer in hand; all else is as before.
pub record Leases (w : Text) (b c : Broker) : Type 0 where
  pub same_slots : c.slots ≡ b.slots
  pub same_queue : c.queue ≡ b.queue
  pub not_in_hand : c.taken ≡ remove_first w b.taken
  pub not_available : c.available w ≡ false
  pub is_busy : c.busy w ≡ true
  pub others_available : (u : Text) → text_eq u w ≡ false → c.available u ≡ b.available u
  pub others_busy : (u : Text) → text_eq u w ≡ false → c.busy u ≡ b.busy u

-- The locked section of a thread that has got `w` leases an available slot, with its generation and
-- its connection, and does nothing else to one that is not available.
pub lease_slot_cases :
    (w : Text) (b : Broker)
    → Sound b
    → ((slot : Slot) × (n : ℕ) × (d : Broker) × (b.slots w ≡ some slot)
        × (slot.connection ≡ some n)
        × (b.available w ≡ true)
        × (lease_slot w b
            ≡ (some (record { worker_id = w; generation = slot.generation; connection = n }), d))
        × Leases w b d)
      ⊎ ((b.available w ≡ false)
          × (lease_slot w b ≡ (none, record b { taken = remove_first w b.taken })))
unfolding lease_slot
lease_slot_cases w b s = found (b.slots w) refl
  where
    seen : Broker
    seen = record b { taken = remove_first w b.taken }

    Cases : Option Lease × Broker → Type 0
    Cases r =
        ((slot : Slot) × (n : ℕ) × (d : Broker) × (b.slots w ≡ some slot)
          × (slot.connection ≡ some n)
          × (b.available w ≡ true)
          × (r ≡ (some (record { worker_id = w; generation = slot.generation; connection = n }), d))
          × Leases w b d)
        ⊎ ((b.available w ≡ false) × (r ≡ (none, seen)))

    connected :
        (slot : Slot) (c : Option ℕ)
        → b.slots w ≡ some slot
        → slot.connection ≡ c
        → b.available w ≡ true
        → Cases (lease_connection w slot.generation c seen)
    connected slot none there missing on = cc (rw (there, missing, on) at (s w).connected)
    connected slot (some n) there has on = inl (
      slot,
      n,
      _,
      there,
      has,
      on,
      refl,
      record {
        same_slots = refl;
        same_queue = refl;
        not_in_hand = refl;
        not_available = rw (text_eq_refl w) refl;
        is_busy = rw (text_eq_refl w) refl;
        others_available = λ u different. rw different refl;
        others_busy = λ u different. rw different refl;
      },
    )

    chosen :
        (slot : Slot) (a : Bool)
        → b.slots w ≡ some slot
        → b.available w ≡ a
        → Cases
            (if a then lease_connection w slot.generation slot.connection seen else (none, seen))
    chosen slot true there on = connected slot slot.connection there refl on
    chosen slot false there off = inr (off, refl)

    without : (a : Bool) → b.slots w ≡ none → b.available w ≡ a → Cases (none, seen)
    without true missing on = cc (rw (missing, on) at (s w).connected)
    without false missing off = inr (off, refl)

    found : (o : Option Slot) → b.slots w ≡ o → Cases (lease_at w o seen)
    found none missing = without (b.available w) missing refl
    found (some slot) there = chosen slot (b.available w) there refl

before : {b c d : Broker} → Step b c → Reachable c d → Reachable b d
before step at_start = after at_start step
before step (after r last) = after (before step r) last

-- Threads get slots off the queue until one has `w` in hand.
in_hand :
    (w : Text) (q : List Text) (b : Broker)
    → b.queue ≡ q
    → (text_in w q || text_in w b.taken) ≡ true
    → (c : Broker) × Reachable b c
      × (text_in w c.taken ≡ true)
      × (c.slots ≡ b.slots)
      × (c.available ≡ b.available)
unfolding text_in get_slot
in_hand w [] b e h = (b, at_start, h, refl, refl)
in_hand w (x ∷ rest) b e h =
    let next = (get_slot b).1 in
    let left : next.queue ≡ rest = rw e refl in
    let hand : next.taken ≡ x ∷ b.taken = rw e refl in
    let slots : next.slots ≡ b.slots = rw e refl in
    let available : next.available ≡ b.available = rw e refl in
    let (c, r, has, s, a) =
      in_hand w rest next left
        (rw hand (moved (text_eq w x) (text_in w rest) (text_in w b.taken) h)) in
    (c, before got r, has, s ∙ slots, a ∙ available)
  where
    moved : (p q r : Bool) → ((p || q) || r) ≡ true → (q || (p || r)) ≡ true
    moved p q r h = ground arith

-- If a worker is available in a sound broker, its slot can be leased: after some steps of the threads,
-- one of them has it in hand, and the locked section of that thread leases it, with the generation and
-- the connection that the slot had at the start, marks it busy and not available, takes it out of the
-- thread's hand, and changes nothing of any other worker.
pub lease_slot-available :
    (b : Broker) (w : Text)
    → Sound b
    → b.available w ≡ true
    → (slot : Slot) × (n : ℕ) × (c d : Broker) × (b.slots w ≡ some slot)
      × (slot.connection ≡ some n)
      × Reachable b c
      × (text_in w c.taken ≡ true)
      × (lease_slot w c
          ≡ (some (record { worker_id = w; generation = slot.generation; connection = n }), d))
      × Leases w c d
lease_slot-available b w s on =
    let (c, r, has, slots, available) = in_hand w b.queue b refl ((s w).queued on) in
    let there : c.available w ≡ true = ap (λ (f : Text → Bool). f w) available ∙ on in
    elim (lease_slot_cases w c (Reachable-Sound s r)) [
      | inl (slot, n, d, at_w, connected, _, lease, leases) ↦ (
        slot,
        n,
        c,
        d,
        ap (λ (f : Text → Option Slot). f w) (sym slots) ∙ at_w,
        connected,
        r,
        has,
        lease,
        leases,
      )
      | inr (off, _) ↦ cc (there, off)
    ]
