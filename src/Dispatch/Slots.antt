-- ===== src/Dispatch/Slots.antt =====
-- Every connected slot is either leasable or leased, whatever the threads of the broker do.
use perago.Base.{
  ℕ, ◌==◌, leb, Bool, true, false, ◌||◌, ◌&&◌, Text, text_eq, text_eq_sound, text_eq_refl, text_in,
  ◌≡◌, refl, sym, arith, List, [], ◌∷◌, ◌++◌, Option, none, some, if◌then◌else◌, Bool-cases, inl,
  inr,
}
use perago.Dispatch.{
  Slot, ProcessExecutorStarted, Broker, set_at, is_connected, mark_slot_available, unless_busy,
  start_at, exit_at, lease_connection, lease_at, get_first, remove_first, lease_slot, release_slot,
}

-- A worker's slot is connected exactly if it is available or busy, never both, and an available one
-- stands in the queue or has been got from there by a thread that waits for the lock.
pub record SoundAt (b : Broker) (u : Text) : Type 0 where
  pub connected : is_connected (b.slots u) ≡ (b.available u || b.busy u)
  pub one_of : (b.available u && b.busy u) ≡ false
  pub queued : b.available u ≡ true → (text_in u b.queue || text_in u b.taken) ≡ true

abbrev pub Sound : Broker → Type 0
Sound b = (u : Text) → SoundAt b u

pub text_in-snoc :
    (u w : Text) (q : List Text) → text_in u (q ++ w ∷ []) ≡ (text_in u q || text_eq u w)
unfolding text_in
text_in-snoc u w [] = ground arith
text_in-snoc u w (x ∷ q) = ground (arith, text_in-snoc u w q)

or_true : (b : Bool) → (b || true) ≡ true
or_true true = refl
or_true false = refl

or_false : (a y : Bool) → false ≡ (a || y) → a ≡ false
or_false true y h = cc
or_false false y h = refl

either : (p q : Bool) → (p || q) ≡ true → ((p || false) || q) ≡ true
either true q h = h
either false q h = h

-- What marking a slot needs: all others are sound, and this one is connected and not busy.
mark_slot_available-Sound :
    (w : Text) (b : Broker)
    → is_connected (b.slots w) ≡ true
    → b.busy w ≡ false
    → (b.available w ≡ true → (text_in w b.queue || text_in w b.taken) ≡ true)
    → ((u : Text) → text_eq u w ≡ false → SoundAt b u)
    → Sound (mark_slot_available w b)
unfolding mark_slot_available
mark_slot_available-Sound w b connected idle queued others u = elim (Bool-cases (text_eq u w)) [
  | inl same ↦ at_w (b.available w) refl (text_eq_sound u w same)
  | inr different ↦ elsewhere (b.available w) different (others u different)
]
  where
    marked : Bool → Broker
    marked a =
        if a
        then b
        else record b { available = set_at w true b.available; queue = b.queue ++ w ∷ [] }

    at_w : (a : Bool) → b.available w ≡ a → u ≡ w → SoundAt (marked a) u
    at_w true e same =
        rw same (record {
          connected = rw (connected, e) refl;
          one_of = rw (e, idle) refl;
          queued = queued;
        })
    at_w false e same = rw same (record {
      connected = rw (text_eq_refl w, connected) refl;
      one_of = rw (text_eq_refl w, idle) refl;
      queued = λ _. rw (text_in-snoc w w b.queue, text_eq_refl w, or_true (text_in w b.queue)) refl;
    })

    elsewhere : (a : Bool) → text_eq u w ≡ false → SoundAt b u → SoundAt (marked a) u
    elsewhere true different s = s
    elsewhere false different s = record {
      connected = rw different s.connected;
      one_of = rw different s.one_of;
      queued = λ h.
          rw (text_in-snoc u w b.queue, different)
            (either (text_in u b.queue) (text_in u b.taken) (s.queued (rw different at h)));
    }

pub start_at-Sound :
    (event : ProcessExecutorStarted) (o : Option Slot) (b : Broker)
    → b.slots event.worker_id ≡ o
    → Sound b
    → Sound (start_at event o b)
start_at-Sound event none b e s = s
start_at-Sound event (some slot) b e s = newer (leb event.generation slot.generation)
  where
    begun : Broker
    begun = record b {
      slots =
          set_at event.worker_id
            (some (record {
              connection = some event.connection;
              generation = event.generation;
              exited_generation = none;
            }))
            b.slots;
    }

    others : (u : Text) → text_eq u event.worker_id ≡ false → SoundAt begun u
    others u different = record {
      connected = rw different (s u).connected;
      one_of = (s u).one_of;
      queued = (s u).queued;
    }

    leased : b.busy event.worker_id ≡ true → Sound begun
    leased busy u = elim (Bool-cases (text_eq u event.worker_id)) [
      | inl same ↦ rw (text_eq_sound u event.worker_id same) (record {
        connected =
            rw (text_eq_refl event.worker_id, busy) (sym (or_true (b.available event.worker_id)));
        one_of = (s event.worker_id).one_of;
        queued = (s event.worker_id).queued;
      })
      | inr different ↦ others u different
    ]

    marked :
        (y : Bool)
        → b.busy event.worker_id ≡ y
        → Sound (if y then begun else mark_slot_available event.worker_id begun)
    marked true busy = leased busy
    marked false idle =
        mark_slot_available-Sound event.worker_id begun (rw (text_eq_refl event.worker_id) refl)
          idle (s event.worker_id).queued others

    newer : (old : Bool) → Sound (if old then b else unless_busy event.worker_id begun)
    newer true = s
    newer false = marked (b.busy event.worker_id) refl

pub exit_at-Sound :
    (w : Text) (generation : ℕ) (o : Option Slot) (b : Broker)
    → b.slots w ≡ o
    → Sound b
    → Sound (exit_at w generation o b)
exit_at-Sound w generation none b e s = s
exit_at-Sound w generation (some slot) b e s = current (slot.generation == generation)
  where
    exited : Broker
    exited = record b {
      slots =
          set_at w (some (record slot { connection = none; exited_generation = some generation }))
            b.slots;
      available = set_at w false b.available;
      busy = set_at w false b.busy;
    }

    gone : Sound exited
    gone u = elim (Bool-cases (text_eq u w)) [
      | inl same ↦ record {
        connected = rw same refl;
        one_of = rw same refl;
        queued = λ h. cc (rw same at h);
      }
      | inr different ↦ record {
        connected = rw different (s u).connected;
        one_of = rw different (s u).one_of;
        queued = λ h. (s u).queued (rw different at h);
      }
    ]

    current : (same : Bool) → Sound (if same then exited else b)
    current true = gone
    current false = s

pub get_first-Sound : (q : List Text) (b : Broker) → b.queue ≡ q → Sound b → Sound (get_first q b).1
unfolding text_in
get_first-Sound [] b e s u = s u
get_first-Sound (w ∷ rest) b e s u = record {
  connected = (s u).connected;
  one_of = (s u).one_of;
  queued = λ h. moved (text_eq u w) (text_in u rest) (text_in u b.taken) (rw e at (s u).queued h);
}
  where
    moved : (p q r : Bool) → ((p || q) || r) ≡ true → (q || (p || r)) ≡ true
    moved p q r h = ground arith

pub text_in-remove_first :
    (u w : Text) (xs : List Text)
    → text_eq u w ≡ false
    → text_in u (remove_first w xs) ≡ text_in u xs
unfolding text_in remove_first
text_in-remove_first u w [] h = refl
text_in-remove_first u w (x ∷ xs) h = elim (Bool-cases (text_eq w x)) [
  | inl same ↦ rw (same, ← text_eq_sound w x same, h) refl
  | inr other ↦ rw (other, text_in-remove_first u w xs h) refl
]

pub lease_slot-Sound : (w : Text) (b : Broker) → Sound b → Sound (lease_slot w b).1
unfolding lease_slot
lease_slot-Sound w b s = slot_of (b.slots w) refl
  where
    seen : Broker
    seen = record b { taken = remove_first w b.taken }

    still :
        (u : Text)
        → text_eq u w ≡ false
        → b.available u ≡ true
        → (text_in u b.queue || text_in u (remove_first w b.taken)) ≡ true
    still u different h = rw (text_in-remove_first u w b.taken different) ((s u).queued h)

    -- a slot that is not available is left
    dropped : b.available w ≡ false → Sound seen
    dropped off u = record {
      connected = (s u).connected;
      one_of = (s u).one_of;
      queued = λ h. elim (Bool-cases (text_eq u w)) [
        | inl same ↦ cc (text_eq_sound u w same, h, off)
        | inr different ↦ still u different h
      ];
    }

    leased :
        is_connected (b.slots w) ≡ true
        → Sound
            (record seen { available = set_at w false b.available; busy = set_at w true b.busy })
    leased connected u = elim (Bool-cases (text_eq u w)) [
      | inl same ↦ rw (text_eq_sound u w same) (record {
        connected = rw (text_eq_refl w, connected) refl;
        one_of = rw (text_eq_refl w) refl;
        queued = λ h. cc (rw (text_eq_refl w) at h);
      })
      | inr different ↦ record {
        connected = rw different (s u).connected;
        one_of = rw different (s u).one_of;
        queued = λ h. still u different (rw different at h);
      }
    ]

    slot_of : (o : Option Slot) → b.slots w ≡ o → Sound (lease_at w o seen).1
    slot_of none e' = dropped (or_false (b.available w) (b.busy w) (rw e' at (s w).connected))
    slot_of (some slot) e' = on_available (b.available w) refl
      where
        connection_of :
            (c : Option ℕ)
            → slot.connection ≡ c
            → b.available w ≡ true
            → Sound (lease_connection w slot.generation c seen).1
        connection_of none missing on = cc (rw (e', missing, on) at (s w).connected)
        connection_of (some c) has on = leased (rw (e', has) refl)

        on_available :
            (a : Bool)
            → b.available w ≡ a
            → Sound
                (if a
                  then lease_connection w slot.generation slot.connection seen
                  else (none, seen)).1
        on_available true on = connection_of slot.connection refl on
        on_available false off = dropped off

pub release_slot-Sound : (w : Text) (b : Broker) → Sound b → Sound (release_slot w b)
unfolding release_slot
release_slot-Sound w b s = by_connection (is_connected (b.slots w)) refl
  where
    freed : Broker
    freed = record b { busy = set_at w false b.busy }

    others : (u : Text) → text_eq u w ≡ false → SoundAt freed u
    others u different = record {
      connected = rw different (s u).connected;
      one_of = rw different (s u).one_of;
      queued = (s u).queued;
    }

    lost : is_connected (b.slots w) ≡ false → Sound freed
    lost off u = elim (Bool-cases (text_eq u w)) [
      | inl same ↦
          let unavailable = or_false (b.available w) (b.busy w) (rw off at (s w).connected) in
          rw (text_eq_sound u w same) (record {
            connected = rw (text_eq_refl w, off, unavailable) refl;
            one_of = rw (text_eq_refl w, unavailable) refl;
            queued = (s w).queued;
          })
      | inr different ↦ others u different
    ]

    by_connection :
        (c : Bool)
        → is_connected (b.slots w) ≡ c
        → Sound (if c then mark_slot_available w freed else freed)
    by_connection true on =
        mark_slot_available-Sound w freed on (rw (text_eq_refl w) refl) (s w).queued others
    by_connection false off = lost off
