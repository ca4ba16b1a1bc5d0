-- ===== src/Dispatch/Started.antt =====
-- `PeragoProcessDispatchWorker.__init__`: a new broker is sound, and all its slots are available.
use perago.Base.{
  Bool, true, false, ◌||◌, ◌&&◌, Text, text_eq, text_eq_sound, text_in, List, [], ◌∷◌, ◌++◌, ◌≡◌,
  refl, sym, ap, ◌∙◌, inl, inr, ◌⊎◌, arith, Option, none, some, if◌then◌else◌, Bool-cases,
}
use perago.Dispatch.{
  Slot, Broker, has_connection, is_connected, last_slot, set_at, mark_slot_available,
  slots_by_worker_id, mark_slots_available, init_broker,
}
use perago.Dispatch.Slots.{Sound, text_in-snoc}

abbrev pub ids_of : List (Text × Slot) → List Text
ids_of [] = []
ids_of ((w, slot) ∷ rest) = w ∷ ids_of rest

abbrev pub all_connected : List (Text × Slot) → Bool
all_connected [] = true
all_connected ((w, slot) ∷ rest) = has_connection slot.connection && all_connected rest

slots-mark : (w : Text) (b : Broker) → (mark_slot_available w b).slots ≡ b.slots
unfolding mark_slot_available
slots-mark w b = ground arith

slots-mark_all :
    (xs : List (Text × Slot)) (b : Broker) → (mark_slots_available xs b).slots ≡ b.slots
unfolding mark_slots_available
slots-mark_all [] b = refl
slots-mark_all ((w, slot) ∷ xs) b = slots-mark_all xs (mark_slot_available w b) ∙ slots-mark w b

abbrev queued : (w : Text) → Broker → Broker
queued w b = record b { available = set_at w true b.available; queue = b.queue ++ w ∷ [] }

or_true : (b : Bool) → (b || true) ≡ true
or_true true = refl
or_true false = refl

or_false : (b : Bool) → (b || false) ≡ b
or_false true = refl
or_false false = refl

and_false : (b : Bool) → (b && false) ≡ false
and_false true = refl
and_false false = refl

or_assoc : (a b c : Bool) → ((a || b) || c) ≡ (a || (b || c))
or_assoc true b c = refl
or_assoc false b c = refl

available-mark :
    (w : Text) (b : Broker) (u : Text)
    → (mark_slot_available w b).available u ≡ (b.available u || text_eq u w)
unfolding mark_slot_available
available-mark w b u = marked (b.available w) refl (Bool-cases (text_eq u w))
  where
    marked :
        (a : Bool)
        → b.available w ≡ a
        → (text_eq u w ≡ true) ⊎ (text_eq u w ≡ false)
        → (if a then b else queued w b).available u ≡ (b.available u || text_eq u w)
    marked true e (inl same) = rw (text_eq_sound u w same, e) refl
    marked false e (inl same) = rw same (sym (or_true (b.available u)))
    marked true e (inr other) = rw other (sym (or_false (b.available u)))
    marked false e (inr other) = rw other (sym (or_false (b.available u)))

-- A broker in which nothing is busy, and the available slots are those in the queue.
record IsIdle (b : Broker) : Type 0 where
  in_queue : (u : Text) → text_in u b.queue ≡ b.available u
  none_busy : (u : Text) → b.busy u ≡ false

mark-IsIdle : (w : Text) (b : Broker) → IsIdle b → IsIdle (mark_slot_available w b)
unfolding mark_slot_available
mark-IsIdle w b i = marked (b.available w) refl
  where
    marked : (a : Bool) → b.available w ≡ a → IsIdle (if a then b else queued w b)
    marked true e = i
    marked false e = record {
      in_queue = λ u.
          text_in-snoc u w b.queue
          ∙ ap (λ (q : Bool). q || text_eq u w) (i.in_queue u)
          ∙ sym (available-mark w b u)
          ∙ rw e refl;
      none_busy = i.none_busy;
    }

mark_all-IsIdle :
    (xs : List (Text × Slot)) (b : Broker) → IsIdle b → IsIdle (mark_slots_available xs b)
unfolding mark_slots_available
mark_all-IsIdle [] b i = i
mark_all-IsIdle ((w, slot) ∷ xs) b i =
    mark_all-IsIdle xs (mark_slot_available w b) (mark-IsIdle w b i)

available-mark_all :
    (xs : List (Text × Slot)) (b : Broker) (u : Text)
    → (mark_slots_available xs b).available u ≡ (b.available u || text_in u (ids_of xs))
unfolding mark_slots_available text_in
available-mark_all [] b u = sym (or_false (b.available u))
available-mark_all ((w, slot) ∷ xs) b u =
    available-mark_all xs (mark_slot_available w b) u
    ∙ ap (λ (a : Bool). a || text_in u (ids_of xs)) (available-mark w b u)
    ∙ or_assoc (b.available u) (text_eq u w) (text_in u (ids_of xs))

abbrev has_slot : Option Slot → Bool
has_slot none = false
has_slot (some slot) = true

-- Whether there is a slot, and whether it is connected, both say that the worker is listed.
abbrev Listed : Option Slot → Bool → Type 0
Listed o listed = (has_slot o ≡ listed) × (is_connected o ≡ listed)

Listed-last :
    (o : Option Slot) (slot : Slot) (listed here : Bool)
    → has_connection slot.connection ≡ true
    → Listed o listed
    → Listed (last_slot o (if here then some slot else none)) (here || listed)
Listed-last none slot listed true c (s, k) = (refl, c)
Listed-last none slot listed false c (s, k) = (s, k)
Listed-last (some later) slot listed true c (s, k) = (refl, rw (← s) at k)
Listed-last (some later) slot listed false c (s, k) = (s, k)

slots-Listed :
    (xs : List (Text × Slot)) (u : Text)
    → all_connected xs ≡ true
    → Listed (slots_by_worker_id xs u) (text_in u (ids_of xs))
unfolding text_in
slots-Listed [] u h = (refl, refl)
slots-Listed ((w, slot) ∷ xs) u h =
    Listed-last (slots_by_worker_id xs u) slot (text_in u (ids_of xs)) (text_eq u w) (ground arith)
      (slots-Listed xs u (ground arith))

abbrev unmarked : List (Text × Slot) → Broker
unmarked xs = record {
  slots = slots_by_worker_id xs;
  queue = [];
  taken = [];
  available = λ u. false;
  busy = λ u. false;
}

unmarked-IsIdle : (xs : List (Text × Slot)) → IsIdle (unmarked xs)
unfolding text_in
unmarked-IsIdle xs = record { in_queue = λ u. refl; none_busy = λ u. refl }

pub slots-init_broker : (xs : List (Text × Slot)) → (init_broker xs).slots ≡ slots_by_worker_id xs
unfolding init_broker
slots-init_broker xs = slots-mark_all xs (unmarked xs)

-- A new broker whose slots are all connected is sound: every slot is available and in the queue.
pub init_broker-Sound : (xs : List (Text × Slot)) → all_connected xs ≡ true → Sound (init_broker xs)
unfolding init_broker
init_broker-Sound xs h u =
    let i = mark_all-IsIdle xs (unmarked xs) (unmarked-IsIdle xs) in
    let same : (mark_slots_available xs (unmarked xs)).slots ≡ slots_by_worker_id xs =
      slots-mark_all xs (unmarked xs) in
    let listed : is_connected ((mark_slots_available xs (unmarked xs)).slots u)
        ≡ text_in u (ids_of xs) =
      ap (λ (f : Text → Option Slot). is_connected (f u)) same ∙ (slots-Listed xs u h).1 in
    record {
      connected =
          listed
          ∙ sym (available-mark_all xs (unmarked xs) u)
          ∙ sym (or_false _)
          ∙ ap (λ (busy : Bool). (mark_slots_available xs (unmarked xs)).available u || busy)
              (sym (i.none_busy u));
      one_of = rw (i.none_busy u) (and_false _);
      queued = λ e. rw (i.in_queue u ∙ e) refl;
    }
