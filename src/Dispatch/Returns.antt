-- ===== src/Dispatch/Returns.antt =====
-- `perago/conductor_runtime/workers.py`: when an execution of the process dispatch worker comes back.
use perago.Base.{Bool, true, false, ◌||◌, ◌≡◌}
use perago.Errors.{Outcome}
use perago.Dispatch.{Broker}
use perago.Dispatch.Completion.{Received, nothing_yet, Wake, Reply}
use perago.Dispatch.Reports.{reply_of}

abbrev pub is_received : Received → Bool
is_received nothing_yet = false
is_received x = true

-- The turn ends the wait: a deadline has passed, or the pipe has given something.
abbrev pub is_decisive : Wake → Bool
is_decisive w = w.expired || is_received w.received

-- The call has come back.
abbrev pub Back {ℓ} : {A : Type ℓ} → Reply A → Type ℓ
Back {A = A} reply = (o : Outcome A) × (b : Broker) × (reply ≡ reply_of o b)
