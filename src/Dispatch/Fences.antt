-- ===== src/Dispatch/Fences.antt =====
-- `perago/conductor_runtime/workers.py` and `process_executor.py`: an executor reads its attempt again
-- through the broker.
use perago.Base.{not, Option, none, some, Text, text, text_eq, List, [], ◌∷◌, ◌++◌, if◌then◌else◌}
use perago.Errors.{runtime_error, message, Outcome, ok, raised}
use perago.Dispatch.{set_at}
use perago.Dispatch.Mapping.{ConductorTaskAttempt}

pub record ProcessAttemptFenceRequest : Type 0 where
  pub worker_id : Text
  pub task_id : Text

pub record ProcessAttemptFenceResponse : Type 0 where
  pub task_id : Text
  pub attempt : Option ConductorTaskAttempt
  pub error : Option Text

-- What is on a response queue, or on the request queue.
pub data Response : Type 0 where
  response : ProcessAttemptFenceResponse → Response
  other_response : Response

pub data Request : Type 0 where
  request : ProcessAttemptFenceRequest → Request
  other_request : Request

-- `attempt_fence_request_queue` and `attempt_fence_response_queues`
pub record Queues : Type 0 where
  pub requests : List Request
  pub responses : Text → Option (List Response)

abbrev pub empty_response : (task_id : Text) → ProcessAttemptFenceResponse
empty_response task_id = record { task_id = task_id; attempt = none; error = none }

-- `client.get_task` of the broker's client, if it has one
abbrev pub Client : Type 0
Client = Option (Text → Outcome ConductorTaskAttempt)

abbrev pub answer_of : (task_id : Text) → Outcome ConductorTaskAttempt → ProcessAttemptFenceResponse
answer_of task_id (ok attempt) = record (empty_response task_id) { attempt = some attempt }
answer_of task_id (raised e) = record (empty_response task_id) { error = some (message e) }

abbrev pub answer : Client → (task_id : Text) → ProcessAttemptFenceResponse
answer none task_id = record (empty_response task_id) {
  error = some (text "broker has no conductor client");
}
answer (some get_task) task_id = answer_of task_id (get_task task_id)

abbrev pub respond : Client → ProcessAttemptFenceRequest → Option (List Response) → Queues → Queues
respond client r none q = q
respond client r (some waiting) q = record q {
  responses =
      set_at r.worker_id (some (waiting ++ response (answer client r.task_id) ∷ [])) q.responses;
}

-- `_handle_attempt_fence_request`
unfoldable pub handle_attempt_fence_request : Client → Request → Queues → Queues
unfolding message
handle_attempt_fence_request client (request r) q = respond client r (q.responses r.worker_id) q
handle_attempt_fence_request client other_request q = q

abbrev pub serve : Client → List Request → Queues → Queues
serve client [] q = q
serve client (r ∷ rest) q = serve client rest (handle_attempt_fence_request client r q)

-- `_drain_attempt_fence_requests`
unfoldable pub drain_attempt_fence_requests : Client → Queues → Queues
unfolding handle_attempt_fence_request
drain_attempt_fence_requests client q = serve client q.requests (record q { requests = [] })

-- `load_current_attempt_via_broker`, up to `response_queue.get()`
unfoldable pub put_request : (worker_id task_id : Text) → Queues → Queues
put_request worker_id task_id q = record q {
  requests = q.requests ++ request (record { worker_id = worker_id; task_id = task_id }) ∷ [];
}

abbrev pub attempt_or_error :
    (task_id : Text)
    → (error : Option Text) → Option ConductorTaskAttempt
    → Outcome ConductorTaskAttempt
attempt_or_error task_id (some error) attempt =
    raised
      (runtime_error (text "broker failed to reload attempt " ++ task_id ++ text ": " ++ error))
attempt_or_error task_id none none =
    raised (runtime_error (text "broker returned empty attempt-fence response for " ++ task_id))
attempt_or_error task_id none (some attempt) = ok attempt

-- the checks of what `response_queue.get()` has given
unfoldable pub read_response : (task_id : Text) → Response → Outcome ConductorTaskAttempt
read_response task_id other_response =
    raised (runtime_error (text "broker returned invalid attempt-fence response"))
read_response task_id (response r) =
    if not (text_eq r.task_id task_id)
    then raised (
        runtime_error (
          text "broker returned attempt-fence response for "
          ++ r.task_id
          ++ text "; expected "
          ++ task_id))
    else attempt_or_error task_id r.error r.attempt

-- `response_queue.get()`: the first response, with the queues that are left; `none` while there is none
abbrev pub take_first :
    (worker_id : Text) → Option (List Response) → Queues → Option (Response × Queues)
take_first worker_id none q = none
take_first worker_id (some []) q = none
take_first worker_id (some (r ∷ rest)) q =
    some (r, record q { responses = set_at worker_id (some rest) q.responses })

unfoldable pub get_response : (worker_id : Text) → Queues → Option (Response × Queues)
get_response worker_id q = take_first worker_id (q.responses worker_id) q

abbrev pub read_first :
    (task_id : Text) → Option (Response × Queues) → Option (Outcome ConductorTaskAttempt × Queues)
read_first task_id none = none
read_first task_id (some (r, q)) = some (read_response task_id r, q)

-- The whole call, where the broker serves the requests in between.
unfoldable pub load_current_attempt_via_broker :
    Client → (worker_id task_id : Text) → Queues → Option (Outcome ConductorTaskAttempt × Queues)
unfolding put_request drain_attempt_fence_requests get_response read_response
load_current_attempt_via_broker client worker_id task_id q =
    read_first task_id (
      get_response worker_id
        (drain_attempt_fence_requests client (put_request worker_id task_id q)))

-- What a failed read becomes.
abbrev pub as_reload_error :
    (task_id : Text) → Outcome ConductorTaskAttempt → Outcome ConductorTaskAttempt
as_reload_error task_id (ok attempt) = ok attempt
as_reload_error task_id (raised e) =
    raised
      (runtime_error (text "broker failed to reload attempt " ++ task_id ++ text ": " ++ message e))
