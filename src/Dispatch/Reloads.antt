-- ===== src/Dispatch/Reloads.antt =====
-- `perago/conductor_runtime/workers.py` and `process_executor.py`: what the fence of an executor reads
-- through the broker.
use perago.Base.{
  Bool, true, false, not, Option, none, some, Text, text_eq, text_eq_refl, List, [], ◌∷◌, ◌++◌, ◌≡◌,
  refl, ap, ◌∙◌, arith, all,
}
use perago.Errors.{Outcome, ok, raised}
use perago.Dispatch.{set_at}
use perago.Dispatch.Mapping.{ConductorTaskAttempt}
use perago.Dispatch.Fences.{
  ProcessAttemptFenceRequest, Request, request, other_request, Response, response, Queues, Client,
  answer_of, answer, respond, handle_attempt_fence_request, serve, drain_attempt_fence_requests,
  put_request, read_response, get_response, take_first, load_current_attempt_via_broker,
  as_reload_error,
}

-- A request of another worker.
abbrev pub is_of_other : (worker_id : Text) → Request → Bool
is_of_other worker_id other_request = true
is_of_other worker_id (request r) = not (text_eq worker_id r.worker_id)

respond-other :
    (client : Client) (w : Text) (r : ProcessAttemptFenceRequest) (o : Option (List Response))
    (q : Queues)
    → text_eq w r.worker_id ≡ false
    → (respond client r o q).responses w ≡ q.responses w
respond-other client w r none q h = refl
respond-other client w r (some waiting) q h = rw h refl

serve-other :
    (client : Client) (w : Text) (rs : List Request) (q : Queues)
    → all (is_of_other w) rs ≡ true
    → (serve client rs q).responses w ≡ q.responses w
unfolding handle_attempt_fence_request
serve-other client w [] q h = refl
serve-other client w (other_request ∷ rs) q h = serve-other client w rs q h
serve-other client w (request r ∷ rs) q h =
    serve-other client w rs (respond client r (q.responses r.worker_id) q) (ground arith)
    ∙ respond-other client w r (q.responses r.worker_id) q (ground arith)

serve-append :
    (client : Client) (rs ss : List Request) (q : Queues)
    → serve client (rs ++ ss) q ≡ serve client ss (serve client rs q)
serve-append client [] ss q = refl
serve-append client (r ∷ rs) ss q =
    serve-append client rs ss (handle_attempt_fence_request client r q)

read_response-answer :
    (get_task : Text → Outcome ConductorTaskAttempt) (task_id : Text)
    → read_response task_id (response (answer (some get_task) task_id))
      ≡ as_reload_error task_id (get_task task_id)
unfolding read_response
read_response-answer get_task task_id = answered (get_task task_id)
  where
    answered :
        (o : Outcome ConductorTaskAttempt)
        → read_response task_id (response (answer_of task_id o)) ≡ as_reload_error task_id o
    answered (ok attempt) = rw (text_eq_refl task_id) refl
    answered (raised e) = rw (text_eq_refl task_id) refl

respond-own :
    (client : Client) (r : ProcessAttemptFenceRequest) (q : Queues) (o : Option (List Response))
    → o ≡ some []
    → (respond client r o q).responses r.worker_id ≡ some (response (answer client r.task_id) ∷ [])
respond-own client r q o e = rw (e, text_eq_refl r.worker_id) refl

-- What the worker finds once its request, behind those of others, is served.
served :
    (client : Client) (w task_id : Text) (q : Queues)
    → q.responses w ≡ some []
    → all (is_of_other w) q.requests ≡ true
    → (drain_attempt_fence_requests client (put_request w task_id q)).responses w
      ≡ some (response (answer client task_id) ∷ [])
unfolding drain_attempt_fence_requests put_request handle_attempt_fence_request
served client w task_id q empty others =
    let waiting = record q { requests = [] } in
    let mine : ProcessAttemptFenceRequest = record { worker_id = w; task_id = task_id } in
    let before = serve client q.requests waiting in
    ap (λ (x : Queues). x.responses w) (serve-append client q.requests (request mine ∷ []) waiting)
    ∙ respond-own client mine before (before.responses w)
        (serve-other client w q.requests waiting others ∙ empty)

get_response-one :
    (w : Text) (r : Response) (q : Queues)
    → q.responses w ≡ some (r ∷ [])
    → get_response w q ≡ some (r, record q { responses = set_at w (some []) q.responses })
unfolding get_response
get_response-one w r q e = taken (q.responses w) e
  where
    taken :
        (o : Option (List Response))
        → o ≡ some (r ∷ [])
        → take_first w o q ≡ some (r, record q { responses = set_at w (some []) q.responses })
    taken o f = rw f refl

-- While no response and no request of the worker is waiting, whatever requests of others are, a
-- fence of the worker reads through the broker what the broker's client reads of the task, an
-- exception of the client as a `RuntimeError` with its message, and leaves no response behind.
pub load_current_attempt_via_broker_lem :
    (get_task : Text → Outcome ConductorTaskAttempt) (w task_id : Text) (q : Queues)
    → q.responses w ≡ some []
    → all (is_of_other w) q.requests ≡ true
    → (last : Queues) × (load_current_attempt_via_broker (some get_task) w task_id q
        ≡ some (as_reload_error task_id (get_task task_id), last))
      × (last.responses w ≡ some [])
unfolding load_current_attempt_via_broker
load_current_attempt_via_broker_lem get_task w task_id q empty others =
    let found = served (some get_task) w task_id q empty others in
    let drained = drain_attempt_fence_requests (some get_task) (put_request w task_id q) in
    let got = get_response-one w (response (answer (some get_task) task_id)) drained found in
    (
      record drained { responses = set_at w (some []) drained.responses },
      rw (got, read_response-answer get_task task_id) refl,
      rw (text_eq_refl w) refl,
    )
