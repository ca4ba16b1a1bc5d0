-- ===== src/Execution/Follows.antt =====
-- The `try` block of an attempt keeps to the protocol, and a result means that it came to an end.
use perago.Base.{ℕ, Bool, false, Option, none, some, Text, List, ◌∷◌, ◌≡◌, refl}
use perago.Errors.{Outcome, ok, raised}
use perago.Value.{Value}
use perago.Models.{WorkspaceRef, WorkspaceSpec, MetricSpec}
use perago.Attempt.{Attempt}
use perago.Attempt.Fence.{SameAttempt, fence_iff}
use perago.Execution.Calls.{
  StagedWorkspace, Environment, Machine, Run, perform, prepare, download, body, load,
}
use perago.Execution.Protocol.{
  Progress, started, ready, downloaded, ran, fenced, staged_as, cleared, prepare_trace,
  download_trace, body_trace, fence_trace, fence_again_trace, prepare_fails, download_fails,
  body_fails, fence_fails, fence_again_fails,
}
use perago.Execution.Rules.{
  At, Halted, Leads, Ends, halt, resync, Leads-bind, Leads-lift, Leads-ask, Leads-ask_outcome,
  Leads-perform, Leads-if, after_timer-Ends,
}
use perago.Execution.{
  Task, InputData, io_metrics, timed, sample_bytes, measure, snapshot_workspace, prepare_workspace,
  download_phase, call_fn, invoke_workspace_task_body, fence, keep_dir,
}

module _ (env : Environment) (task : Task) (input : InputData) (attempt : Attempt)
    (has_recorder : Bool) (depth : ℕ) (spec : WorkspaceSpec) (tokens : List Text) where
  abbrev pub Here : Progress → Machine → Type 0
  Here = At attempt spec.read_only tokens

  abbrev pub To : {A : Type 0} → (A → Machine → Type 0) → Run A → Machine → Type 0
  To = Leads attempt spec.read_only tokens

  pub timed-leads :
      {A : Type 0} {Q : A → Machine → Type 0} (operation : Text) {m : Run A} {s : Machine}
      → To Q m s
      → ((a : A) (s' : Machine) → Q a s' → Halted attempt spec.read_only tokens s')
      → To Q (timed env task input attempt has_recorder depth operation m) s
  unfolding timed
  timed-leads {Q = Q} operation {m = m} {s = s} h k = record {
    at = after_timer-Ends Q _ (m s).0 (m s).1 h.at k;
  }

  keep_dir-Ends :
      (r : Outcome Text) (s : Machine)
      → Here started s
      → Ends attempt spec.read_only tokens (λ _. Here ready) (keep_dir r s).0 (keep_dir r s).1
  keep_dir-Ends (ok dir) s h = record {
    trace = prepare_trace dir h.trace;
    synced = record { dir = refl; staged = h.synced.staged; tokens_kept = h.synced.tokens_kept };
  }
  keep_dir-Ends (raised e) s h = record {
    stopped = prepare_fails e h.trace;
    synced = resync s (prepare (raised e)) refl refl h.synced;
  }

  pub prepare-leads :
      {s : Machine}
      → Here started s
      → To (λ _. Here ready) (prepare_workspace env task input attempt has_recorder depth) s
  unfolding prepare_workspace
  prepare-leads {s} h = record { at = keep_dir-Ends (env.prepare_attempt_workspace s.history) s h }

  call_download-leads :
      (w : WorkspaceRef) (dir : Text) {s : Machine}
      → Here ready s
      → To (λ _. Here downloaded) (perform (env.download_workspace w spec dir) download) s
  call_download-leads w dir {s = s} h =
      Leads-perform _ _
        (λ _. record {
          trace = download_trace h.trace;
          synced = resync s (download (ok tt)) refl refl h.synced;
        })
        (λ e. record {
          stopped = download_fails e h.trace;
          synced = resync s (download (raised e)) refl refl h.synced;
        })

  pub measure-leads :
      {p : Progress} (dir : Text) {s : Machine}
      → Here p s
      → To (λ _. Here p) (measure env task input attempt has_recorder depth dir) s
  unfolding measure
  measure-leads dir h =
      Leads-bind (Leads-ask_outcome _ h) (λ entries s' h'. Leads-lift (halt h') (λ _ _. h'))

  pub sample-leads :
      {p : Progress} (operation : Text) (bytes : ℕ) {s : Machine}
      → Here p s
      → To (λ _. Here p) (sample_bytes env task input attempt has_recorder depth operation bytes) s
  unfolding sample_bytes
  sample-leads operation bytes h = Leads-ask_outcome _ h

  pub snapshot-leads :
      {p : Progress} (dir : Text) {s : Machine}
      → Here p s
      → To (λ _. Here p) (snapshot_workspace env task input attempt has_recorder depth dir) s
  unfolding snapshot_workspace
  snapshot-leads dir h =
      Leads-bind (Leads-ask_outcome _ h) (λ entries s' h'. Leads-lift (halt h') (λ _ _. h'))

  pub download_phase-leads :
      (w : WorkspaceRef) (dir : Text) {s : Machine}
      → Here ready s
      → To
          (λ _. Here downloaded)
          (download_phase env task input attempt has_recorder depth w spec dir)
          s
  unfolding download_phase
  download_phase-leads w dir h =
      Leads-if (io_metrics env task input attempt has_recorder depth)
        (Leads-bind (timed-leads _ (call_download-leads w dir h) (λ _ _. halt))
          λ _ _ h1. Leads-bind (measure-leads dir h1) λ bytes _ h2. sample-leads _ bytes h2)
        (call_download-leads w dir h)

  call_body-leads :
      (params : Value) {s : Machine}
      → Here downloaded s
      → To (λ _. Here ran) (perform (env.fn params) body) s
  call_body-leads params {s = s} h =
      Leads-perform _ _
        (λ v. record {
          trace = body_trace v h.trace;
          synced = resync s (body (ok v)) refl refl h.synced;
        })
        (λ e. record {
          stopped = body_fails e h.trace;
          synced = resync s (body (raised e)) refl refl h.synced;
        })

  call_fn-leads :
      (m : Option MetricSpec) (params : Value) {s : Machine}
      → Here downloaded s
      → To (λ _. Here ran) (call_fn env task input attempt has_recorder depth m params) s
  unfolding call_fn
  call_fn-leads none params h = call_body-leads params h
  call_fn-leads (some m) params h =
      Leads-if has_recorder (call_body-leads params h) (Leads-lift (halt h) (λ _ e. cc))

  pub body-leads :
      (dir : Text) {s : Machine}
      → Here downloaded s
      → To
          (λ _. Here ran)
          (invoke_workspace_task_body env task input attempt has_recorder depth spec dir)
          s
  unfolding invoke_workspace_task_body
  body-leads dir h =
      Leads-bind (Leads-lift {Q = λ _. Here downloaded} (halt h) (λ _ _. h)) λ _ _ h1.
        Leads-bind (Leads-lift {Q = λ _. Here downloaded} (halt h1) (λ _ _. h1)) λ _ _ h2.
          Leads-bind (Leads-lift {Q = λ _. Here downloaded} (halt h2) (λ _ _. h2)) λ _ _ h3.
            Leads-bind (Leads-ask _ h3) λ _ _ h4.
              Leads-bind (Leads-lift {Q = λ _. Here downloaded} (halt h4) (λ _ _. h4)) λ _ _ h5.
                Leads-bind (call_fn-leads task.metrics _ h5) λ _ _ h6.
                  Leads-bind (Leads-lift {Q = λ _. Here ran} (halt h6) (λ _ _. h6)) λ _ _ h7.
                    Leads-bind (Leads-ask _ h7) λ _ _ h8.
                      Leads-bind (Leads-lift {Q = λ _. Here ran} (halt h8) (λ _ _. h8))
                        λ _ _ h9. Leads-lift (halt h9) (λ _ _. h9)

  -- After the fence has answered, `p` is where the attempt stands if it passed.
  fence-leads_from :
      {s : Machine} {p : Progress}
      → ((r : Outcome Attempt)
          → Halted attempt spec.read_only tokens (record s { history = load r ∷ s.history }))
      → ((fresh : Attempt)
          → SameAttempt attempt fresh
          → Here p (record s { history = load (ok fresh) ∷ s.history }))
      → To (λ _. Here p) (fence env task input attempt has_recorder depth) s
  unfolding fence
  fence-leads_from {s} {p} bad good =
      Leads-bind {P = λ fresh s'. (s' ≡ record s { history = load (ok fresh) ∷ s.history })}
        (Leads-perform _ _ (λ _. refl) (λ e. bad (raised e)))
        λ fresh s' e.
          Leads-lift (rw e (bad (ok fresh)))
            (λ _ passed. rw e (good fresh ((fence_iff attempt fresh).0 passed)))

  pub fence-leads :
      {s : Machine}
      → spec.read_only ≡ false
      → Here ran s
      → To (λ _. Here fenced) (fence env task input attempt has_recorder depth) s
  fence-leads {s} writable h =
      fence-leads_from
        (λ r. record {
          stopped = fence_fails r writable h.trace;
          synced = resync s (load r) refl refl h.synced;
        })
        (λ fresh same. record {
          trace = fence_trace fresh writable same h.trace;
          synced = resync s (load (ok fresh)) refl refl h.synced;
        })

  pub fence_again-leads :
      {s : Machine} (w : StagedWorkspace)
      → Here (staged_as w) s
      → To (λ _. Here (cleared w)) (fence env task input attempt has_recorder depth) s
  fence_again-leads {s} w h =
      fence-leads_from
        (λ r. record {
          stopped = fence_again_fails w r h.trace;
          synced = resync s (load r) refl refl h.synced;
        })
        (λ fresh same. record {
          trace = fence_again_trace w fresh same h.trace;
          synced = resync s (load (ok fresh)) refl refl h.synced;
        })
