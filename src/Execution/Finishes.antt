-- ===== src/Execution/Finishes.antt =====
-- How the `try` block comes to an end: with a result, it has read only, published or relocated.
use perago.Base.{
  ℕ, Bool, true, false, Option, none, some, Text, text, List, ◌≡◌, refl, ◌⊎◌, inl, inr, arith,
}
use perago.Errors.{Outcome, ok, raised}
use perago.Value.{Value}
use perago.Models.{WorkspaceRef, WorkspaceSpec, validate_workspace_ref, published_output}
use perago.Models.References.{published_output_cases}
use perago.Attempt.{Attempt}
use perago.Result.{RuntimeTaskResult, TaskResultStatus, completed_result}
use perago.Execution.Calls.{
  StagedWorkspace, Environment, Machine, Run, perform, stage, publish, noop,
}
use perago.Execution.Protocol.{
  Progress, started, downloaded, ran, fenced, staged_as, cleared, published, stage_trace,
  publish_trace, noop_trace, stage_fails, publish_fails, noop_fails,
}
use perago.Execution.Rules.{
  Halted, Ends, halt, resync, Leads-bind, Leads-lift, Leads-perform, Leads-if, Leads-if_eq,
  Leads-weaken,
}
use perago.Execution.{
  Task, InputData, SnapshotEntry, output_value, io_metrics, maybe_timed, complete, complete_noop,
  call_stage, stage_phase, publish_changes, publish_nothing, finish_writable, after_download,
  attempt_block, required_fields, same_snapshot, keep_staged, call_noop, NoopCallback,
}
use perago.Execution.Follows.{
  Here, To, timed-leads, prepare-leads, snapshot-leads, measure-leads, sample-leads,
  download_phase-leads, body-leads, fence-leads, fence_again-leads,
}

-- A completed result with the reference of the input, its ref replaced, and the task's result.
abbrev pub completed_with : WorkspaceRef → Text → Value → RuntimeTaskResult
completed_with w ref result = record {
  status = TaskResultStatus.completed;
  output = some (output_value (record w { ref = ref }) result);
  reason_for_incompletion = none;
}

module _ (env : Environment) (task : Task) (input : InputData) (attempt : Attempt)
    (has_recorder : Bool) (depth : ℕ) (spec : WorkspaceSpec) (tokens : List Text) where
  abbrev Here_ : Progress → Machine → Type 0
  Here_ = Here env task input attempt has_recorder depth spec tokens

  abbrev To_ : {A : Type 0} → (A → Machine → Type 0) → Run A → Machine → Type 0
  To_ = To env task input attempt has_recorder depth spec tokens

  -- The attempt stands at `p`, and the result reports `ref`.
  abbrev Completes : Progress → WorkspaceRef → Text → RuntimeTaskResult → Machine → Type 0
  Completes p w ref r s = Here_ p s × ((result : Value) × (r ≡ completed_with w ref result))

  completed_result-eq :
      (v : Value) {r : RuntimeTaskResult}
      → completed_result depth v ≡ ok r
      → r ≡ record {
        status = TaskResultStatus.completed;
        output = some v;
        reason_for_incompletion = none;
      }
  unfolding completed_result
  completed_result-eq v h = cc

  published_output-eq :
      (v : Value) (w out : WorkspaceRef) (ref : Text)
      → validate_workspace_ref v ≡ ok w
      → published_output w ref ≡ ok out
      → out ≡ record w { ref = ref }
  published_output-eq v w out ref acc h = elim (published_output_cases v w ref acc) [
    | inl (e, _, _) ↦ cc
    | inr (e, _) ↦ cc
  ]

  complete-leads :
      {p : Progress} (v : Value) (w : WorkspaceRef) (ref : Text) (result : Value) {s : Machine}
      → validate_workspace_ref v ≡ ok w
      → Here_ p s
      → To_ (Completes p w ref) (complete env task input attempt has_recorder depth w ref result) s
  unfolding complete
  complete-leads {p} v w ref result acc h =
      Leads-bind {P = λ out s'. Here_ p s' × (out ≡ record w { ref = ref })}
        (Leads-lift (halt h) (λ out e. (h, published_output-eq v w out ref acc e)))
        λ out s' (h', e).
          Leads-lift (halt h') (λ r done. (h', (result, rw e at (completed_result-eq _ done))))

  call_noop-leads :
      (w : WorkspaceRef) (callback : Option NoopCallback) {s : Machine}
      → Here_ fenced s
      → To_ (λ ref. Here_ (published ref)) (call_noop w spec callback) s
  call_noop-leads w none h = Leads-lift (halt h) (λ _ e. cc)
  call_noop-leads w (some callback) {s = s} h =
      Leads-perform _ _
        (λ ref. record {
          trace = noop_trace ref h.trace;
          synced = resync s (noop (ok ref)) refl refl h.synced;
        })
        (λ e. record {
          stopped = noop_fails e h.trace;
          synced = resync s (noop (raised e)) refl refl h.synced;
        })

  call_publish-leads :
      (w : WorkspaceRef) (st : StagedWorkspace) {s : Machine}
      → Here_ (cleared st) s
      → To_
          (λ ref. Here_ (published ref))
          (perform (env.publish_workspace st w spec) (publish st))
          s
  call_publish-leads w st {s = s} h =
      Leads-perform _ _
        (λ ref. record {
          trace = publish_trace st ref h.trace;
          synced = resync s (publish st (ok ref)) refl refl h.synced;
        })
        (λ e. record {
          stopped = publish_fails st e h.trace;
          synced = resync s (publish st (raised e)) refl refl h.synced;
        })

  keep_staged-Ends :
      (r : Outcome StagedWorkspace) (s : Machine)
      → Here_ fenced s
      → Ends attempt spec.read_only tokens
          (λ w. Here_ (staged_as w))
          (keep_staged r s).0
          (keep_staged r s).1
  keep_staged-Ends (ok w) s h = record {
    trace = stage_trace w h.trace;
    synced = record { dir = h.synced.dir; staged = refl; tokens_kept = h.synced.tokens_kept };
  }
  keep_staged-Ends (raised e) s h = record {
    stopped = stage_fails e h.trace;
    synced = resync s (stage (raised e)) refl refl h.synced;
  }

  call_stage-leads :
      (w : WorkspaceRef) (dir : Text) {s : Machine}
      → Here_ fenced s
      → To_
          (λ st. Here_ (staged_as st))
          (call_stage env task input attempt has_recorder depth w spec dir)
          s
  unfolding call_stage
  call_stage-leads w dir {s = s} h = record {
    at = keep_staged-Ends (env.stage_workspace dir w spec s.history) s h;
  }

  stage_phase-leads :
      (w : WorkspaceRef) (dir : Text) {s : Machine}
      → Here_ fenced s
      → To_
          (λ st. Here_ (staged_as st))
          (stage_phase env task input attempt has_recorder depth w spec dir)
          s
  unfolding stage_phase
  stage_phase-leads w dir h =
      Leads-if (io_metrics env task input attempt has_recorder depth)
        (Leads-bind (measure-leads env task input attempt has_recorder depth spec tokens dir h)
          λ bytes _ h1.
            Leads-bind
              (timed-leads env task input attempt has_recorder depth spec tokens _
                (call_stage-leads w dir h1) (λ _ _. halt))
              λ st _ h2.
                Leads-bind
                  (sample-leads env task input attempt has_recorder depth spec tokens _ bytes h2)
                  λ _ _ h3. Leads-lift (halt h3) (λ st' e. rw (← some-ok e) h3))
        (call_stage-leads w dir h)
    where
      some-ok : {a b : StagedWorkspace} → ok a ≡ ok b → a ≡ b
      some-ok e = cc

  maybe_timed-leads :
      {A : Type 0} {Q : A → Machine → Type 0} (operation : Text) {m : Run A} {s : Machine}
      → To_ Q m s
      → ((a : A) (s' : Machine) → Q a s' → Halted attempt spec.read_only tokens s')
      → To_ Q (maybe_timed env task input attempt has_recorder depth operation m) s
  maybe_timed-leads operation h k =
      Leads-if (io_metrics env task input attempt has_recorder depth)
        (timed-leads env task input attempt has_recorder depth spec tokens operation h k) h

  -- A result means that a ref was published, or that a read-only task ran.
  abbrev pub Ended : WorkspaceRef → RuntimeTaskResult → Machine → Type 0
  Ended w r s =
      ((spec.read_only ≡ true) × Completes ran w w.ref r s)
      ⊎ ((spec.read_only ≡ false) × ((ref : Text) × Completes (published ref) w ref r s))

  publish_nothing-leads :
      (v : Value) (w : WorkspaceRef) (result : Value) {s : Machine}
      → spec.read_only ≡ false
      → validate_workspace_ref v ≡ ok w
      → Here_ fenced s
      → To_ (Ended w) (publish_nothing env task input attempt has_recorder depth w spec result) s
  unfolding publish_nothing complete_noop
  publish_nothing-leads v w result writable acc h =
      Leads-bind
        (maybe_timed-leads (text "publish") (call_noop-leads w env.complete_noop_workspace h)
          (λ _ _. halt))
        λ ref _ h1.
          Leads-weaken (complete-leads v w ref result acc h1) (λ r s' c. inr (writable, (ref, c)))

  publish_changes-leads :
      (v : Value) (w : WorkspaceRef) (dir : Text) (result : Value) {s : Machine}
      → spec.read_only ≡ false
      → validate_workspace_ref v ≡ ok w
      → Here_ fenced s
      → To_
          (Ended w)
          (publish_changes env task input attempt has_recorder depth w spec dir result)
          s
  unfolding publish_changes
  publish_changes-leads v w dir result writable acc h =
      Leads-bind (stage_phase-leads w dir h) λ st _ h1.
        Leads-bind (fence_again-leads env task input attempt has_recorder depth spec tokens st h1)
          λ _ _ h2.
            Leads-bind
              (maybe_timed-leads (text "publish") (call_publish-leads w st h2) (λ _ _. halt))
              λ ref _ h3.
                Leads-weaken (complete-leads v w ref result acc h3)
                  (λ r s' c. inr (writable, (ref, c)))

  finish_writable-leads :
      (v : Value) (w : WorkspaceRef) (dir : Text) (initial : List SnapshotEntry) (result : Value)
      {s : Machine}
      → spec.read_only ≡ false
      → validate_workspace_ref v ≡ ok w
      → Here_ ran s
      → To_
          (Ended w)
          (finish_writable env task input attempt has_recorder depth w spec dir initial result)
          s
  unfolding finish_writable
  finish_writable-leads v w dir initial result writable acc h =
      Leads-bind (snapshot-leads env task input attempt has_recorder depth spec tokens dir h)
        λ final _ h1.
          Leads-bind (fence-leads env task input attempt has_recorder depth spec tokens writable h1)
            λ _ _ h2.
              Leads-if (same_snapshot final initial)
                (publish_nothing-leads v w result writable acc h2)
                (publish_changes-leads v w dir result writable acc h2)

  after_download-leads :
      (v : Value) (w : WorkspaceRef) (dir : Text) {s : Machine}
      → validate_workspace_ref v ≡ ok w
      → Here_ downloaded s
      → To_ (Ended w) (after_download env task input attempt has_recorder depth w spec dir) s
  unfolding after_download
  after_download-leads v w dir acc h =
      Leads-if_eq spec.read_only
        (λ reading.
          Leads-bind (body-leads env task input attempt has_recorder depth spec tokens dir h)
            λ result _ h1.
              Leads-weaken (complete-leads v w w.ref result acc h1) (λ r s' c. inl (reading, c)))
        (λ writable.
          Leads-bind (snapshot-leads env task input attempt has_recorder depth spec tokens dir h)
            λ initial _ h1.
              Leads-bind (body-leads env task input attempt has_recorder depth spec tokens dir h1)
                λ result _ h2. finish_writable-leads v w dir initial result writable acc h2)

  -- What a result of the block means, from its input.
  pub record BlockEnds (r : RuntimeTaskResult) (s : Machine) : Type 0 where
    pub value : Value
    pub given : input.workspace ≡ some value
    pub w : WorkspaceRef
    pub accepted : validate_workspace_ref value ≡ ok w
    pub ended : Ended w r s

  required_fields-eq :
      (a b : Option Value) {t : Value × Value} → required_fields a b ≡ ok t → a ≡ some t.0
  required_fields-eq (some a) (some b) h = ground arith
  required_fields-eq (some a) none h = cc
  required_fields-eq none b h = cc

  pub attempt_block-leads :
      {s : Machine}
      → Here_ started s
      → To_ BlockEnds (attempt_block env task input attempt has_recorder depth spec) s
  unfolding attempt_block
  attempt_block-leads h =
      Leads-bind {P = λ t s'. Here_ started s' × (input.workspace ≡ some t.0)}
        (Leads-lift (halt h) (λ t e. (h, required_fields-eq input.workspace input.params e)))
        λ t _ (h1, given).
          Leads-bind {P = λ w s'. Here_ started s' × (validate_workspace_ref t.0 ≡ ok w)}
            (Leads-lift (halt h1) (λ w acc. (h1, acc)))
            λ w _ (h2, acc).
              Leads-bind (prepare-leads env task input attempt has_recorder depth spec tokens h2)
                λ dir _ h3.
                  Leads-bind
                    (download_phase-leads env task input attempt has_recorder depth spec tokens w
                      dir h3)
                    λ _ _ h4. Leads-weaken (after_download-leads t.0 w dir acc h4) (λ r s' e.
                      record { value = t.0; given = given; w = w; accepted = acc; ended = e })
