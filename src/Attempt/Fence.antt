-- ===== src/Attempt/Fence.antt =====
-- When the attempt fence lets an attempt pass.
use perago.Base.{
  ℕ, ◌==◌, Bool, true, false, not, Option, none, some, Text, text_eq, text_eq_iff, ◌≡◌, ◌≢◌, ◌↔◌,
  refl, ap, arith, text, ◌∙◌, ◌⊎◌, inl, inr, Bool-cases,
}
use perago.Errors.{stale_attempt_error, Outcome, ok, raised, >>=-eq-ok}
use perago.Attempt.{
  Attempt, in_progress, differs, status_differs, or_else, raise_stale,
  assert_current_attempt_snapshot, is_stale,
}

-- The fresh read is of the same attempt, which is still in progress.
pub record SameAttempt (task fresh : Attempt) : Type 0 where
  pub running : fresh.status ≡ some in_progress
  pub workflow : fresh.workflow_instance_id ≡ task.workflow_instance_id
  pub has_workflow : task.workflow_instance_id ≢ none
  pub id : fresh.task_id ≡ task.task_id
  pub has_id : task.task_id ≢ none
  pub retry : fresh.retry_count ≡ task.retry_count
  pub has_retry : task.retry_count ≢ none

status_differs_iff : (s : Option Text) → (status_differs s ≡ ok false) ↔ (s ≡ some in_progress)
status_differs_iff none = (λ h. cc, λ h. cc)
status_differs_iff (some s) =
    (λ h. ground (arith, text_eq_iff s in_progress), λ h. ground (arith, text_eq_iff s in_progress))

text_differs_iff :
    (f t : Option Text) (name : Text)
    → (differs text_eq f t name ≡ ok false) ↔ ((f ≡ t) × (t ≢ none))
text_differs_iff none t name = (λ h. cc, λ h. absurd (h.1 (ground arith)))
text_differs_iff (some f) none name = (λ h. cc, λ h. absurd (h.1 refl))
text_differs_iff (some f) (some t) name =
    (λ h. ground (arith, text_eq_iff f t), λ h. ground (arith, text_eq_iff f t))

count_differs_iff :
    (f t : Option ℕ) (name : Text) → (differs ◌==◌ f t name ≡ ok false) ↔ ((f ≡ t) × (t ≢ none))
count_differs_iff none t name = (λ h. cc, λ h. absurd (h.1 (ground arith)))
count_differs_iff (some f) none name = (λ h. cc, λ h. absurd (h.1 refl))
count_differs_iff (some f) (some t) name = (λ h. ground arith, λ h. ground arith)

or_else-eq-false : (a b : Outcome Bool) → or_else a b ≡ ok false → (a ≡ ok false) × (b ≡ ok false)
or_else-eq-false (ok true) b h = cc
or_else-eq-false (ok false) b h = (refl, h)
or_else-eq-false (raised e) b h = cc

is_stale_iff : (task fresh : Attempt) → (is_stale task fresh ≡ ok false) ↔ SameAttempt task fresh
unfolding is_stale
is_stale_iff task fresh = (
  λ h.
      let (a, r) = or_else-eq-false _ _ h in
      let (b, r') = or_else-eq-false _ _ r in
      let (c, d) = or_else-eq-false _ _ r' in
      let w = (text_differs_iff fresh.workflow_instance_id task.workflow_instance_id _).0 b in
      let i = (text_differs_iff fresh.task_id task.task_id _).0 c in
      let n = (count_differs_iff fresh.retry_count task.retry_count _).0 d in
      record {
        running = (status_differs_iff fresh.status).0 a;
        workflow = w.0;
        has_workflow = w.1;
        id = i.0;
        has_id = i.1;
        retry = n.0;
        has_retry = n.1;
      },
  λ s. rw (
    (status_differs_iff fresh.status).1 s.running,
    (text_differs_iff fresh.workflow_instance_id task.workflow_instance_id
          (text "workflow_instance_id")).1
        (s.workflow, s.has_workflow),
    (text_differs_iff fresh.task_id task.task_id (text "task_id")).1 (s.id, s.has_id),
    (count_differs_iff fresh.retry_count task.retry_count (text "retry_count")).1
        (s.retry, s.has_retry),
  ),
)

raise_stale-eq-ok : (id : Option Text) (stale : Bool) → raise_stale id stale ≡ ok tt → stale ≡ false
raise_stale-eq-ok none true h = cc
raise_stale-eq-ok (some t) true h = cc
raise_stale-eq-ok id false h = refl

-- The fence passes exactly when the fresh read is in progress and has the same workflow, task id
-- and retry count, none of them missing.
pub fence_iff :
    (task fresh : Attempt)
    → (assert_current_attempt_snapshot task fresh ≡ ok tt) ↔ SameAttempt task fresh
unfolding assert_current_attempt_snapshot
fence_iff task fresh = (
  λ h.
      let (stale, e, r) = >>=-eq-ok (is_stale task fresh) _ h in
      (is_stale_iff task fresh).0 (e ∙ ap ok (raise_stale-eq-ok task.task_id stale r)),
  λ s. rw ((is_stale_iff task fresh).1 s),
)

-- Both objects have the four attributes that the fence reads.
pub record HasIdentity (a : Attempt) (id : Text) : Type 0 where
  pub status : Text
  pub workflow : Text
  pub retry : ℕ
  pub has_status : a.status ≡ some status
  pub has_workflow : a.workflow_instance_id ≡ some workflow
  pub has_id : a.task_id ≡ some id
  pub has_retry : a.retry_count ≡ some retry

or_else-total :
    (x : Bool) {b : Outcome Bool}
    → ((y : Bool) × (b ≡ ok y))
    → (z : Bool) × (or_else (ok x) b ≡ ok z)
or_else-total true p = (true, refl)
or_else-total false p = p

is_stale-total :
    {task fresh : Attempt} {i j : Text}
    → HasIdentity task i
    → HasIdentity fresh j
    → (b : Bool) × (is_stale task fresh ≡ ok b)
unfolding is_stale
is_stale-total t f =
    rw (t.has_workflow, t.has_id, t.has_retry, f.has_status, f.has_workflow, f.has_id, f.has_retry)
      (or_else-total (not (text_eq f.status in_progress))
        (or_else-total (not (text_eq f.workflow t.workflow)) (or_else-total _ (_, refl))))

-- If no attribute is missing, the fence does one of two things: it passes, and the attempt is the
-- same, or it raises `StaleAttemptError` with the original task id, and it is not.
pub fence_cases :
    (task fresh : Attempt) (i j : Text)
    → HasIdentity task i
    → HasIdentity fresh j
    → ((assert_current_attempt_snapshot task fresh ≡ ok tt) × SameAttempt task fresh)
      ⊎ ((assert_current_attempt_snapshot task fresh ≡ raised (stale_attempt_error i))
          × ¬ SameAttempt task fresh)
unfolding assert_current_attempt_snapshot
fence_cases task fresh i j t f =
    let (b, e) = is_stale-total t f in
    elim (Bool-cases b) [
      | inl stale ↦ inr (rw (e, stale, t.has_id), λ s. cc ((is_stale_iff task fresh).1 s, e, stale))
      | inr fresh_read ↦ inl (rw (e, fresh_read), (is_stale_iff task fresh).0 (rw fresh_read at e))
    ]
