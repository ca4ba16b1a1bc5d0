-- ===== src/Attempt.antt =====
-- `perago/attempt.py`: the fence that compares an attempt with a fresh read of it. An attempt-like
-- object may lack an attribute, which is `none`.
pub mod Fence
use perago.Base.{
  ℕ, ◌==◌, Bool, true, false, not, Option, none, some, Text, text, text_eq, if◌then◌else◌, ◌++◌,
}
use perago.Errors.{
  Exception, stale_attempt_error, attribute_error, Outcome, ok, raised, ◌>>=◌, ◌>>◌,
}

pub record Attempt : Type 0 where
  pub status : Option Text
  pub workflow_instance_id : Option Text
  pub task_id : Option Text
  pub retry_count : Option ℕ
  pub task_def_name : Option Text
  pub reference_task_name : Option Text
  pub seq : Option ℕ
  pub iteration : Option ℕ
  pub execution_id : Option Text

-- `_task_attr(task, name)`
abbrev pub task_attr {ℓ} : {A : Type ℓ} → Option A → Text → Outcome A
task_attr (some a) name = ok a
task_attr none name = raised (attribute_error (text "task is missing required attribute " ++ name))

abbrev pub in_progress : Text
in_progress = text "IN_PROGRESS"

-- `_task_attr(fresh, name) != _task_attr(task, name)`, in the order of evaluation
abbrev pub differs {ℓ} : {A : Type ℓ} → (A → A → Bool) → Option A → Option A → Text → Outcome Bool
differs eq fresh task name = do f ← task_attr fresh name; t ← task_attr task name; ok (not (eq f t))

-- `a or b`, where `b` is evaluated only if `a` is false
abbrev pub or_else : Outcome Bool → Outcome Bool → Outcome Bool
or_else (ok true) next = ok true
or_else (ok false) next = next
or_else (raised e) next = raised e

abbrev pub status_differs : Option Text → Outcome Bool
status_differs fresh = do
  status ← task_attr fresh (text "status")
  ok (not (text_eq status in_progress))

abbrev pub raise_stale : Option Text → Bool → Outcome (Unit {0})
raise_stale task_id true = do
  id ← task_attr task_id (text "task_id")
  raised (stale_attempt_error id)
raise_stale task_id false = ok tt

unfoldable pub is_stale : Attempt → Attempt → Outcome Bool
is_stale task fresh = or_else (status_differs fresh.status) (
    or_else
      (differs text_eq fresh.workflow_instance_id task.workflow_instance_id
        (text "workflow_instance_id"))
      (or_else (differs text_eq fresh.task_id task.task_id (text "task_id"))
        (differs ◌==◌ fresh.retry_count task.retry_count (text "retry_count"))))

unfoldable pub assert_current_attempt_snapshot : Attempt → Attempt → Outcome (Unit {0})
unfolding is_stale
assert_current_attempt_snapshot task fresh = do
  stale ← is_stale task fresh
  raise_stale task.task_id stale
