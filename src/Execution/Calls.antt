-- ===== src/Execution/Calls.antt =====
-- What one attempt remembers and what it calls. The callbacks, the file system, pydantic and the
-- task function are an `Environment`: each answer may depend on all the calls made before it.
use perago.Base.{ℕ, Bool, Text, Option, List, ◌∷◌}
use perago.Errors.{Outcome, ok, raised}
use perago.Value.{Value}
use perago.Guards.{FileView}
use perago.Models.{WorkspaceRef, WorkspaceSpec}
use perago.Attempt.{Attempt}
use perago.Workspace.{Entry}

pub record StagedWorkspace : Type 0 where
  pub repository : Text
  pub branch : Text
  pub commit : Text

-- The calls that act on the world, with what each of them gave.
pub data Event : Type 0 where
  prepare : Outcome Text → Event
  download : Outcome (Unit {0}) → Event
  body : Outcome Value → Event
  load : Outcome Attempt → Event
  stage : Outcome StagedWorkspace → Event
  publish : StagedWorkspace → Outcome Text → Event
  noop : Outcome Text → Event
  clean_staging : StagedWorkspace → Event
  clean_workspace : Text → Event

-- The latest call stands first.
abbrev pub History : Type 0
History = List Event

pub record Environment : Type 0 where
  pub prepare_attempt_workspace : History → Outcome Text
  pub download_workspace : WorkspaceRef → WorkspaceSpec → Text → History → Outcome (Unit {0})
  -- `sorted(workspace_dir.rglob("*"))` with what `pathlib` says of each path
  pub listing : Text → History → Outcome (List Entry)
  pub view : Text → History → FileView
  -- `hashlib.sha256` over the content of a file
  pub file_digest : Text → Text
  -- `params_model.model_validate(raw, extra=…)`; the flag is `strict_params`
  pub validate_params : Bool → Value → Outcome Value
  pub fn : Value → History → Outcome Value
  -- `_validate_result` and its `model_dump(mode="json")`
  pub validate_result : Value → Outcome Value
  pub load_current_attempt : Attempt → History → Outcome Attempt
  pub stage_workspace : Text → WorkspaceRef → WorkspaceSpec → History → Outcome StagedWorkspace
  pub publish_workspace : StagedWorkspace → WorkspaceRef → WorkspaceSpec → History → Outcome Text
  pub complete_noop_workspace : Option (WorkspaceRef → WorkspaceSpec → History → Outcome Text)
  pub cleanup_staging : StagedWorkspace → History → Outcome (Unit {0})
  pub cleanup_attempt_workspace : Text → History → Outcome (Unit {0})
  -- a sample of the recorder: the metric, the operation, and the bytes if it counts bytes
  pub record_metric : Text → Text → Option ℕ → History → Outcome (Unit {0})

-- The local variables that the `finally` clause reads, and `_ACTIVE_OWNER_TOKENS`.
pub record Machine : Type 0 where
  pub history : History
  pub workspace_dir : Option Text
  pub staged : Option StagedWorkspace
  pub active_owner_tokens : List Text

abbrev pub Run : Type 0 → Type 0
Run A = Machine → Outcome A × Machine

abbrev pub continue : {A B : Type 0} → Outcome A → (A → Run B) → Run B
continue (ok a) f s = f a s
continue (raised e) f s = (raised e, s)

infixl 5 ◌>>=◌ ◌>>◌
unfoldable pub ◌>>=◌ : {A B : Type 0} → Run A → (A → Run B) → Run B
◌>>=◌ m f s = let (r, s') = m s in continue r f s'

abbrev pub ◌>>◌ : {B : Type 0} → Run (Unit {0}) → Run B → Run B
m >> k = m >>= λ _. k

-- a computation that calls nothing
unfoldable pub lift : {A : Type 0} → Outcome A → Run A
lift r s = (r, s)

-- reads the file system
unfoldable pub ask : {A : Type 0} → (History → A) → Run A
ask read s = (ok (read s.history), s)

-- reads the file system, or hands the recorder a sample
unfoldable pub ask_outcome : {A : Type 0} → (History → Outcome A) → Run A
ask_outcome read s = (read s.history, s)

-- makes a call, and keeps what it gave
unfoldable pub perform : {A : Type 0} → (History → Outcome A) → (Outcome A → Event) → Run A
perform call event s = let r = call s.history in (r, record s { history = event r ∷ s.history })
