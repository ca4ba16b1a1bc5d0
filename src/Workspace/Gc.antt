-- ===== src/Workspace/Gc.antt =====
-- `perago/workspace/gc.py`: which attempt workspaces are removed. Times are seconds from a fixed
-- moment, and `ttl` is not negative.
pub mod Removes
use perago.Base.{
  ℕ, ◌+◌, ◌==◌, ltb, Bool, true, false, not, ◌&&◌, ◌||◌, Text, text, text_eq, text_in, List, [],
  ◌∷◌, ◌++◌, Option, none, some, is_empty, if◌then◌else◌, any,
}
use perago.Errors.{value_error, Exception, Outcome, ok, raised, ◌>>=◌, ◌>>◌}
use perago.Value.{Value, none_value, str, bool, int, float, dict, list, other, Fields}
use perago.Models.{field_value, same_bool}

-- `(owner_worker_id, owner_pid)`; a pid is a sign and a magnitude.
pub record ProcessOwner : Type 0 where
  pub worker_id : Text
  pub negative : Bool
  pub pid : ℕ

pub record MarkerData : Type 0 where
  pub owner : ProcessOwner
  pub owner_token : Text
  pub execution_id : Text
  pub started_at : ℕ

-- What the reading of a marker gives: an `OSError` or a `JSONDecodeError`, another exception, such as
-- a `UnicodeDecodeError`, or JSON.
pub data MarkerFile : Type 0 where
  unreadable : MarkerFile
  read_raises : Exception → MarkerFile
  json : Value → MarkerFile

-- A marker that `rglob` finds: the directory that it stands in, whether that is inside of the root,
-- and what reading it gives, where no workspace lies inside of another that is removed before.
pub record Found : Type 0 where
  pub directory : Text
  pub inside : Bool
  pub content : MarkerFile

abbrev pub non_empty_text : Option Value → Option Text
non_empty_text (some (str t)) = if is_empty t then none else some t
non_empty_text _ = none

abbrev pub any_text : Option Value → Option Text
any_text (some (str t)) = some t
any_text _ = none

-- `isinstance(owner_pid, int)`, which holds of a `bool` too
abbrev pub as_int : Option Value → Option (Bool × ℕ)
as_int (some (int negative n)) = some (negative, n)
as_int (some (bool true)) = some (false, 1)
as_int (some (bool false)) = some (false, 0)
as_int _ = none

abbrev pub then_ {ℓ} : {A B : Type ℓ} → Option A → (A → Option B) → Option B
then_ none f = none
then_ (some a) f = f a

abbrev pub marker_fields : (Text → Option ℕ) → Fields → Option MarkerData
marker_fields parse fs =
    then_ (non_empty_text (field_value (text "owner_worker_id") fs)) λ worker_id.
      then_ (as_int (field_value (text "owner_pid") fs)) λ pid.
        then_ (non_empty_text (field_value (text "owner_token") fs)) λ token.
          then_ (non_empty_text (field_value (text "execution_id") fs)) λ execution_id.
            then_ (any_text (field_value (text "started_at") fs)) λ started_at.
              then_ (parse started_at) λ time. some (record {
                owner = record { worker_id = worker_id; negative = pid.0; pid = pid.1 };
                owner_token = token;
                execution_id = execution_id;
                started_at = time;
              })

-- `_read_gc_marker`; `parse` is `datetime.fromisoformat`, with UTC where no zone is given.
unfoldable pub read_gc_marker : (Text → Option ℕ) → MarkerFile → Outcome (Option MarkerData)
unfolding field_value
read_gc_marker parse (json (dict fs)) = ok (marker_fields parse fs)
read_gc_marker parse (json value) = ok none
read_gc_marker parse unreadable = ok none
read_gc_marker parse (read_raises e) = raised e

abbrev pub same_owner : ProcessOwner → ProcessOwner → Bool
same_owner a b =
    text_eq a.worker_id b.worker_id && same_bool a.negative b.negative && a.pid == b.pid

abbrev pub is_target : Option ProcessOwner → ProcessOwner → Bool
is_target none owner = true
is_target (some target) owner = same_owner owner target

-- What one collection is given.
pub record Collection : Type 0 where
  pub ttl : ℕ
  pub active_process_owners : List ProcessOwner
  pub active_owner_tokens : List Text
  pub target_process_owner : Option ProcessOwner
  pub now : ℕ

-- The four `continue`s: whether none of them is taken.
abbrev pub is_abandoned : Collection → MarkerData → Bool
is_abandoned c marker =
    is_target c.target_process_owner marker.owner
    && not (any (same_owner marker.owner) c.active_process_owners)
    && not (text_in marker.owner_token c.active_owner_tokens)
    && not (ltb c.now (marker.started_at + c.ttl))

-- What a collection returns or raises, with all directories that `rmtree` was called on, in order.
abbrev pub Collected : Type 0
Collected = Outcome (List Text) × List Text

-- `removed.append(workspace_dir)`, seen from the end of the loop
abbrev pub appended : (directory : Text) → Collected → Collected
appended directory (ok removed, calls) = (ok (directory ∷ removed), calls)
appended directory (raised e, calls) = (raised e, calls)

abbrev pub after_removal :
    (directory : Text)
    → Outcome (Unit {0})
    → (calls : List Text) → (later : List Text → Collected) → Collected
after_removal directory (ok u) calls later = appended directory (later calls)
after_removal directory (raised e) calls later = (raised e, calls)

abbrev pub require_inside : Bool → (calls : List Text) → Collected → Collected
require_inside true calls later = later
require_inside false calls later =
    (raised (value_error (text "path is not in the subpath of the workspace root")), calls)

-- `rmtree` is given the calls before it, which have changed the file system; `later` is the rest of
-- the loop, behind the calls that it is given.
module _ (c : Collection) (parse : Text → Option ℕ)
    (rmtree : (calls : List Text) → Text → Outcome (Unit {0})) where
  abbrev pub remove_if :
      Bool → Text → (calls : List Text) → (later : List Text → Collected) → Collected
  remove_if false directory calls later = later calls
  remove_if true directory calls later =
      after_removal directory (rmtree calls directory) (calls ++ directory ∷ []) later

  abbrev pub collect_marker :
      Text
      → Outcome (Option MarkerData)
      → (calls : List Text) → (later : List Text → Collected) → Collected
  collect_marker directory (raised e) calls later = (raised e, calls)
  collect_marker directory (ok none) calls later = later calls
  collect_marker directory (ok (some marker)) calls later =
      remove_if (is_abandoned c marker) directory calls later

  unfoldable pub garbage_collect_attempt_workspaces : List Found → (calls : List Text) → Collected
  unfolding read_gc_marker text_in
  garbage_collect_attempt_workspaces [] calls = (ok [], calls)
  garbage_collect_attempt_workspaces (f ∷ rest) calls = require_inside f.inside calls (
      collect_marker f.directory (read_gc_marker parse f.content) calls
        (λ now. garbage_collect_attempt_workspaces rest now))
