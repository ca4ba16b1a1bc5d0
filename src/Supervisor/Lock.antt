-- ===== src/Supervisor/Lock.antt =====
-- `perago/supervisor.py`: the lock file of a workspace root, one system call at a time, so that the
-- calls of several processes can interleave. The file system lets the code make the directory, stat
-- and unlink the file, and open and write a new one; no inode is used twice.
use perago.Base.{
  ℕ, zero, suc, ◌+◌, ◌==◌, ltb, Bool, true, false, [], ◌&&◌, not, Option, none, some, Text, text,
  ◌++◌, decimal, if◌then◌else◌,
}
use perago.Errors.{Exception, runtime_config_error, os_error, other_error, Outcome, ok, raised}
use perago.Config.Environment.{config_error}

-- What reading the lock file gives: an exception that is no `JSONDecodeError` (an `OSError`, or a
-- `ValueError` of a text that is no UTF-8 or of an endless number), or what `json.loads` makes of it,
-- and of the `supervisor_pid` in it: an `int` with its sign (true for a negative one), a `bool`, or
-- another value, with the natural number that it equals, if any.
pub data LockContent : Type 0 where
  read_raises : Exception → LockContent
  invalid_json not_an_object : LockContent
  int_owner : Bool → ℕ → LockContent
  bool_owner : Bool → LockContent
  other_owner : (shown : Text) → Option ℕ → LockContent

-- `inode` stands for the device and the inode that `stat` tells.
pub record LockFile : Type 0 where
  pub inode : ℕ
  pub content : LockContent

-- The root directory: its lock file, and the inode of the next file.
pub record Root : Type 0 where
  pub lock_file : Option LockFile
  pub next_inode : ℕ

-- What a process is at: nothing; the system calls of `acquire_supervisor_workspace_lock`, `open`,
-- `stat`, `read_text`, `os.kill`, the `stat` and the `unlink` of
-- `_unlink_supervisor_workspace_lock_if_same`, and the write of the pid; that it holds the lock; the
-- calls of `release`, `read_text` and `unlink`; or that one of the two has raised.
pub data Phase : Type 0 where
  idle opening statting : Phase
  reading : (inode : ℕ) → Phase
  judging : (inode : ℕ) → LockContent → Phase
  comparing : (inode : ℕ) → Phase
  unlinking : Phase
  writing : (inode : ℕ) → Phase
  holding checking removing : Phase
  failed : Exception → Phase

-- a C int
abbrev pub pid_limit : ℕ
pid_limit = 2147483648

abbrev pub too_large : Exception
too_large = other_error (text "signed integer is greater than maximum")

module _ (pid_exists : ℕ → Bool) where
  -- `_pid_is_alive` of an int; `os.kill` takes no number that is too large
  unfoldable pub pid_is_alive : Bool → ℕ → Outcome Bool
  pid_is_alive true n = ok false
  pid_is_alive false n =
      if n == 0 then ok false else if ltb n pid_limit then ok (pid_exists n) else raised too_large

  abbrev pub negated : Outcome Bool → Outcome Bool
  negated (ok b) = ok (not b)
  negated (raised e) = raised e

  -- `isinstance(owner_pid, int) and not _pid_is_alive(owner_pid)`
  abbrev pub owner_is_gone : LockContent → Outcome Bool
  owner_is_gone (int_owner sign n) = negated (pid_is_alive sign n)
  owner_is_gone (bool_owner b) = negated (pid_is_alive false (if b then 1 else 0))
  owner_is_gone content = ok false

-- `str(owner_pid)`
abbrev pub shown_owner : LockContent → Text
shown_owner (int_owner true n) = text "-" ++ decimal n
shown_owner (int_owner false n) = decimal n
shown_owner (bool_owner true) = text "True"
shown_owner (bool_owner false) = text "False"
shown_owner (other_owner shown _) = shown
shown_owner content = []

-- `_read_supervisor_workspace_lock` of a file that is there
abbrev pub read_lock : (path : Text) → LockContent → Outcome LockContent
read_lock path (read_raises e) = raised e
read_lock path invalid_json = config_error (
    text "workspace root lock "
    ++ path
    ++ text " is not valid JSON; remove it only if no supervisor is using this root")
read_lock path not_an_object =
    config_error (text "workspace root lock " ++ path ++ text " must contain an object")
read_lock path content = ok content

abbrev pub already_locked : (root_path : Text) → LockContent → Exception
already_locked root_path content = runtime_config_error (
    text "workspace root "
    ++ root_path
    ++ text " is already locked by supervisor pid "
    ++ shown_owner content
    ++ text "; use a different PERAGO_WORKSPACE_ROOT for each supervisor")

abbrev pub lock_path : (root_path : Text) → Text
lock_path root_path = root_path ++ text "/.perago-supervisor.lock"

-- whether `data.get("supervisor_pid") == pid`
abbrev pub is_owner : (pid : ℕ) → LockContent → Bool
is_owner pid (int_owner true n) = n == 0 && pid == 0
is_owner pid (int_owner false n) = n == pid
is_owner pid (bool_owner b) = (if b then 1 else 0) == pid
is_owner pid (other_owner _ (some n)) = n == pid
is_owner pid content = false

-- the file that `os.open` makes with `O_CREAT | O_EXCL`: it is empty, which is no JSON
abbrev pub create_file : Root → Root
create_file root = record {
  lock_file = some (record { inode = root.next_inode; content = invalid_json });
  next_inode = root.next_inode + 1;
}

-- the write to the file that was opened, which may have been unlinked
abbrev pub write_file : (pid inode : ℕ) → Option LockFile → Root → Root
write_file pid inode none root = root
write_file pid inode (some file) root =
    if file.inode == inode
    then record root { lock_file = some (record file { content = int_owner false pid }) }
    else root

abbrev pub unlink_file : Root → Root
unlink_file root = record root { lock_file = none }

module _ (pid_exists : ℕ → Bool) (root_path : Text) (pid : ℕ) where
  abbrev pub open_lock : Option LockFile → Root → Phase × Root
  open_lock none root = (writing root.next_inode, create_file root)
  open_lock (some file) root = (statting, root)

  abbrev pub stat_lock : Option LockFile → Phase
  stat_lock none = opening
  stat_lock (some file) = reading file.inode

  abbrev pub content_read : (inode : ℕ) → Outcome LockContent → Phase
  content_read inode (ok content) = judging inode content
  content_read inode (raised e) = failed e

  abbrev pub read_owner : (inode : ℕ) → Option LockFile → Phase
  read_owner inode none = opening
  read_owner inode (some file) = content_read inode (read_lock (lock_path root_path) file.content)

  abbrev pub judged : (inode : ℕ) → LockContent → (is_gone : Outcome Bool) → Phase
  judged inode content (ok true) = comparing inode
  judged inode content (ok false) = failed (already_locked root_path content)
  judged inode content (raised e) = failed e

  -- the comparison of `_unlink_supervisor_workspace_lock_if_same`
  abbrev pub compare_lock : (inode : ℕ) → Option LockFile → Phase
  compare_lock inode none = opening
  compare_lock inode (some file) = if file.inode == inode then unlinking else opening

  -- `except (OSError, RuntimeConfigError)`
  abbrev pub is_ignored : Exception → Bool
  is_ignored (os_error m) = true
  is_ignored (runtime_config_error m) = true
  is_ignored e = false

  abbrev pub own_read : Outcome LockContent → Phase
  own_read (ok content) = if is_owner pid content then removing else idle
  own_read (raised e) = if is_ignored e then idle else failed e

  -- the read of `SupervisorWorkspaceLock.release`
  abbrev pub check_own : Option LockFile → Phase
  check_own none = idle
  check_own (some file) = own_read (read_lock (lock_path root_path) file.content)

  -- The next system call of the process; one that is idle, holds the lock or has failed makes none.
  unfoldable pub next_call : Phase → Root → Phase × Root
  unfolding pid_is_alive
  next_call opening root = open_lock root.lock_file root
  next_call statting root = (stat_lock root.lock_file, root)
  next_call (reading inode) root = (read_owner inode root.lock_file, root)
  next_call (judging inode content) root =
      (judged inode content (owner_is_gone pid_exists content), root)
  next_call (comparing inode) root = (compare_lock inode root.lock_file, root)
  next_call unlinking root = (opening, unlink_file root)
  next_call (writing inode) root = (holding, write_file pid inode root.lock_file root)
  next_call checking root = (check_own root.lock_file, root)
  next_call removing root = (idle, unlink_file root)
  next_call idle root = (idle, root)
  next_call holding root = (holding, root)
  next_call (failed e) root = (failed e, root)

  -- that many calls, with no other process in between
  unfoldable pub calls_alone : (calls : ℕ) → Phase → Root → Phase × Root
  unfolding next_call
  calls_alone zero phase root = (phase, root)
  calls_alone (suc calls) phase root =
      let after = next_call phase root in calls_alone calls after.0 after.1
