-- ===== src/Supervisor/Taking.antt =====
-- `perago/supervisor.py`: the outcome of `acquire_supervisor_workspace_lock`, if it runs alone.
use perago.Base.{
  ℕ, zero, suc, ◌+◌, ◌==◌, ltb, Bool, true, false, not, Option, none, some, Text, ◌≡◌, refl, ◌∙◌,
  inl, inr, arith, ◌⊎◌, Bool-cases, if◌then◌else◌,
}
use perago.Errors.{Exception, runtime_config_error, ok, raised}
use perago.Supervisor.Lock.{
  LockContent, read_raises, invalid_json, not_an_object, int_owner, bool_owner, other_owner,
  LockFile, Root, Phase, opening, judging, holding, failed, negated, owner_is_gone, pid_is_alive,
  pid_limit, too_large, calls_alone, already_locked,
}

-- The root with a new lock file, which carries the pid.
abbrev pub locked : (pid : ℕ) → Root → Root
locked pid root = record {
  lock_file = some (record { inode = root.next_inode; content = int_owner false pid });
  next_inode = root.next_inode + 1;
}

-- Whether a number is that of a process which is gone; none that is too large for a pid is.
abbrev pub is_gone : (pid_exists : ℕ → Bool) → ℕ → Bool
is_gone pid_exists n =
    if n == 0 then true else if ltb n pid_limit then not (pid_exists n) else false

abbrev pub as_number : Bool → ℕ
as_number true = 1
as_number false = 0

-- There is no lock file, or its owner is an int of a process that is gone.
abbrev pub is_free : (pid_exists : ℕ → Bool) → Option LockFile → Bool
is_free pid_exists none = true
is_free pid_exists (some file) = content_free file.content
  where
    content_free : LockContent → Bool
    content_free (int_owner true n) = true
    content_free (int_owner false n) = is_gone pid_exists n
    content_free (bool_owner b) = is_gone pid_exists (as_number b)
    content_free content = false

-- Why the lock is not taken: what reading the file has raised, the `OverflowError` of a pid that is too
-- large, or else a `RuntimeConfigError`.
abbrev pub Refusal : LockContent → Exception → Type 0
Refusal (read_raises x) e = e ≡ x
Refusal (int_owner false n) e =
    ((ltb n pid_limit ≡ true) × (m : Text) × (e ≡ runtime_config_error m))
    ⊎ ((ltb n pid_limit ≡ false) × (e ≡ too_large))
Refusal content e = (m : Text) × (e ≡ runtime_config_error m)

-- The lock is taken, or nothing is changed and an exception is raised.
abbrev pub Settled : (pid : ℕ) (free : Bool) → Option LockFile → Root → Phase × Root → Type 0
Settled pid true file root result = result ≡ (holding, locked pid root)
Settled pid false none root result = ⊥
Settled pid false (some file) root result =
    (e : Exception) × (result ≡ (failed e, root)) × Refusal file.content e

module _ (exists : ℕ → Bool) (path : Text) (pid : ℕ) where
  holds_on :
      (calls : ℕ) (root : Root) → calls_alone exists path pid calls holding root ≡ (holding, root)
  unfolding calls_alone
  holds_on zero root = refl
  holds_on (suc calls) root = holds_on calls root

  stays_failed :
      (calls : ℕ) (e : Exception) (root : Root)
      → calls_alone exists path pid calls (failed e) root ≡ (failed e, root)
  unfolding calls_alone
  stays_failed zero e root = refl
  stays_failed (suc calls) e root = stays_failed calls e root

  same_inode : (n : ℕ) → (n == n) ≡ true
  same_inode n = ground arith

  -- from an `open` where there is no file
  taken :
      (calls next : ℕ)
      → calls_alone exists path pid
          (suc (suc calls))
          opening
          (record { lock_file = none; next_inode = next })
        ≡ (holding, locked pid (record { lock_file = none; next_inode = next }))
  unfolding calls_alone
  taken calls next = rw (same_inode next) (holds_on calls _)

  abbrev with_file : (inode : ℕ) → LockContent → (next : ℕ) → Root
  with_file inode content next = record {
    lock_file = some (record { inode = inode; content = content });
    next_inode = next;
  }

  -- The calls from `os.kill` on, by what it says of the owner.
  module _ (calls inode : ℕ) (content : LockContent) (next : ℕ) where
    abbrev from_kill : Phase × Root
    from_kill =
        calls_alone exists path pid (suc (suc (suc (suc (suc calls))))) (judging inode content)
          (with_file inode content next)

    when_gone :
        owner_is_gone exists content ≡ ok true
        → from_kill ≡ (holding, locked pid (with_file inode content next))
    unfolding calls_alone
    when_gone e = rw (e, same_inode inode) (taken calls next)

    when_there :
        owner_is_gone exists content ≡ ok false
        → from_kill ≡ (failed (already_locked path content), with_file inode content next)
    unfolding calls_alone
    when_there e = rw e (stays_failed (suc (suc (suc (suc calls)))) _ _)

    when_raised :
        (x : Exception)
        → owner_is_gone exists content ≡ raised x
        → from_kill ≡ (failed x, with_file inode content next)
    unfolding calls_alone
    when_raised x e = rw e (stays_failed (suc (suc (suc (suc calls)))) _ _)

  -- a number of a process, under either content that gives it
  numbered :
      (calls inode : ℕ) (content : LockContent) (next n : ℕ)
      → owner_is_gone exists content ≡ negated exists (pid_is_alive exists false n)
      → (ltb n pid_limit ≡ true → (m : Text) → Refusal content (runtime_config_error m))
      → (ltb n pid_limit ≡ false → Refusal content too_large)
      → Settled pid
          (is_gone exists n)
          (some (record { inode = inode; content = content }))
          (with_file inode content next)
          (from_kill calls inode content next)
  unfolding pid_is_alive
  numbered calls inode content next n e small large = elim (Bool-cases (n == 0)) [
    | inl no_pid ↦ rw no_pid (when_gone calls inode content next (e ∙ rw no_pid refl))
    | inr some_pid ↦ elim (Bool-cases (ltb n pid_limit)) [
      | inr too_big ↦
          rw (some_pid, too_big)
            (
              too_large,
              when_raised calls inode content next too_large (e ∙ rw (some_pid, too_big) refl),
              large too_big,
            )
      | inl fits ↦ elim (Bool-cases (exists n)) [
        | inl there ↦
            rw (some_pid, fits, there)
              (
                already_locked path content,
                when_there calls inode content next (e ∙ rw (some_pid, fits, there) refl),
                small fits _,
              )
        | inr gone ↦
            rw (some_pid, fits, gone)
              (when_gone calls inode content next (e ∙ rw (some_pid, fits, gone) refl))
      ]
    ]
  ]

  by_content :
      (calls inode : ℕ) (content : LockContent) (next : ℕ)
      → Settled pid
          (is_free exists (some (record { inode = inode; content = content })))
          (some (record { inode = inode; content = content }))
          (with_file inode content next)
          (calls_alone exists path pid
            (suc (suc (suc (suc (suc (suc (suc (suc calls))))))))
            opening
            (with_file inode content next))
  unfolding calls_alone pid_is_alive
  by_content calls inode (read_raises x) next =
      (x, stays_failed (suc (suc (suc (suc (suc calls))))) _ _, refl)
  by_content calls inode invalid_json next =
      (_, stays_failed (suc (suc (suc (suc (suc calls))))) _ _, (_, refl))
  by_content calls inode not_an_object next =
      (_, stays_failed (suc (suc (suc (suc (suc calls))))) _ _, (_, refl))
  by_content calls inode (other_owner shown equals) next =
      (_, stays_failed (suc (suc (suc (suc calls)))) _ _, (_, refl))
  by_content calls inode (int_owner true n) next =
      when_gone calls inode (int_owner true n) next negative
    where
      negative : owner_is_gone exists (int_owner true n) ≡ ok true
      negative = refl
  by_content calls inode (int_owner false n) next =
      numbered calls inode (int_owner false n) next n refl (λ fits m. inl (fits, m, refl))
        (λ big. inr (big, refl))
  by_content calls inode (bool_owner b) next =
      numbered calls inode (bool_owner b) next (as_number b) (same b) (λ fits m. (m, refl))
        (small b)
    where
      same :
          (b : Bool)
          → owner_is_gone exists (bool_owner b)
            ≡ negated exists (pid_is_alive exists false (as_number b))
      same true = refl
      same false = refl

      small : (b : Bool) → ltb (as_number b) pid_limit ≡ false → Refusal (bool_owner b) too_large
      small true h = cc h
      small false h = cc h

-- If no other process makes a call in between, and the file system lets the process make, stat, write
-- and unlink the file, eight system calls of an attempt to take the lock settle it. If there is no lock file, or its owner is an int of a process that is gone, the process
-- holds the lock, with a new file that carries its pid. Otherwise the root is not changed, and what
-- reading the file has raised comes through, or the `OverflowError` of an owner that is no C int, or
-- a `RuntimeConfigError` is raised.
pub acquire_lock_lem :
    (exists : ℕ → Bool) (path : Text) (pid calls : ℕ) (root : Root)
    → Settled pid (is_free exists root.lock_file) root.lock_file root (
        calls_alone exists path pid
          (suc (suc (suc (suc (suc (suc (suc (suc calls))))))))
          opening
          root)
acquire_lock_lem exists path pid calls root = settled root.lock_file root.next_inode
  where
    settled :
        (file : Option LockFile) (next : ℕ)
        → Settled pid
            (is_free exists file)
            file
            (record { lock_file = file; next_inode = next })
            (calls_alone exists path pid
              (suc (suc (suc (suc (suc (suc (suc (suc calls))))))))
              opening
              (record { lock_file = file; next_inode = next }))
    settled none next = taken exists path pid (suc (suc (suc (suc (suc (suc calls)))))) next
    settled (some file) next = by_content exists path pid calls file.inode file.content next
