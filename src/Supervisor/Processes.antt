-- ===== src/Supervisor/Processes.antt =====
-- `perago/supervisor.py`: processes that take and release the lock of one workspace root, whose system
-- calls interleave, and what holds of them while no holder is killed.
use perago.Base.{
  ℕ, ◌==◌, ◌<◌, ltb, Bool, true, false, some, Text, ◌≡◌, ◌≢◌, inl, inr, arith, if◌then◌else◌,
  Bool-cases,
}
use perago.Supervisor.Lock.{
  LockContent, invalid_json, int_owner, LockFile, Root, Phase, idle, opening, reading, judging,
  comparing, unlinking, writing, holding, checking, removing, pid_limit, next_call,
}

-- The processes that exist, and what each of them is at.
pub record World : Type 0 where
  pub root : Root
  pub exists : ℕ → Bool
  pub phase : ℕ → Phase

abbrev pub set_to {ℓ} : {A : Type ℓ} → (pid : ℕ) → A → (ℕ → A) → ℕ → A
set_to pid a f p = if p == pid then a else f p

-- The lock file is that of the process: from its creation to the end of its release.
abbrev pub owns : Phase → Bool
owns (writing inode) = true
owns holding = true
owns checking = true
owns removing = true
owns phase = false

abbrev pub at_phase : World → (pid : ℕ) → Phase → World
at_phase w pid phase = record w { phase = set_to pid phase w.phase }

-- What may happen. A process makes one system call at a time, and no process dies while it has the
-- lock file.
pub data Step (root_path : Text) (w : World) : World → Type 0 where
  spawned :
      (pid : ℕ)
      → (pid == 0) ≡ false
      → ltb pid pid_limit ≡ true
      → w.exists pid ≡ false
      → Step root_path w (at_phase (record w { exists = set_to pid true w.exists }) pid idle)
  died :
      (pid : ℕ)
      → owns (w.phase pid) ≡ false
      → Step root_path w (at_phase (record w { exists = set_to pid false w.exists }) pid idle)
  acquires :
      (pid : ℕ)
      → w.exists pid ≡ true
      → w.phase pid ≡ idle
      → Step root_path w (at_phase w pid opening)
  releases :
      (pid : ℕ)
      → w.exists pid ≡ true
      → w.phase pid ≡ holding
      → Step root_path w (at_phase w pid checking)
  calls :
      (pid : ℕ)
      → w.exists pid ≡ true
      → Step root_path w
          (record (at_phase w pid (next_call w.exists root_path pid (w.phase pid) w.root).0) {
            root = (next_call w.exists root_path pid (w.phase pid) w.root).1;
          })

pub data Reachable (root_path : Text) (w : World) : World → Type 0 where
  at_start : Reachable root_path w w
  after : {u v : World} → Reachable root_path w u → Step root_path u v → Reachable root_path w v

abbrev pub content_of : (pid : ℕ) → Phase → LockContent
content_of pid (writing inode) = invalid_json
content_of pid phase = int_owner false pid

abbrev pub IsAt : Phase → (inode : ℕ) → Type 0
IsAt (writing i) inode = i ≡ inode
IsAt phase inode = Unit {0}

abbrev pub Carries : Root → (pid : ℕ) → Phase → Type 0
Carries root pid phase =
    (inode : ℕ) × (root.lock_file ≡ some (record { inode = inode; content = content_of pid phase }))
    × IsAt phase inode

-- What a process that does not own the file knows of it.
abbrev pub Waits : Root → Phase → Type 0
Waits root (reading i) = i < root.next_inode
Waits root (judging i c) =
    (i < root.next_inode)
    × ((p : ℕ) × (c ≡ int_owner false p))
    × ((f : LockFile) → root.lock_file ≡ some f → f.inode ≡ i → f.content ≡ c)
Waits root (comparing i) =
    (i < root.next_inode) × ((f : LockFile) → root.lock_file ≡ some f → f.inode ≢ i)
Waits root unlinking = ⊥
Waits root phase = Unit {0}

pub record Sound (w : World) : Type 0 where
  pub pids : (p : ℕ) → w.exists p ≡ true → ((p == 0) ≡ false) × (ltb p pid_limit ≡ true)
  pub alive : (p : ℕ) → owns (w.phase p) ≡ true → w.exists p ≡ true
  pub one : (p q : ℕ) → owns (w.phase p) ≡ true → owns (w.phase q) ≡ true → p ≡ q
  pub carries : (p : ℕ) → owns (w.phase p) ≡ true → Carries w.root p (w.phase p)
  pub owned : (f : LockFile) → w.root.lock_file ≡ some f → (p : ℕ) × (owns (w.phase p) ≡ true)
  pub fresh : (f : LockFile) → w.root.lock_file ≡ some f → f.inode < w.root.next_inode
  pub waits : (p : ℕ) → Waits w.root (w.phase p)

pub same_pid : (p q : ℕ) → (p == q) ≡ true → p ≡ q
same_pid p q h = ground arith

pub pid_itself : (p : ℕ) → (p == p) ≡ true
pid_itself p = ground arith

-- who owns the file behind a change to a phase that does not
pub owner_before :
    (p r : ℕ) (ph : Phase) (f : ℕ → Phase)
    → owns ph ≡ false
    → owns (set_to r ph f p) ≡ true
    → ((p == r) ≡ false) × (owns (f p) ≡ true)
owner_before p r ph f off h = elim (Bool-cases (p == r)) [
  | inl same ↦ cc (rw same at h, off)
  | inr other ↦ (other, rw other at h)
]

pub not_it : (p r : ℕ) (f : ℕ → Phase) → owns (f r) ≡ false → owns (f p) ≡ true → (p == r) ≡ false
not_it p r f off h = elim (Bool-cases (p == r)) [
  | inl same ↦ cc (h, off, same_pid p r same)
  | inr other ↦ other
]

-- A process that does not own the file goes on, or others come and go; the root is as it was.
pub quiet-Sound :
    (w : World) (r : ℕ) (ph : Phase) (exists : ℕ → Bool)
    → owns (w.phase r) ≡ false
    → owns ph ≡ false
    → Waits w.root ph
    → ((p : ℕ) → exists p ≡ true → ((p == 0) ≡ false) × (ltb p pid_limit ≡ true))
    → ((p : ℕ) → (p == r) ≡ false → w.exists p ≡ true → exists p ≡ true)
    → Sound w
    → Sound (at_phase (record w { exists = exists }) r ph)
quiet-Sound w r ph exists was off known good kept s = record {
  pids = good;
  alive =
      λ p h. let (other, old) = owner_before p r ph w.phase off h in kept p other (s.alive p old);
  one = λ p q h k.
      s.one p q (owner_before p r ph w.phase off h).1 (owner_before q r ph w.phase off k).1;
  carries =
      λ p h. let (other, old) = owner_before p r ph w.phase off h in rw other (s.carries p old);
  owned = λ f e.
      let (p, old) = s.owned f e in let other = not_it p r w.phase was old in (p, rw other old);
  fresh = s.fresh;
  waits = λ p. elim (Bool-cases (p == r)) [
    | inl same ↦ rw same known
    | inr other ↦ rw other (s.waits p)
  ];
}
