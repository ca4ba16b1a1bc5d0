-- ===== src/Supervisor/Changes.antt =====
-- `perago/supervisor.py`: what the calls that change the lock file keep.
use perago.Base.{
  ℕ, ◌==◌, ◌<◌, true, false, none, some, ◌≡◌, refl, sym, ap, ◌∙◌, ◌⊎◌, inl, inr, arith, Bool-cases,
}
use perago.Errors.{ok}
use perago.Supervisor.Lock.{
  invalid_json, int_owner, LockFile, Root, Phase, idle, opening, statting, reading, judging,
  comparing, unlinking, writing, holding, checking, removing, failed, create_file, unlink_file,
  owner_is_gone, pid_is_alive,
}
use perago.Supervisor.Processes.{
  World, set_to, owns, at_phase, content_of, Carries, Waits, Sound, same_pid, pid_itself,
  owner_before, quiet-Sound,
}

-- the phase of one process, and the root, after a call
abbrev pub moved : World → (pid : ℕ) → Phase × Root → World
moved w pid r = record (at_phase w pid r.0) { root = r.1 }

pub some-eq : {a b : LockFile} → some a ≡ some b → a ≡ b
some-eq e = cc

-- A process that does not own the file, and does not change the root, goes on.
pub goes_on :
    (w : World) (r : ℕ) (ph : Phase)
    → owns (w.phase r) ≡ false
    → owns ph ≡ false
    → Waits w.root ph
    → Sound w
    → Sound (moved w r (ph, w.root))
goes_on w r ph was off known s = quiet-Sound w r ph w.exists was off known s.pids (λ p other h. h) s

-- The owner of the file goes on with it.
pub keeps :
    (w : World) (r : ℕ) (ph : Phase)
    → owns (w.phase r) ≡ true
    → owns ph ≡ true
    → Carries w.root r ph
    → Waits w.root ph
    → Sound w
    → Sound (moved w r (ph, w.root))
keeps w r ph was on mine known s = record {
  pids = s.pids;
  alive = λ p h. s.alive p (owner p h);
  one = λ p q h k. s.one p q (owner p h) (owner q k);
  carries = λ p h. elim (Bool-cases (p == r)) [
    | inl same ↦ let e : p ≡ r = same_pid p r same in rw (e, pid_itself r) mine
    | inr other ↦ rw other (s.carries p (rw other at h))
  ];
  owned = λ f e. (r, rw (pid_itself r) on);
  fresh = s.fresh;
  waits = λ p. elim (Bool-cases (p == r)) [
    | inl same ↦ rw same known
    | inr other ↦ rw other (s.waits p)
  ];
}
  where
    owner : (p : ℕ) → owns (set_to r ph w.phase p) ≡ true → owns (w.phase p) ≡ true
    owner p h = elim (Bool-cases (p == r)) [
      | inl same ↦ let e : p ≡ r = same_pid p r same in rw e was
      | inr other ↦ rw other at h
    ]

Waits-create :
    (root : Root) (ph : Phase) → root.lock_file ≡ none → Waits root ph → Waits (create_file root) ph
Waits-create root (reading i) e k = omega (arith, k)
Waits-create root (judging i c) e (below, int, same) =
    (omega (arith, below), int, λ f g h. absurd (new f g h))
  where
    new : (f : LockFile) → (create_file root).lock_file ≡ some f → f.inode ≡ i → ⊥
    new f g h =
        let inode : root.next_inode ≡ f.inode = ap (λ (x : LockFile). x.inode) (some-eq g) in
        omega (arith, below, inode, h)
Waits-create root (comparing i) e (below, other) = (omega (arith, below), λ f g h. new f g h)
  where
    new : (f : LockFile) → (create_file root).lock_file ≡ some f → f.inode ≡ i → ⊥
    new f g h =
        let inode : root.next_inode ≡ f.inode = ap (λ (x : LockFile). x.inode) (some-eq g) in
        omega (arith, below, inode, h)
Waits-create root unlinking e k = k
Waits-create root idle e k = tt
Waits-create root opening e k = tt
Waits-create root statting e k = tt
Waits-create root (writing i) e k = tt
Waits-create root holding e k = tt
Waits-create root checking e k = tt
Waits-create root removing e k = tt
Waits-create root (failed x) e k = tt

-- A process makes the lock file, where there is none.
pub creates :
    (w : World) (r : ℕ)
    → w.root.lock_file ≡ none
    → w.exists r ≡ true
    → Sound w
    → Sound (moved w r (writing w.root.next_inode, create_file w.root))
creates w r free there s = record {
  pids = s.pids;
  alive = λ p h. let e : p ≡ r = it p h in rw e there;
  one = λ p q h k. it p h ∙ sym (it q k);
  carries = λ p h. let e : p ≡ r = it p h in rw (e, pid_itself r) (w.root.next_inode, refl, refl);
  owned = λ f e. (r, rw (pid_itself r) refl);
  fresh = λ f e.
      let inode : w.root.next_inode ≡ f.inode = ap (λ (x : LockFile). x.inode) (some-eq e) in
      omega (arith, inode);
  waits = λ p. elim (Bool-cases (p == r)) [
    | inl same ↦ rw same tt
    | inr other ↦ rw other (Waits-create w.root (w.phase p) free (s.waits p))
  ];
}
  where
    it : (p : ℕ) → owns (set_to r (writing w.root.next_inode) w.phase p) ≡ true → p ≡ r
    it p h = elim (Bool-cases (p == r)) [
      | inl same ↦ same_pid p r same
      | inr other ↦ let (i, e, k) = s.carries p (rw other at h) in cc (e, free)
    ]

abbrev pub written : (pid inode : ℕ) → Root → Root
written pid inode root = record root {
  lock_file = some (record { inode = inode; content = int_owner false pid });
}

-- Nobody has read a file that is still empty.
Waits-write :
    (root : Root) (pid inode : ℕ) (ph : Phase)
    → root.lock_file ≡ some (record { inode = inode; content = invalid_json })
    → Waits root ph
    → Waits (written pid inode root) ph
Waits-write root pid inode (reading i) e k = k
Waits-write root pid inode (judging i c) e (below, (p, int), same) =
    (below, (p, int), λ f g h. absurd (empty f g h))
  where
    empty : (f : LockFile) → (written pid inode root).lock_file ≡ some f → f.inode ≡ i → ⊥
    empty f g h =
        let here : inode ≡ f.inode = ap (λ (x : LockFile). x.inode) (some-eq g) in
        let unread : invalid_json ≡ c = same _ e (here ∙ h) in cc (unread, int)
Waits-write root pid inode (comparing i) e (below, other) = (
  below,
  λ f g h.
      let here : inode ≡ f.inode = ap (λ (x : LockFile). x.inode) (some-eq g) in
      other _ e (here ∙ h),
)
Waits-write root pid inode unlinking e k = k
Waits-write root pid inode idle e k = tt
Waits-write root pid inode opening e k = tt
Waits-write root pid inode statting e k = tt
Waits-write root pid inode (writing i) e k = tt
Waits-write root pid inode holding e k = tt
Waits-write root pid inode checking e k = tt
Waits-write root pid inode removing e k = tt
Waits-write root pid inode (failed x) e k = tt

-- The owner writes its pid into the file.
pub writes :
    (w : World) (r inode : ℕ)
    → owns (w.phase r) ≡ true
    → w.root.lock_file ≡ some (record { inode = inode; content = invalid_json })
    → Sound w
    → Sound (moved w r (holding, written r inode w.root))
writes w r inode was empty s = record {
  pids = s.pids;
  alive = λ p h. let e : p ≡ r = it p h in rw e (s.alive r was);
  one = λ p q h k. it p h ∙ sym (it q k);
  carries = λ p h. let e : p ≡ r = it p h in rw (e, pid_itself r) (inode, refl, tt);
  owned = λ f e. (r, rw (pid_itself r) refl);
  fresh = λ f e.
      let here : inode ≡ f.inode = ap (λ (x : LockFile). x.inode) (some-eq e) in
      let below : inode < w.root.next_inode = s.fresh _ empty in omega (arith, here, below);
  waits = λ p. elim (Bool-cases (p == r)) [
    | inl same ↦ rw same tt
    | inr other ↦ rw other (Waits-write w.root r inode (w.phase p) empty (s.waits p))
  ];
}
  where
    it : (p : ℕ) → owns (set_to r holding w.phase p) ≡ true → p ≡ r
    it p h = elim (Bool-cases (p == r)) [
      | inl same ↦ same_pid p r same
      | inr other ↦ s.one p r (rw other at h) was
    ]

Waits-unlink : (root : Root) (ph : Phase) → Waits root ph → Waits (unlink_file root) ph
Waits-unlink root (reading i) k = k
Waits-unlink root (judging i c) (below, int, same) = (below, int, λ f g h. cc g)
Waits-unlink root (comparing i) (below, other) = (below, λ f g h. cc g)
Waits-unlink root unlinking k = k
Waits-unlink root idle k = tt
Waits-unlink root opening k = tt
Waits-unlink root statting k = tt
Waits-unlink root (writing i) k = tt
Waits-unlink root holding k = tt
Waits-unlink root checking k = tt
Waits-unlink root removing k = tt
Waits-unlink root (failed x) k = tt

-- The owner unlinks the file.
pub unlinks :
    (w : World) (r : ℕ)
    → owns (w.phase r) ≡ true
    → Sound w
    → Sound (moved w r (idle, unlink_file w.root))
unlinks w r was s = record {
  pids = s.pids;
  alive = λ p h. absurd (nobody p h);
  one = λ p q h k. absurd (nobody p h);
  carries = λ p h. absurd (nobody p h);
  owned = λ f e. cc e;
  fresh = λ f e. cc e;
  waits = λ p. elim (Bool-cases (p == r)) [
    | inl same ↦ rw same tt
    | inr other ↦ rw other (Waits-unlink w.root (w.phase p) (s.waits p))
  ];
}
  where
    nobody : (p : ℕ) → owns (set_to r idle w.phase p) ≡ true → ⊥
    nobody p h =
        let (other, old) = owner_before p r idle w.phase refl h in
        let e : p ≡ r = s.one p r old was in cc (rw (e, pid_itself r) at other)

content_cases :
    (p : ℕ) (ph : Phase) → (content_of p ph ≡ invalid_json) ⊎ (content_of p ph ≡ int_owner false p)
content_cases p (writing i) = inl refl
content_cases p idle = inr refl
content_cases p opening = inr refl
content_cases p statting = inr refl
content_cases p (reading i) = inr refl
content_cases p (judging i c) = inr refl
content_cases p (comparing i) = inr refl
content_cases p unlinking = inr refl
content_cases p holding = inr refl
content_cases p checking = inr refl
content_cases p removing = inr refl
content_cases p (failed e) = inr refl

-- The lock file is empty, or carries the pid of a process that exists.
pub file_cases :
    (w : World) (f : LockFile)
    → Sound w
    → w.root.lock_file ≡ some f
    → (f.content ≡ invalid_json) ⊎ ((p : ℕ) × (f.content ≡ int_owner false p) × (w.exists p ≡ true))
file_cases w f s e =
    let (p, own) = s.owned f e in
    let (i, at_i, _) = s.carries p own in
    let content : content_of p (w.phase p) ≡ f.content =
      ap (λ (x : LockFile). x.content) (some-eq (sym at_i ∙ e)) in
    elim (content_cases p (w.phase p)) [
      | inl empty ↦ inl (sym content ∙ empty)
      | inr full ↦ inr (p, sym content ∙ full, s.alive p own)
    ]

-- A process that exists is not taken for gone.
pub not_gone :
    (w : World) (p : ℕ)
    → Sound w
    → w.exists p ≡ true
    → owner_is_gone w.exists (int_owner false p) ≡ ok false
unfolding pid_is_alive
not_gone w p s there = let (pid, fits) = s.pids p there in rw (pid, fits, there) refl
