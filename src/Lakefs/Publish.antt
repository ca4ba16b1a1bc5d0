-- ===== src/Lakefs/Publish.antt =====
-- When a publication or a completion without a change goes through, and what it leaves at the head
-- of the target branch.
use perago.Base.{
  ℕ, true, false, Text, text, text_eq, text_eq_sound, text_eq_iff, text_eq_refl, ◌≡◌, ◌≢◌, refl,
  sym, ap, ◌∙◌, [], ◌∷◌, Option, none, some, Bool-cases, ◌⊎◌, inl, inr,
}
use perago.Errors.{Exception, Outcome, ok, raised}
use perago.Models.{WorkspaceRef, PublishBudget}
use perago.Execution.Calls.{StagedWorkspace}
use perago.Lakefs.Client.{parent_text, Commit, Call, lift, Service, >>=-eq-ok}
use perago.Lakefs.{
  first_parent_id, is_ref, cannot, merge_timeout, at_head, merge_staged_workspace,
  hard_reset_target_to_ref, publish_workspace, complete_noop_workspace,
}

-- What LakeFS documents of branches: reading the head changes nothing, a squash merge puts a
-- commit on top of the target's head, and a hard reset makes the given commit the head.
pub record Branches {S : Type 0} (lakefs : Service S) : Type 0 where
  pub head : S → (repository branch : Text) → Commit
  pub commit_at : S → (repository id : Text) → Commit
  pub read_head :
      (repository branch : Text) (s : S) {c : Commit} {s' : S}
      → lakefs.get_commit repository branch s ≡ (ok c, s')
      → (c ≡ head s repository branch) × (s' ≡ s)
  pub merged :
      (repository source target : Text) (timeout : Option ℕ) (s : S) {id : Text} {s' : S}
      → lakefs.merge_into repository source target timeout s ≡ (ok id, s')
      → head s' repository target
        ≡ record { id = id; parents = some (parent_text (head s repository target).id ∷ []) }
  pub reset :
      (repository branch ref : Text) (timeout : Option ℕ) (s : S) {u : Unit {0}} {s' : S}
      → lakefs.hard_reset_branch repository branch ref timeout s ≡ (ok u, s')
      → (head s' repository branch ≡ commit_at s repository ref)
  pub commit_at_id : (s : S) (repository id : Text) → (commit_at s repository id).id ≡ id

is_ref_sound : (p : Option Text) (ref : Text) → is_ref p ref ≡ true → p ≡ some ref
is_ref_sound none ref h = cc
is_ref_sound (some id) ref h = ap some (text_eq_sound id ref h)

is_ref_refl : (p : Option Text) (ref : Text) → p ≡ some ref → is_ref p ref ≡ true
is_ref_refl p ref h = rw h (text_eq_refl ref)

returned-eq :
    {S : Type 0} {a b : Text} {s t : S}
    → ◌≡◌ {A = Outcome Text × S} (ok a, s) (ok b, t)
    → (a ≡ b) × (s ≡ t)
returned-eq {S = S} h = (cc h, ap (λ (p : Outcome Text × S). p.1) h)

module _ {S : Type 0} (lakefs : Service S) (budget : Option PublishBudget)
    (branches : Branches lakefs) where
  -- which of the three things is done
  pub data Chosen (c : Commit) (ref : Text) (r first second fenced : Outcome Text × S)
      : Type 0 where
    at_ref : c.id ≡ ref → r ≡ first → Chosen c ref r first second fenced
    above_ref :
        c.id ≢ ref → first_parent_id c ≡ some ref → r ≡ second → Chosen c ref r first second fenced
    elsewhere :
        c.id ≢ ref → first_parent_id c ≢ some ref → r ≡ fenced → Chosen c ref r first second fenced

  at_head-Chosen :
      (c : Commit) (ref : Text) (first second : Call S Text) (e : Exception) (s : S)
      → Chosen c ref
          (at_head lakefs budget
            (text_eq c.id ref)
            (is_ref (first_parent_id c) ref)
            first
            second
            e
            s)
          (first s)
          (second s)
          (raised e, s)
  at_head-Chosen c ref first second e s = elim (Bool-cases (text_eq c.id ref)) [
    | inl same ↦ at_ref (text_eq_sound c.id ref same) (rw same refl)
    | inr different ↦ elim (Bool-cases (is_ref (first_parent_id c) ref)) [
      | inl parent ↦
          above_ref (differs different) (is_ref_sound _ _ parent) (rw (different, parent) refl)
      | inr no_parent ↦
          elsewhere (differs different) (λ h. cc (is_ref_refl (first_parent_id c) ref h, no_parent))
            (rw (different, no_parent) refl)
    ]
  ]
    where
      differs : text_eq c.id ref ≡ false → c.id ≢ ref
      differs different h = cc ((text_eq_iff c.id ref).1 h, different)

  abbrev pub head_of : WorkspaceRef → S → Commit
  head_of input s = branches.head s input.repository input.branch

  -- A publication that can read the head of the target does one of three things: it merges the
  -- staging branch exactly when the head is the input's ref; otherwise it resets the target to the
  -- staged commit exactly when the head's first parent is that ref; otherwise it raises a
  -- `PublishFenceError` and leaves the world as it was.
  pub publish_workspace_cases :
      (staged : StagedWorkspace) (input : WorkspaceRef) (s : S) {c : Commit} {t : S}
      → lakefs.get_commit input.repository input.branch s ≡ (ok c, t)
      → Chosen
          (head_of input s)
          input.ref
          (publish_workspace lakefs budget staged input s)
          (merge_staged_workspace lakefs budget staged input s)
          (hard_reset_target_to_ref lakefs budget input staged.commit s)
          (raised (cannot (text " cannot publish") input (head_of input s).id), s)
  unfolding publish_workspace
  publish_workspace_cases staged input s read =
      let (c_eq, t_eq) = branches.read_head input.repository input.branch s read in
      rw (read, c_eq, t_eq)
        (at_head-Chosen (head_of input s) input.ref
          (merge_staged_workspace lakefs budget staged input)
          (hard_reset_target_to_ref lakefs budget input staged.commit) _ s)

  read_of :
      (staged : StagedWorkspace) (input : WorkspaceRef) (s : S) {r : Text} {s' : S}
      → publish_workspace lakefs budget staged input s ≡ (ok r, s')
      → lakefs.get_commit input.repository input.branch s ≡ (ok (head_of input s), s)
  unfolding publish_workspace
  read_of staged input s h =
      let (c, t, read, _) = >>=-eq-ok (lakefs.get_commit input.repository input.branch) _ s h in
      let (c_eq, t_eq) = branches.read_head input.repository input.branch s read in
      rw (c_eq, t_eq) at read

  merge-head :
      (staged : StagedWorkspace) (input : WorkspaceRef) (s : S) {r : Text} {s' : S}
      → staged.repository ≡ input.repository
      → merge_staged_workspace lakefs budget staged input s ≡ (ok r, s')
      → head_of input s' ≡ record { id = r; parents = some (parent_text (head_of input s).id ∷ []) }
  unfolding merge_staged_workspace
  merge-head staged input s same h = merged_by budget same h
    where
      merged_by :
          (budget : Option PublishBudget) {r : Text} {s' : S}
          → staged.repository ≡ input.repository
          → merge_staged_workspace lakefs budget staged input s ≡ (ok r, s')
          → head_of input s'
            ≡ record { id = r; parents = some (parent_text (head_of input s).id ∷ []) }
      merged_by none same h = branches.merged _ _ _ _ s (rw same at h)
      merged_by (some b) same h = branches.merged _ _ _ _ s h

  reset-head :
      (input : WorkspaceRef) (ref : Text) (s : S) {r : Text} {s' : S}
      → hard_reset_target_to_ref lakefs budget input ref s ≡ (ok r, s')
      → (r ≡ ref) × (head_of input s' ≡ branches.commit_at s input.repository ref)
  unfolding hard_reset_target_to_ref
  reset-head input ref s h =
      let (u, t, e, f) =
        >>=-eq-ok
          (lakefs.hard_reset_branch input.repository input.branch ref (merge_timeout budget)) _ s
          h in
      (
        sym (returned-eq f).0,
        rw (← (returned-eq f).1)
            (branches.reset input.repository input.branch ref (merge_timeout budget) s e),
      )

  parent_lem :
      (id : Text) {parent ref : Text}
      → parent ≡ ref
      → first_parent_id (record { id = id; parents = some (parent_text parent ∷ []) }) ≡ some ref
  unfolding first_parent_id
  parent_lem id e = ap some e

  -- When a publication returns, the head of the target is the returned ref, and its first parent is
  -- the input's ref, provided that the staged commit is of the same repository and was made on top
  -- of that ref.
  pub publish_workspace-head :
      (staged : StagedWorkspace) (input : WorkspaceRef) (s : S) {r : Text} {s' : S}
      → staged.repository ≡ input.repository
      → first_parent_id (branches.commit_at s input.repository staged.commit) ≡ some input.ref
      → publish_workspace lakefs budget staged input s ≡ (ok r, s')
      → ((head_of input s').id ≡ r) × (first_parent_id (head_of input s') ≡ some input.ref)
  publish_workspace-head staged input s {r} {s'} same made h =
      elim (publish_workspace_cases staged input s (read_of staged input s h)) [
        | at_ref same_id e ↦
            let merged = merge-head staged input s same (sym e ∙ h) in
            (rw merged refl, rw merged (parent_lem r same_id))
        | above_ref _ _ e ↦
            let (r_eq, reset) = reset-head input staged.commit s (sym e ∙ h) in
            (
              rw reset (branches.commit_at_id s input.repository staged.commit ∙ sym r_eq),
              rw reset made,
            )
        | elsewhere _ _ e ↦ cc (e, h)
      ]

  -- A publication is not fenced off by an earlier attempt's publication from the same ref: after
  -- one that returned, another from that ref merges or resets the target to its own commit,
  -- provided that it can read the head and that the first staged commit was made on top of the ref
  -- in the same repository.
  pub publish_workspace_again :
      (first second : StagedWorkspace) (input : WorkspaceRef) (s : S) {r : Text} {s' t : S}
      {c : Commit}
      → first.repository ≡ input.repository
      → first_parent_id (branches.commit_at s input.repository first.commit) ≡ some input.ref
      → publish_workspace lakefs budget first input s ≡ (ok r, s')
      → lakefs.get_commit input.repository input.branch s' ≡ (ok c, t)
      → (publish_workspace lakefs budget second input s'
          ≡ merge_staged_workspace lakefs budget second input s')
        ⊎ (publish_workspace lakefs budget second input s'
            ≡ hard_reset_target_to_ref lakefs budget input second.commit s')
  publish_workspace_again first second input s {s' = s'} same made h read =
      elim (publish_workspace_cases second input s' read) [
        | at_ref _ e ↦ inl e
        | above_ref _ _ e ↦ inr e
        | elsewhere _ no_parent e ↦
            absurd (no_parent (publish_workspace-head first input s same made h).1)
      ]

  -- When a completion without a change returns, it returns the input's ref, and the target's head
  -- is the commit of that ref.
  pub complete_noop_workspace-head :
      (input : WorkspaceRef) (s : S) {r : Text} {s' : S}
      → complete_noop_workspace lakefs budget input s ≡ (ok r, s')
      → (r ≡ input.ref) × ((head_of input s').id ≡ input.ref)
  unfolding complete_noop_workspace
  complete_noop_workspace-head input s {r} {s'} h =
      let (c, t, read, f) = >>=-eq-ok (lakefs.get_commit input.repository input.branch) _ s h in
      let (c_eq, t_eq) = branches.read_head input.repository input.branch s read in
      elim (at_head-Chosen c input.ref (lift (ok input.ref))
        (hard_reset_target_to_ref lakefs budget input input.ref) _ t) [
          | at_ref same_id e ↦
              let (r_eq, s_eq) = returned-eq (sym e ∙ f) in
              (sym r_eq, rw (← s_eq, t_eq, ← c_eq) same_id)
          | above_ref _ _ e ↦
              let (r_eq, reset) = reset-head input input.ref t (sym e ∙ f) in
              (r_eq, rw reset (branches.commit_at_id t input.repository input.ref))
          | elsewhere _ _ e ↦ cc (e, f)
        ]
