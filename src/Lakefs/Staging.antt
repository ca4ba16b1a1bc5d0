-- ===== src/Lakefs/Staging.antt =====
-- Staging makes the part of the repository that is shown to the task equal to its files.
use perago.Base.{
  false, Text, text, text_in, ◌≡◌, refl, sym, ap, ◌∙◌, List, ◌++◌, Option, none, inl, inr,
  if◌then◌else◌,
}
use perago.Errors.{Outcome, ok}
use perago.Models.{WorkspaceRef, WorkspaceSpec, PublishBudget}
use perago.Execution.Calls.{StagedWorkspace}
use perago.Workspace.{Entry}
use perago.Workspace.Paths.{workspace_object_prefix}
use perago.Workspace.Sync.{build_workspace_sync_plan, WorkspaceSyncPlan}
use perago.Workspace.Sync.Plan.{AllPlain}
use perago.Lakefs.Client.{lift, Service, Gives, Gives-bind, Gives-eq}
use perago.Lakefs.{delete_objects, upload_files, stage_workspace}
use perago.Workspace.Sync.Mirror.{Staging, Mirrors, Staging-Mirrors, plan-parts}
use perago.Lakefs.Objects.{Objects, delete_objects-content, upload_files-content}

module _ {S : Type 0} (lakefs : Service S) (budget : Option PublishBudget)
    (file : Text → List Text → Text) (laws : Objects lakefs file) (dir : Text)
    (entries : List Entry) (input : WorkspaceRef) (spec : WorkspaceSpec) (branch : Text) where
  abbrev pub MirroredFrom : S → StagedWorkspace → S → Type 0
  MirroredFrom s staged t =
      (staged.repository ≡ input.repository)
      × Mirrors spec entries (file dir) (laws.content_at s input.repository input.ref)
          (laws.content_at t input.repository staged.commit)

  -- A staging, from what each of its calls gave.
  staged-Staging :
      (s s1 s4 s5 s6 : S) (paths : List Text) (plan : WorkspaceSyncPlan) (commit : Text)
      {u v w : Unit {0}}
      → lakefs.create_branch input.repository branch input.ref s ≡ (ok u, s1)
      → ((rest : Text)
          → text_in (workspace_object_prefix spec ++ rest) paths ≡ false
          → laws.content s1 input.repository branch (workspace_object_prefix spec ++ rest) ≡ none)
      → build_workspace_sync_plan entries spec paths ≡ ok plan
      → delete_objects lakefs budget input.repository branch plan.delete_object_paths s1
        ≡ (ok v, s4)
      → upload_files lakefs budget input.repository branch dir plan.upload_files s4 ≡ (ok w, s5)
      → lakefs.commit input.repository branch (text "perago try") s5 ≡ (ok commit, s6)
      → Staging spec entries
          (file dir)
          (laws.content_at s input.repository input.ref)
          (laws.content_at s6 input.repository commit)
  staged-Staging s s1 s4 s5 s6 paths plan commit created listed planned deleting uploading
        committing =
      let (files_eq, deletes_eq) = plan-parts entries spec paths planned in
      record {
        files = plan.upload_files;
        deletes = plan.delete_object_paths;
        paths = paths;
        planned = files_eq;
        stale = deletes_eq;
        listed = λ rest absent.
            sym (laws.created input.repository branch input.ref s created _) ∙ listed rest absent;
        committed = λ o.
            let at_commit =
              laws.committed input.repository branch (text "perago try") s5 committing o in
            elim (upload_files-content lakefs budget file laws input.repository branch dir
              plan.upload_files s4 uploading o) [
                | inl (path, up, e) ↦ inl (path, up, at_commit ∙ e)
                | inr (absent, e) ↦ inr (
                  absent,
                  at_commit
                      ∙ e
                      ∙ delete_objects-content lakefs budget file laws input.repository branch
                          plan.delete_object_paths s1 deleting o
                      ∙ ap
                          (λ (c : Option Text).
                            if text_in o plan.delete_object_paths then none else c)
                          (laws.created input.repository branch input.ref s created o),
                )
              ];
      }

  same_state :
      {A : Type 0} (r : Outcome A) {a : A} (s t : S)
      → ◌≡◌ {A = Outcome A × S} (r, s) (ok a, t)
      → (r ≡ ok a) × (t ≡ s)
  same_state {A} r s t h =
      (ap (λ (p : Outcome A × S). p.0) h, sym (ap (λ (p : Outcome A × S). p.1) h))

  stage-Gives :
      (s : S)
      → AllPlain entries
      → Gives (MirroredFrom s) (stage_workspace lakefs budget dir entries input spec branch s)
  unfolding stage_workspace
  stage-Gives s plain =
      Gives-bind _ (lakefs.create_branch input.repository branch input.ref) _ s λ u s1 created.
        Gives-bind _ (lakefs.objects input.repository branch (workspace_object_prefix spec)) _ s1
          λ paths s2 listing.
            Gives-bind _ (lift (build_workspace_sync_plan entries spec paths)) _ s2
              λ plan s3 planned.
                Gives-bind _
                  (delete_objects lakefs budget input.repository branch plan.delete_object_paths) _
                  s3
                  λ v s4 deleting.
                    Gives-bind _
                      (upload_files lakefs budget input.repository branch dir plan.upload_files) _
                      s4
                      λ w s5 uploading.
                        Gives-bind _ (lakefs.commit input.repository branch (text "perago try")) _
                          s5
                          λ commit s6 committing.
                            let (s2_eq, listed) =
                              laws.listed input.repository branch (workspace_object_prefix spec) s1
                                listing in
                            let (plan_eq, s3_eq) =
                              same_state (build_workspace_sync_plan entries spec paths) s2 s3
                                planned in
                            (
                              refl,
                              Staging-Mirrors
                                  (staged-Staging s s1 s4 s5 s6 paths plan commit created listed
                                    plan_eq
                                    (ap
                                        (delete_objects lakefs budget input.repository branch
                                          plan.delete_object_paths)
                                        (sym (s3_eq ∙ s2_eq))
                                      ∙ deleting)
                                    uploading committing)
                                  plain,
                            )

  -- A staging that returns has made a commit in the input's repository, if no name in the listing of
  -- the workspace holds a slash. In it, an object that `workspace_local_path` shows at a path is the
  -- regular file of the workspace at that path, with its content, and is absent if there is none; an
  -- object that it shows nowhere is as at the input's ref; and an object whose path it refuses, such
  -- as one with a backslash, is the upload of a regular file, with its content, or as at that ref.
  -- Every regular file has an object, with the content of a regular file that is uploaded to it.
  pub stage_workspace-Mirrors :
      (s : S) {staged : StagedWorkspace} {t : S}
      → AllPlain entries
      → stage_workspace lakefs budget dir entries input spec branch s ≡ (ok staged, t)
      → MirroredFrom s staged t
  stage_workspace-Mirrors s plain h = Gives-eq (MirroredFrom s) _ (stage-Gives s plain) h
