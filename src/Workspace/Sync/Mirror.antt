-- ===== src/Workspace/Sync/Mirror.antt =====
-- A plan that was carried out: the objects that are shown to the task are then its files.
use perago.Base.{
  Bool, true, false, Text, text_eq_refl, text_in, text_in-sorted, ◌≡◌, refl, ◌∙◌, List, [], ◌∷◌,
  ◌++◌, Option, none, some, Bool-cases, ◌⊎◌, inl, inr, arith, if◌then◌else◌, sorted,
}
use perago.Errors.{Exception, ok, raised, >>=-eq-ok as bind-eq-ok}
use perago.Guards.{canonical_workspace_path, pure_path, path_text, slash}
use perago.Models.{WorkspaceSpec}
use perago.Workspace.{Entry}
use perago.Workspace.Paths.{
  workspace_object_path, workspace_local_path, workspace_object_prefix, under,
}
use perago.Workspace.Paths.RoundTrip.{
  workspace_local_path-workspace_object_path, workspace_object_path-workspace_local_path,
}
use perago.Workspace.Sync.{
  WorkspaceUploadFile, object_paths, workspace_upload_files, build_workspace_sync_plan,
  workspace_delete_object_paths, WorkspaceSyncPlan, delete_each,
}
use perago.Workspace.Sync.Plan.{
  Uploads, HasFileAt, AllPlain, file-Uploads, Uploads-file, HasFileAt-plain, visible-deleted,
  deleted-visible,
}

Uploads-object_paths :
    (fs : List WorkspaceUploadFile) (path : List Text) (o : Text)
    → Uploads fs path o
    → text_in o (object_paths fs) ≡ true
unfolding object_paths text_in
Uploads-object_paths [] path o up = absurd up
Uploads-object_paths (f ∷ fs) path o up = elim up [
  | inl (_, e) ↦ rw (e, text_eq_refl o) refl
  | inr later ↦ ground (arith, Uploads-object_paths fs path o later)
]

under-prefix : (prefix local : Text) → (rest : Text) × (under prefix local ≡ prefix ++ rest)
under-prefix [] local = (local, refl)
under-prefix (c ∷ prefix) local = (slash ∷ local, refl)

visible-prefix :
    (spec : WorkspaceSpec) (o : Text) (path : List Text)
    → workspace_local_path spec (path_text o) ≡ ok (some path)
    → (rest : Text) × (o ≡ workspace_object_prefix spec ++ rest)
unfolding workspace_object_path
visible-prefix spec o path h =
    let (local, _, f) =
      bind-eq-ok (canonical_workspace_path (pure_path false path)) _
        (workspace_object_path-workspace_local_path spec o path h) in
    let (rest, e) = under-prefix (workspace_object_prefix spec) local in
    let o_eq : o ≡ under (workspace_object_prefix spec) local = cc f in (rest, o_eq ∙ e)

-- What a staging has gone through: the uploads and deletes of its plan, from what it has listed, and
-- the content that it has committed.
pub record Staging (spec : WorkspaceSpec) (entries : List Entry) (file : List Text → Text)
    (before after : Text → Option Text) : Type 0 where
  pub files : List WorkspaceUploadFile
  pub deletes : List Text
  pub paths : List Text
  pub planned : workspace_upload_files entries spec ≡ ok files
  pub stale : delete_each spec (object_paths files) (sorted paths) ≡ ok deletes
  pub listed :
      (rest : Text)
      → text_in (workspace_object_prefix spec ++ rest) paths ≡ false
      → before (workspace_object_prefix spec ++ rest) ≡ none
  pub committed :
      (o : Text)
      → ((path : List Text) × Uploads files path o × (after o ≡ some (file path)))
        ⊎ ((text_in o (object_paths files) ≡ false)
            × (after o ≡ (if text_in o deletes then none else before o)))

-- An object that is shown at a path is the file at that path, or absent where there is none; one that
-- is shown nowhere is as it was; and one whose path is refused is an uploaded file, or as it was. Every
-- file has an object, which holds it or another file with the same object.
pub record Mirrors (spec : WorkspaceSpec) (entries : List Entry) (file : List Text → Text)
    (before after : Text → Option Text) : Type 0 where
  pub visible :
      (o : Text) (path : List Text)
      → workspace_local_path spec (path_text o) ≡ ok (some path)
      → (HasFileAt entries path × (after o ≡ some (file path)))
        ⊎ ((¬ HasFileAt entries path) × (after o ≡ none))
  pub hidden : (o : Text) → workspace_local_path spec (path_text o) ≡ ok none → after o ≡ before o
  pub refused :
      (o : Text) (e : Exception)
      → workspace_local_path spec (path_text o) ≡ raised e
      → ((path : List Text) × HasFileAt entries path
          × (workspace_object_path spec (pure_path false path) ≡ ok o)
          × (after o ≡ some (file path)))
        ⊎ (after o ≡ before o)
  pub uploaded :
      (path : List Text)
      → HasFileAt entries path
      → (o : Text) × (other : List Text) × (workspace_object_path spec (pure_path false path)
          ≡ ok o)
        × (workspace_object_path spec (pure_path false other) ≡ ok o)
        × HasFileAt entries other
        × (after o ≡ some (file other))

pub plan-parts :
    (entries : List Entry) (spec : WorkspaceSpec) (paths : List Text) {plan : WorkspaceSyncPlan}
    → build_workspace_sync_plan entries spec paths ≡ ok plan
    → (workspace_upload_files entries spec ≡ ok plan.upload_files)
      × (delete_each spec (object_paths plan.upload_files) (sorted paths)
          ≡ ok plan.delete_object_paths)
unfolding build_workspace_sync_plan workspace_delete_object_paths
plan-parts entries spec paths h =
    let (fs, e, f) = bind-eq-ok (workspace_upload_files entries spec) _ h in
    let (ds, e2, f2) = bind-eq-ok (delete_each spec (object_paths fs) (sorted paths)) _ f in
    let same = plan-eq f2 in (rw (← same) e, rw (← same) e2)
  where
    plan-eq : {a b : WorkspaceSyncPlan} → ok a ≡ ok b → a ≡ b
    plan-eq e = cc

module _ {spec : WorkspaceSpec} {entries : List Entry} {file : List Text → Text}
    {before after : Text → Option Text} (st : Staging spec entries file before after)
    (plain : AllPlain entries) where
  -- An uploaded object is shown at the path of its file.
  uploaded-visible :
      (o : Text) (path : List Text) (r : Option (List Text))
      → Uploads st.files path o
      → workspace_local_path spec (path_text o) ≡ ok r
      → (r ≡ some path) × HasFileAt entries path
  uploaded-visible o path r up shown =
      let (there, found) = Uploads-file entries spec st.files path o st.planned up in
      let (names, no_marker) = HasFileAt-plain entries path plain found in
      (workspace_local_path-workspace_object_path spec path o r names no_marker there shown, found)

  -- A file at the path of a visible object is uploaded to that object.
  file-uploaded :
      (o : Text) (path : List Text)
      → workspace_local_path spec (path_text o) ≡ ok (some path)
      → HasFileAt entries path
      → text_in o (object_paths st.files) ≡ true
  file-uploaded o path shown found =
      let (o', there, up) = file-Uploads entries spec st.files path st.planned found in
      let same : o' ≡ o =
        cc (there, workspace_object_path-workspace_local_path spec o path shown) in
      Uploads-object_paths st.files path o (rw same at up)

  -- A visible object that is not uploaded is gone: it was deleted, or was not there.
  absent-none :
      (o : Text) (path : List Text)
      → workspace_local_path spec (path_text o) ≡ ok (some path)
      → text_in o (object_paths st.files) ≡ false
      → (if text_in o st.deletes then none else before o) ≡ none
  absent-none o path shown absent = elim (Bool-cases (text_in o st.paths)) [
    | inl there ↦
        rw
          (visible-deleted spec (object_paths st.files) (sorted st.paths) st.deletes o path st.stale
            shown absent (text_in-sorted o st.paths ∙ there))
          refl
    | inr unlisted ↦
        let (rest, o_eq) = visible-prefix spec o path shown in
        let gone : before o ≡ none = rw o_eq (st.listed rest (rw o_eq at unlisted)) in
        either (text_in o st.deletes) gone
  ]
    where
      either : (b : Bool) {x : Option Text} → x ≡ none → (if b then none else x) ≡ none
      either true h = refl
      either false h = h

  pub Staging-Mirrors : Mirrors spec entries file before after
  Staging-Mirrors = record {
    visible = λ o path shown. elim (st.committed o) [
      | inl (path', up, e) ↦
          let (p, found) = uploaded-visible o path' (some path) up shown in
          let same : path ≡ path' = cc p in inl (rw same found, rw same e)
      | inr (absent, e) ↦ inr (
        λ found. cc (file-uploaded o path shown found, absent),
        e ∙ absent-none o path shown absent,
      )
    ];
    hidden = λ o shown. elim (st.committed o) [
      | inl (path, up, e) ↦ cc ((uploaded-visible o path none up shown).0)
      | inr (absent, e) ↦ elim (Bool-cases (text_in o st.deletes)) [
        | inl gone ↦ cc (
          (deleted-visible spec (object_paths st.files) (sorted st.paths) st.deletes o st.stale
              gone).1,
          shown,
        )
        | inr kept ↦ e ∙ rw kept refl
      ]
    ];
    refused = λ o x shown. elim (st.committed o) [
      | inl (path, up, e) ↦
          let (there, found) = Uploads-file entries spec st.files path o st.planned up in
          inl (path, found, there, e)
      | inr (absent, e) ↦ elim (Bool-cases (text_in o st.deletes)) [
        | inl gone ↦ cc (
          (deleted-visible spec (object_paths st.files) (sorted st.paths) st.deletes o st.stale
              gone).1,
          shown,
        )
        | inr kept ↦ inr (e ∙ rw kept refl)
      ]
    ];
    uploaded = λ path found.
        let (o, there, up) = file-Uploads entries spec st.files path st.planned found in
        elim (st.committed o) [
          | inl (other, up', e) ↦
              let (there', found') = Uploads-file entries spec st.files other o st.planned up' in
              (o, other, there, there', found', e)
          | inr (absent, e) ↦ cc (Uploads-object_paths st.files path o up, absent)
        ];
  }
