-- ===== src/Lakefs/Objects.antt =====
-- What staging relies on in LakeFS, and what its delete and upload loops leave on the branch.
use perago.Base.{
  Bool, true, false, Text, text_eq, text_eq_sound, text_in, ◌≡◌, refl, sym, ap, ◌∙◌, List, [], ◌∷◌,
  ◌++◌, Option, none, some, Bool-cases, ◌⊎◌, inl, inr, if◌then◌else◌, ◌||◌,
}
use perago.Errors.{Outcome, ok}
use perago.Models.{PublishBudget}
use perago.Workspace.Sync.{WorkspaceUploadFile, object_paths}
use perago.Workspace.Sync.Plan.{Uploads}
use perago.Lakefs.Client.{Service, >>=-eq-ok}
use perago.Lakefs.{delete_objects, upload_files}

-- What LakeFS documents of objects, while no one else writes to the staging branch: `content` is
-- what a branch holds, and `content_at` what a commit holds. No one writes to the local files while
-- they are uploaded: `file` is what they hold.
pub record Objects {S : Type 0} (lakefs : Service S) (file : Text → List Text → Text) : Type 0 where
  pub content : S → (repository branch path : Text) → Option Text
  pub content_at : S → (repository id path : Text) → Option Text
  pub created :
      (repository branch source : Text) (s : S) {u : Unit {0}} {t : S}
      → lakefs.create_branch repository branch source s ≡ (ok u, t)
      → (o : Text) → content t repository branch o ≡ content_at s repository source o
  pub listed :
      (repository branch prefix : Text) (s : S) {paths : List Text} {t : S}
      → lakefs.objects repository branch prefix s ≡ (ok paths, t)
      → (t ≡ s)
        × ((rest : Text)
            → text_in (prefix ++ rest) paths ≡ false
            → content s repository branch (prefix ++ rest) ≡ none)
  pub deleted :
      (repository branch path : Text) (s : S) {u : Unit {0}} {t : S}
      → lakefs.delete_object repository branch path s ≡ (ok u, t)
      → (o : Text)
      → content t repository branch o
        ≡ (if text_eq o path then none else content s repository branch o)
  pub uploaded :
      (repository branch path bytes : Text) (s : S) {u : Unit {0}} {t : S}
      → lakefs.upload_object repository branch path bytes s ≡ (ok u, t)
      → (o : Text)
      → content t repository branch o
        ≡ (if text_eq o path then some bytes else content s repository branch o)
  pub committed :
      (repository branch message : Text) (s : S) {id : Text} {t : S}
      → lakefs.commit repository branch message s ≡ (ok id, t)
      → (o : Text) → content_at t repository id o ≡ content s repository branch o
  pub read :
      (dir : Text) (path : List Text) (s : S) {bytes : Text} {t : S}
      → lakefs.read_bytes dir path s ≡ (ok bytes, t)
      → (bytes ≡ file dir path) × (t ≡ s)

state-eq : {S A : Type 0} {a b : A} {s t : S} → ◌≡◌ {A = Outcome A × S} (ok a, s) (ok b, t) → s ≡ t
state-eq {S = S} {A = A} h = ap (λ (p : Outcome A × S). p.1) h

module _ {S : Type 0} (lakefs : Service S) (budget : Option PublishBudget)
    (file : Text → List Text → Text) (laws : Objects lakefs file) (repository branch : Text) where
  abbrev pub content_of : S → Text → Option Text
  content_of s = laws.content s repository branch

  pub delete_objects-content :
      (ds : List Text) (s : S) {u : Unit {0}} {t : S}
      → delete_objects lakefs budget repository branch ds s ≡ (ok u, t)
      → (o : Text) → content_of t o ≡ (if text_in o ds then none else content_of s o)
  unfolding delete_objects text_in
  delete_objects-content [] s h o = ap (λ (r : S). content_of r o) (sym (state-eq h))
  delete_objects-content (d ∷ ds) s h o =
      let (u, t, e, f) = >>=-eq-ok (lakefs.delete_object repository branch d) _ s h in
      delete_objects-content ds t f o
      ∙ rw (laws.deleted repository branch d s e o) (either (text_eq o d) (text_in o ds) _)
    where
      either :
          (a b : Bool) (x : Option Text)
          → (if b then none else (if a then none else x)) ≡ (if a || b then none else x)
      either true true x = refl
      either true false x = refl
      either false b x = refl

  pub upload_files-content :
      (dir : Text) (fs : List WorkspaceUploadFile) (s : S) {u : Unit {0}} {t : S}
      → upload_files lakefs budget repository branch dir fs s ≡ (ok u, t)
      → (o : Text)
      → ((path : List Text) × Uploads fs path o × (content_of t o ≡ some (file dir path)))
        ⊎ ((text_in o (object_paths fs) ≡ false) × (content_of t o ≡ content_of s o))
  unfolding upload_files text_in object_paths
  upload_files-content dir [] s h o = inr (refl, ap (λ (r : S). content_of r o) (sym (state-eq h)))
  upload_files-content dir (f ∷ fs) s h o =
      let (bytes, t1, e1, h1) = >>=-eq-ok (lakefs.read_bytes dir f.local_path) _ s h in
      let (u, t2, e2, h2) =
        >>=-eq-ok (lakefs.upload_object repository branch f.object_path bytes) _ t1 h1 in
      let (bytes_eq, t1_eq) = laws.read dir f.local_path s e1 in
      let after = laws.uploaded repository branch f.object_path bytes t1 e2 o in
      elim (upload_files-content dir fs t2 h2 o) [
        | inl (path, up, e) ↦ inl (path, inr up, e)
        | inr (absent, e) ↦ elim (Bool-cases (text_eq o f.object_path)) [
          | inl same ↦ inl (
            f.local_path,
            inl (refl, sym (text_eq_sound o f.object_path same)),
            e ∙ after ∙ rw (same, bytes_eq) refl,
          )
          | inr different ↦ inr (rw different absent, e ∙ after ∙ rw (different, t1_eq) refl)
        ]
      ]
