-- ===== src/Workspace/Sync/Plan.antt =====
-- What a sync plan does to a branch: afterwards the objects that the task can see are its files.
use perago.Base.{
  Text, text_in, text_in-cases, text_in_here, not_in_nil, text_in_later, Bool, true, false, ◌≡◌,
  refl, List, [], ◌∷◌, Option, none, some, ◌⊎◌, inl, inr,
}
use perago.Errors.{Outcome, ok, >>=-eq-ok}
use perago.Guards.{pure_path, path_text}
use perago.Models.{WorkspaceSpec}
use perago.Workspace.{Entry, Node, symlink, file, no_file, is_marker}
use perago.Workspace.Paths.{workspace_object_path, workspace_local_path}
use perago.Workspace.Paths.RoundTrip.{HasPlainNames}
use perago.Workspace.Sync.{
  WorkspaceUploadFile, upload_entry, unless_marker, workspace_upload_files, append_delete,
  delete_entry, delete_each,
}

-- The file that is uploaded from `path` to `o` stands in the list.
abbrev pub Uploads : List WorkspaceUploadFile → List Text → Text → Type 0
Uploads [] path o = ⊥
Uploads (f ∷ fs) path o = ((f.local_path ≡ path) × (f.object_path ≡ o)) ⊎ Uploads fs path o

abbrev pub IsRegular : Node → Type 0
IsRegular (symlink target) = ⊥
IsRegular (file content) = Unit
IsRegular no_file = ⊥

-- There is a regular file at `path`, and it is no marker.
abbrev pub HasFileAt : List Entry → List Text → Type 0
HasFileAt [] path = ⊥
HasFileAt (e ∷ rest) path =
    ((e.path ≡ path) × IsRegular e.node × (is_marker path ≡ false)) ⊎ HasFileAt rest path

-- No name in the listing holds a slash.
abbrev pub AllPlain : List Entry → Type 0
AllPlain [] = Unit
AllPlain (e ∷ rest) = HasPlainNames e.path × AllPlain rest

-- What one turn of the upload loop has added to the files of the later turns.
pub upload_turn :
    (spec : WorkspaceSpec) (path : List Text) (node : Node) (marker : Bool)
    (later : Outcome (List WorkspaceUploadFile)) {fs : List WorkspaceUploadFile}
    → unless_marker marker later (upload_entry spec path node later) ≡ ok fs
    → ((later ≡ ok fs) × (IsRegular node → marker ≡ true))
      ⊎ ((o : Text) × (files : List WorkspaceUploadFile) × (later ≡ ok files)
          × (workspace_object_path spec (pure_path false path) ≡ ok o)
          × (fs ≡ record { local_path = path; object_path = o } ∷ files)
          × IsRegular node
          × (marker ≡ false))
upload_turn spec path node true later h = inl (h, λ _. refl)
upload_turn spec path (symlink target) false later h = cc
upload_turn spec path no_file false later h = inl (h, λ regular. absurd regular)
upload_turn spec path (file content) false later h =
    let (o, e, f) = >>=-eq-ok (workspace_object_path spec (pure_path false path)) _ h in
    let (files, e2, f2) = >>=-eq-ok later _ f in inr (o, files, e2, e, cc f2, tt, refl)

-- Every file is uploaded, to the object of its path.
pub file-Uploads :
    (entries : List Entry) (spec : WorkspaceSpec) (fs : List WorkspaceUploadFile) (path : List Text)
    → workspace_upload_files entries spec ≡ ok fs
    → HasFileAt entries path
    → (o : Text) × (workspace_object_path spec (pure_path false path) ≡ ok o) × Uploads fs path o
unfolding workspace_upload_files
file-Uploads [] spec fs path h found = absurd found
file-Uploads (e ∷ rest) spec fs path h found =
    elim (upload_turn spec e.path e.node (is_marker e.path) _ h) [
      | inl (same, regular) ↦ elim found [
        | inl (p, r, no_marker) ↦ cc (regular r, p, no_marker)
        | inr later ↦ file-Uploads rest spec fs path same later
      ]
      | inr (o, files, same, there, fs_eq, r, no_marker) ↦ elim found [
        | inl (p, _, _) ↦ (o, rw (← p) there, rw fs_eq (inl (p, refl)))
        | inr later ↦
            let (o', there', up) = file-Uploads rest spec files path same later in
            (o', there', rw fs_eq (inr up))
      ]
    ]

-- Only files are uploaded, each to the object of its path.
pub Uploads-file :
    (entries : List Entry) (spec : WorkspaceSpec) (fs : List WorkspaceUploadFile) (path : List Text)
    (o : Text)
    → workspace_upload_files entries spec ≡ ok fs
    → Uploads fs path o
    → (workspace_object_path spec (pure_path false path) ≡ ok o) × HasFileAt entries path
unfolding workspace_upload_files
Uploads-file [] spec [] path o h up = absurd up
Uploads-file [] spec (f ∷ fs) path o h up = cc
Uploads-file (e ∷ rest) spec fs path o h up =
    elim (upload_turn spec e.path e.node (is_marker e.path) _ h) [
      | inl (same, regular) ↦
          let (there, found) = Uploads-file rest spec fs path o same up in (there, inr found)
      | inr (o', files, same, there, fs_eq, r, no_marker) ↦ elim (rw fs_eq at up) [
        | inl (p, q) ↦ (rw (← p, ← q) there, inl (p, r, rw (← p) no_marker))
        | inr later ↦
            let (there', found) = Uploads-file rest spec files path o same later in
            (there', inr found)
      ]
    ]

pub HasFileAt-plain :
    (entries : List Entry) (path : List Text)
    → AllPlain entries
    → HasFileAt entries path
    → HasPlainNames path × (is_marker path ≡ false)
HasFileAt-plain [] path plain found = absurd found
HasFileAt-plain (e ∷ rest) path plain found = elim found [
  | inl (p, _, no_marker) ↦ (rw (← p) plain.0, no_marker)
  | inr later ↦ HasFileAt-plain rest path plain.1 later
]

-- A turn of the delete loop.
delete_turn :
    (spec : WorkspaceSpec) (o : Text) (uploaded : Bool) (later : Outcome (List Text))
    {ds : List Text}
    → delete_entry spec o uploaded later ≡ ok ds
    → ((later ≡ ok ds) × ((uploaded ≡ true) ⊎ (workspace_local_path spec (path_text o) ≡ ok none)))
      ⊎ ((path : List Text) × (rest : List Text) × (workspace_local_path spec (path_text o)
            ≡ ok (some path))
          × (later ≡ ok rest)
          × (ds ≡ o ∷ rest)
          × (uploaded ≡ false))
delete_turn spec o true later h = inl (h, inl refl)
delete_turn spec o false later h =
    let (v, e, f) = >>=-eq-ok (workspace_local_path spec (path_text o)) _ h in after v e f
  where
    after :
        (v : Option (List Text)) {ds : List Text}
        → workspace_local_path spec (path_text o) ≡ ok v
        → append_delete o v later ≡ ok ds
        → ((later ≡ ok ds) × ((false ≡ true) ⊎ (workspace_local_path spec (path_text o) ≡ ok none)))
          ⊎ ((path : List Text) × (rest : List Text) × (workspace_local_path spec (path_text o)
                ≡ ok (some path))
              × (later ≡ ok rest)
              × (ds ≡ o ∷ rest)
              × (false ≡ false))
    after none e f = inl (f, inr e)
    after (some path) e f =
        let (rest, e2, f2) = >>=-eq-ok later _ f in inr (path, rest, e, e2, cc f2, refl)

-- A listed object that the task can see, and that is not uploaded, is deleted.
pub visible-deleted :
    (spec : WorkspaceSpec) (uploaded listing ds : List Text) (o : Text) (path : List Text)
    → delete_each spec uploaded listing ≡ ok ds
    → workspace_local_path spec (path_text o) ≡ ok (some path)
    → text_in o uploaded ≡ false
    → text_in o listing ≡ true
    → text_in o ds ≡ true
unfolding delete_each
visible-deleted spec uploaded [] ds o path h visible kept listed = absurd (not_in_nil o listed)
visible-deleted spec uploaded (x ∷ rest) ds o path h visible kept listed =
    elim (delete_turn spec x (text_in x uploaded) _ h) [
      | inl (same, skipped) ↦ elim (text_in-cases o x rest listed) [
        | inl e ↦ elim skipped [ inl up ↦ cc (e, up, kept) | inr hidden ↦ cc (e, hidden, visible) ]
        | inr later ↦ visible-deleted spec uploaded rest ds o path same visible kept later
      ]
      | inr (_, ds', _, same, ds_eq, _) ↦ elim (text_in-cases o x rest listed) [
        | inl e ↦ rw (ds_eq, e) (text_in_here x ds')
        | inr later ↦ rw ds_eq (
            text_in_later o x ds'
              (visible-deleted spec uploaded rest ds' o path same visible kept later))
      ]
    ]

-- Only objects that the task can see are deleted.
pub deleted-visible :
    (spec : WorkspaceSpec) (uploaded listing ds : List Text) (o : Text)
    → delete_each spec uploaded listing ≡ ok ds
    → text_in o ds ≡ true
    → (path : List Text) × (workspace_local_path spec (path_text o) ≡ ok (some path))
unfolding delete_each
deleted-visible spec uploaded [] ds o h deleted = absurd (not_in_nil o (rw (nil-eq h) deleted))
  where
    nil-eq : {a b : List Text} → ok a ≡ ok b → a ≡ b
    nil-eq e = cc
deleted-visible spec uploaded (x ∷ rest) ds o h deleted =
    elim (delete_turn spec x (text_in x uploaded) _ h) [
      | inl (same, _) ↦ deleted-visible spec uploaded rest ds o same deleted
      | inr (path, ds', visible, same, ds_eq, _) ↦
          elim (text_in-cases o x ds' (rw ds_eq at deleted)) [
            | inl e ↦ (path, rw e visible)
            | inr later ↦ deleted-visible spec uploaded rest ds' o same later
          ]
    ]
