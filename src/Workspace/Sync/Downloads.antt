-- ===== src/Workspace/Sync/Downloads.antt =====
-- Which objects are downloaded, and where to.
use perago.Base.{
  Text, text_in, text_in-sorted, text_in-cases, not_in_nil, text_in_here, text_in_later, sorted,
  true, ◌≡◌, sym, ◌∙◌, ◌↔◌, ◌⊎◌, inl, inr, List, [], ◌∷◌, Option, none, some,
}
use perago.Errors.{Outcome, ok, ◌>>=◌, >>=-eq-ok}
use perago.Guards.{path_text}
use perago.Models.{WorkspaceSpec}
use perago.Workspace.Paths.{workspace_local_path}
use perago.Workspace.Sync.{
  WorkspaceDownloadFile, append_download, download_each, workspace_download_files,
}

-- The download of `o` to `path` stands in the list.
abbrev pub Downloads : List WorkspaceDownloadFile → Text → List Text → Type 0
Downloads [] o path = ⊥
Downloads (f ∷ fs) o path = ((f.object_path ≡ o) × (f.local_path ≡ path)) ⊎ Downloads fs o path

abbrev pub Shows : WorkspaceSpec → Text → List Text → Type 0
Shows spec o path = workspace_local_path spec (path_text o) ≡ ok (some path)

download_turn :
    (spec : WorkspaceSpec) (x : Text) (later : Outcome (List WorkspaceDownloadFile))
    {fs : List WorkspaceDownloadFile}
    → (workspace_local_path spec (path_text x) >>= λ local_path. append_download x local_path later)
      ≡ ok fs
    → ((later ≡ ok fs) × (workspace_local_path spec (path_text x) ≡ ok none))
      ⊎ ((path : List Text) × (rest : List WorkspaceDownloadFile) × Shows spec x path
          × (later ≡ ok rest)
          × (fs ≡ record { object_path = x; local_path = path } ∷ rest))
download_turn spec x later {fs} h =
    let (v, e, f) = >>=-eq-ok (workspace_local_path spec (path_text x)) _ h in shown v e f
  where
    shown :
        (v : Option (List Text))
        → workspace_local_path spec (path_text x) ≡ ok v
        → append_download x v later ≡ ok fs
        → ((later ≡ ok fs) × (workspace_local_path spec (path_text x) ≡ ok none))
          ⊎ ((path : List Text) × (rest : List WorkspaceDownloadFile) × Shows spec x path
              × (later ≡ ok rest)
              × (fs ≡ record { object_path = x; local_path = path } ∷ rest))
    shown none e f = inl (f, e)
    shown (some path) e f =
        let (rest, e2, f2) = >>=-eq-ok later _ f in inr (path, rest, e, e2, cc f2)

shown-Downloads :
    (spec : WorkspaceSpec) (os : List Text) (fs : List WorkspaceDownloadFile) (o : Text)
    (path : List Text)
    → download_each spec os ≡ ok fs
    → text_in o os ≡ true
    → Shows spec o path
    → Downloads fs o path
unfolding download_each
shown-Downloads spec [] fs o path h listed shown = absurd (not_in_nil o listed)
shown-Downloads spec (x ∷ rest) fs o path h listed shown = elim (download_turn spec x _ h) [
  | inl (same, hidden) ↦ elim (text_in-cases o x rest listed) [
    | inl e ↦ cc (e, hidden, shown)
    | inr later ↦ shown-Downloads spec rest fs o path same later shown
  ]
  | inr (path', fs', shown', same, fs_eq) ↦ elim (text_in-cases o x rest listed) [
    | inl e ↦ rw fs_eq (inl (sym e, cc (shown', shown, e)))
    | inr later ↦ rw fs_eq (inr (shown-Downloads spec rest fs' o path same later shown))
  ]
]

Downloads-shown :
    (spec : WorkspaceSpec) (os : List Text) (fs : List WorkspaceDownloadFile) (o : Text)
    (path : List Text)
    → download_each spec os ≡ ok fs
    → Downloads fs o path
    → (text_in o os ≡ true) × Shows spec o path
unfolding download_each
Downloads-shown spec [] [] o path h d = absurd d
Downloads-shown spec [] (f ∷ fs) o path h d = cc
Downloads-shown spec (x ∷ rest) fs o path h d = elim (download_turn spec x _ h) [
  | inl (same, _) ↦
      let (listed, shown) = Downloads-shown spec rest fs o path same d in
      (text_in_later o x rest listed, shown)
  | inr (path', fs', shown', same, fs_eq) ↦ elim (rw fs_eq at d) [
    | inl (e, p) ↦ (rw (← e) (text_in_here x rest), rw (← e, ← p) shown')
    | inr later ↦
        let (listed, shown) = Downloads-shown spec rest fs' o path same later in
        (text_in_later o x rest listed, shown)
  ]
]

-- When the downloads are planned, exactly the listed objects that the task can see are downloaded,
-- each to the local path that it is shown at.
pub workspace_download_files_iff :
    (spec : WorkspaceSpec) (listing : List Text) (fs : List WorkspaceDownloadFile) (o : Text)
    (path : List Text)
    → workspace_download_files spec listing ≡ ok fs
    → ((text_in o listing ≡ true) × Shows spec o path) ↔ Downloads fs o path
unfolding workspace_download_files
workspace_download_files_iff spec listing fs o path h = (
  λ (listed, shown).
      shown-Downloads spec (sorted listing) fs o path h (text_in-sorted o listing ∙ listed) shown,
  λ d.
      let (listed, shown) = Downloads-shown spec (sorted listing) fs o path h d in
      (sym (text_in-sorted o listing) ∙ listed, shown),
)
