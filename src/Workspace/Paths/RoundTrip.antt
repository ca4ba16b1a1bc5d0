-- ===== src/Workspace/Paths/RoundTrip.antt =====
-- Mapping a local path to an object and back gives the same path, and the other way round.
use perago.Base.{
  Text, true, false, not, ◌≡◌, ◌≢◌, refl, sym, ap, ◌∙◌, List, [], ◌∷◌, ◌++◌, Option, none, some,
  all, any, split, join, has_char, strip_prefix, strip_prefix-append, strip_prefix_sound,
  split-join, join-split, split-ne-nil, Bool-cases, inl, inr,
}
use perago.Errors.{ok, >>=-eq-ok}
use perago.Guards.{pure_path, path_text, slash, is_special, canonical_workspace_path, path_parts}
use perago.Guards.Paths.{
  HasOrdinaryParts, canonical_text, canonical_parts-eq-ok, canonical_parts_lem,
}
use perago.Models.{WorkspaceSpec}
use perago.Workspace.{is_marker}
use perago.Workspace.Paths.{
  workspace_object_prefix, under, workspace_object_path, revalidated, inside, without_marker,
  workspace_local_path,
}

-- No part holds a slash, as `pathlib` ensures.
abbrev pub HasPlainNames : List Text → Type 0
HasPlainNames path = all (λ p. not (has_char slash p)) path ≡ true

append_slash : (p t : Text) → p ++ slash ∷ t ≡ (p ++ slash ∷ []) ++ t
append_slash [] t = refl
append_slash (c ∷ p) t = ap (λ (r : Text). c ∷ r) (append_slash p t)

pub canonical_path-eq-ok :
    (path : List Text) {q : Text}
    → canonical_workspace_path (pure_path false path) ≡ ok q
    → (q ≡ join slash path) × (path ≢ []) × (any is_special path ≡ false)
unfolding canonical_workspace_path path_parts
canonical_path-eq-ok path h = canonical_parts-eq-ok path h

canonical_path_lem :
    (t : Text)
    → HasOrdinaryParts t
    → canonical_workspace_path (pure_path false (split slash t)) ≡ ok t
unfolding canonical_workspace_path path_parts
canonical_path_lem t h =
    canonical_parts_lem (split slash t) (split-ne-nil slash t) h ∙ ap ok (join-split slash t)

revalidated-eq-some :
    (s : Option Text) {t : Text} → revalidated s ≡ ok (some t) → (s ≡ some t) × HasOrdinaryParts t
revalidated-eq-some none h = cc
revalidated-eq-some (some u) h =
    let (q, e, f) = >>=-eq-ok (canonical_workspace_path (path_text u)) _ h in
    let (same, _, ordinary) = canonical_text u e in
    (cc (same, f), rw (some-ok (ap ok (ap some (sym same)) ∙ f)) at ordinary)
  where
    some-ok : {a b : Text} → ok (some a) ≡ ok (some b) → a ≡ b
    some-ok h = cc

revalidated_lem : (u : Text) {r : Option Text} → revalidated (some u) ≡ ok r → r ≡ some u
revalidated_lem u h =
    let (q, e, f) = >>=-eq-ok (canonical_workspace_path (path_text u)) _ h in
    let (same, _, _) = canonical_text u e in cc (same, f)

-- What `inside` gives: a text that stands behind the prefix, and is ordinary if `o` is.
inside-eq-some :
    (prefix o : Text) {t : Text}
    → HasOrdinaryParts o
    → inside prefix o ≡ ok (some t)
    → (o ≡ under prefix t) × HasOrdinaryParts t
inside-eq-some [] o {t} ordinary h = let same : o ≡ t = cc in (same, rw same at ordinary)
inside-eq-some (c ∷ prefix) o {t} ordinary h =
    let (stripped, suffix) = revalidated-eq-some (strip_prefix ((c ∷ prefix) ++ slash ∷ []) o) h in
    (
      strip_prefix_sound ((c ∷ prefix) ++ slash ∷ []) o t stripped
          ∙ sym (append_slash (c ∷ prefix) t),
      suffix,
    )

-- What it gives for an object that a local path was mapped to.
inside-under :
    (prefix t : Text) {r : Option Text} → inside prefix (under prefix t) ≡ ok r → r ≡ some t
inside-under [] t h = cc
inside-under (c ∷ prefix) t h = revalidated_lem t (rw (stripped (c ∷ prefix)) at h)
  where
    stripped : (p : Text) → strip_prefix (p ++ slash ∷ []) (p ++ slash ∷ t) ≡ some t
    stripped p = rw (append_slash p t) (strip_prefix-append (p ++ slash ∷ []) t)

without_marker-eq-some :
    (r : Option Text) {path : List Text}
    → without_marker r ≡ some path
    → (t : Text) × (r ≡ some t) × (path ≡ split slash t)
without_marker-eq-some none h = cc
without_marker-eq-some (some t) h = elim (Bool-cases (is_marker (split slash t))) [
  | inl marker ↦ cc (rw marker at h)
  | inr plain ↦ (t, refl, some-path (rw plain at h))
]
  where
    some-path : {a b : List Text} → some a ≡ some b → b ≡ a
    some-path e = cc

without_marker_lem :
    (path : List Text)
    → path ≢ []
    → HasPlainNames path
    → is_marker path ≡ false
    → without_marker (some (join slash path)) ≡ some path
without_marker_lem path ne plain no_marker = rw (split-join slash path ne plain, no_marker) refl

-- Of the object that a file is uploaded as, `workspace_local_path` gives the path of the file, if
-- it gives anything: the file has ordinary names and is no marker.
pub workspace_local_path-workspace_object_path :
    (spec : WorkspaceSpec) (path : List Text) (o : Text) (r : Option (List Text))
    → HasPlainNames path
    → is_marker path ≡ false
    → workspace_object_path spec (pure_path false path) ≡ ok o
    → workspace_local_path spec (path_text o) ≡ ok r
    → r ≡ some path
unfolding workspace_object_path workspace_local_path
workspace_local_path-workspace_object_path spec path o r plain no_marker there back =
    let (q, e, f) = >>=-eq-ok (canonical_workspace_path (pure_path false path)) _ there in
    let (q_eq, ne, _) = canonical_path-eq-ok path e in
    let (q2, e2, f2) = >>=-eq-ok (canonical_workspace_path (path_text o)) _ back in
    let (v, e3, f3) = >>=-eq-ok (inside (workspace_object_prefix spec) q2) _ f2 in
    let at_o : q2 ≡ under (workspace_object_prefix spec) q = (canonical_text o e2).0 ∙ cc f in
    let v_eq : v ≡ some q = inside-under (workspace_object_prefix spec) q (rw at_o at e3) in
    cc (f3, v_eq, q_eq, without_marker_lem path ne plain no_marker)

-- A file that is downloaded from an object goes back to that object.
pub workspace_object_path-workspace_local_path :
    (spec : WorkspaceSpec) (o : Text) (path : List Text)
    → workspace_local_path spec (path_text o) ≡ ok (some path)
    → workspace_object_path spec (pure_path false path) ≡ ok o
unfolding workspace_object_path workspace_local_path
workspace_object_path-workspace_local_path spec o path h =
    let (q, e, f) = >>=-eq-ok (canonical_workspace_path (path_text o)) _ h in
    let (same, _, ordinary) = canonical_text o e in
    let (v, e2, f2) = >>=-eq-ok (inside (workspace_object_prefix spec) q) _ f in
    let shown : without_marker v ≡ some path = cc f2 in
    let (t, v_eq, path_eq) = without_marker-eq-some v shown in
    let (o_eq, plain) =
      inside-eq-some (workspace_object_prefix spec) o ordinary (rw (same, v_eq) at e2) in
    rw (path_eq, canonical_path_lem t plain) (ap ok (sym o_eq))
