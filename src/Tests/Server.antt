-- ===== src/Tests/Server.antt =====
-- A server with one branch that is worked on, one commit made of it, and a target branch: it keeps
-- the laws that staging and publication rely on.
use perago.Base.{
  false, Text, text, text_eq, text_in, text_eq_iff, ◌≡◌, refl, sym, ap, List, [], ◌∷◌, Option, none,
  some, if◌then◌else◌, arith,
}
use perago.Errors.{Outcome, ok}
use perago.Lakefs.Client.{Commit, parent_text, Service}
use perago.Lakefs.Objects.{Objects}
use perago.Lakefs.Publish.{Branches}

pub record Object : Type 0 where
  pub path : Text
  pub content : Text

pub record World : Type 0 where
  pub work : List Object
  pub saved : List Object
  pub head : Commit

unfoldable pub lookup : List Object → Text → Option Text
lookup [] o = none
lookup (x ∷ xs) o = let rest = lookup xs o in if text_eq o x.path then some x.content else rest

unfoldable pub remove : Text → List Object → List Object
remove path [] = []
remove path (x ∷ xs) = let rest = remove path xs in if text_eq x.path path then rest else x ∷ rest

unfoldable pub paths : List Object → List Text
paths [] = []
paths (x ∷ xs) = x.path ∷ paths xs

lookup-remove :
    (path : Text) (xs : List Object) (o : Text)
    → lookup (remove path xs) o ≡ (if text_eq o path then none else lookup xs o)
unfolding lookup remove
lookup-remove path [] o = ground arith
lookup-remove path (x ∷ xs) o = grind (
  arith,
  lookup-remove path xs o,
  text_eq_iff o x.path,
  text_eq_iff x.path path,
  text_eq_iff o path,
)

lookup-paths : (xs : List Object) (o : Text) → text_in o (paths xs) ≡ false → lookup xs o ≡ none
unfolding lookup paths text_in
lookup-paths [] o h = refl
lookup-paths (x ∷ xs) o h = ground (arith, lookup-paths xs o)

-- the objects at the input's ref
abbrev pub base : List Object
base =
    record { path = text "data/old.txt"; content = text "old" }
    ∷ record { path = text "other/kept.txt"; content = text "kept" }
    ∷ []

abbrev pub at_commit : World → Text → List Object
at_commit s id = if text_eq id (text "c1") then s.saved else base

abbrev pub commit_above : Text → Text → Commit
commit_above id parent = record { id = id; parents = some (parent_text parent ∷ []) }

abbrev pub demo_file : Text → List Text → Text
demo_file dir path = text "hello"

abbrev pub demo_lakefs : Service World
demo_lakefs = record {
  create_branch = λ r b source s. (ok tt, record s { work = at_commit s source });
  objects = λ r b prefix s. (ok (paths s.work), s);
  delete_object = λ r b path s. (ok tt, record s { work = remove path s.work });
  upload_object = λ r b path bytes s.
      (ok tt, record s { work = record { path = path; content = bytes } ∷ s.work });
  commit = λ r b message s. (ok (text "c1"), record s { saved = s.work });
  get_commit = λ r b s. (ok s.head, s);
  merge_into = λ r source target timeout s.
      (ok (text "m1"), record s { head = commit_above (text "m1") s.head.id });
  hard_reset_branch =
      λ r b ref timeout s. (ok tt, record s { head = commit_above ref (text "c0") });
  delete_branch = λ r b s. (ok tt, s);
  read_bytes = λ dir path s. (ok (demo_file dir path), s);
}

abbrev pub start : World
start = record { work = []; saved = []; head = commit_above (text "c0") (text "b9") }

pub returned :
    {A : Type 0} {a b : A} {s t : World}
    → ◌≡◌ {A = Outcome A × World} (ok a, s) (ok b, t)
    → (b ≡ a) × (t ≡ s)
returned {A} h = (cc h, sym (ap (λ (p : Outcome A × World). p.1) h))

abbrev pub demo_branches : Branches demo_lakefs
demo_branches = record {
  head = λ s r b. s.head;
  commit_at = λ s r id. commit_above id (text "c0");
  read_head = λ r b s e. returned e;
  merged = λ r source target timeout s e. let (id_eq, t_eq) = returned e in rw (id_eq, t_eq) refl;
  reset = λ r b ref timeout s e. rw (returned e).1 refl;
  commit_at_id = λ s r id. refl;
}

pub demo_objects : Objects demo_lakefs demo_file
unfolding lookup paths text_eq text
demo_objects = record {
  content = λ s r b o. lookup s.work o;
  content_at = λ s r id o. lookup (at_commit s id) o;
  created = λ r b source s e o. rw (returned e).1 refl;
  listed = λ r b prefix s e.
      let (p, t) = returned e in (t, λ rest absent. lookup-paths s.work _ (rw p at absent));
  deleted = λ r b path s e o. rw (returned e).1 (lookup-remove path s.work o);
  uploaded = λ r b path bytes s e o. rw (returned e).1 refl;
  committed = λ r b message s e o. let (id_eq, t_eq) = returned e in rw (id_eq, t_eq) refl;
  read = λ dir path s e. returned e;
}
