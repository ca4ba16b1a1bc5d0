-- ===== src/Guards/Paths.antt =====
-- What a canonical workspace path is: relative, with ordinary components only.
use perago.Base.{
  true, false, not, Option, none, some, Text, any, all, ◌≡◌, ◌≢◌, refl, sym, ap, ◌∙◌, arith, List,
  [], ◌∷◌, split, join, has_char, split-ne-nil, join-split, split-join, split-plain_parts,
  Bool-cases, inl, inr,
}
use perago.Errors.{Exception, ok, >>=-eq-ok}
use perago.Guards.{
  PathArgument, windows_path, pure_path, path_text, is_special, slash, path_parts, canonical_parts,
  canonical_workspace_path, string_path_error, unless_error,
}

-- No part of the text between slashes is empty, `.` or `..`.
abbrev pub HasOrdinaryParts : Text → Type 0
HasOrdinaryParts q = any is_special (split slash q) ≡ false

pub canonical_parts-eq-ok :
    (parts : List Text) {q : Text}
    → canonical_parts parts ≡ ok q
    → (q ≡ join slash parts) × (parts ≢ []) × (any is_special parts ≡ false)
unfolding canonical_parts
canonical_parts-eq-ok [] h = cc
canonical_parts-eq-ok (p ∷ ps) h = elim (Bool-cases (any is_special (p ∷ ps))) [
  | inl special ↦ cc (rw special at h)
  | inr ordinary ↦ (ground arith, λ e. cc, ordinary)
]

pub canonical_parts_lem :
    (parts : List Text)
    → parts ≢ []
    → any is_special parts ≡ false
    → canonical_parts parts ≡ ok (join slash parts)
unfolding canonical_parts
canonical_parts_lem [] n h = absurd (n refl)
canonical_parts_lem (p ∷ ps) n h = rw h

unless_error-eq-ok {ℓ} :
    {A : Type ℓ} (e : Option Exception) (a : A) {b : A}
    → unless_error e a ≡ ok b
    → (e ≡ none) × (b ≡ a)
unless_error-eq-ok none a h = (refl, ground arith)
unless_error-eq-ok (some e) a h = cc

-- A text that is accepted is left as it is.
pub canonical_text :
    (t : Text) {q : Text}
    → canonical_workspace_path (path_text t) ≡ ok q
    → (q ≡ t) × (string_path_error t ≡ none) × HasOrdinaryParts t
unfolding canonical_workspace_path
canonical_text t h =
    let (ps, e, f) = >>=-eq-ok (path_parts (path_text t)) _ h in
    let (none_raised, same) = unless_error-eq-ok (string_path_error t) (split slash t) e in
    let (q_eq, _, ordinary) = canonical_parts-eq-ok ps f in
    (q_eq ∙ ap (join slash) same ∙ join-split slash t, none_raised, rw same at ordinary)

pub canonical_text_lem :
    (t : Text)
    → string_path_error t ≡ none
    → HasOrdinaryParts t
    → canonical_workspace_path (path_text t) ≡ ok t
unfolding canonical_workspace_path
canonical_text_lem t e h =
    rw e (canonical_parts_lem (split slash t) (split-ne-nil slash t) h ∙ ap ok (join-split slash t))

-- The parts that `pathlib` gives never hold a slash.
abbrev pub HasPlainParts : PathArgument → Type 0
HasPlainParts (windows_path drive root parts) = all (λ p. not (has_char slash p)) parts ≡ true
HasPlainParts (pure_path absolute parts) = all (λ p. not (has_char slash p)) parts ≡ true
HasPlainParts (path_text t) = Unit

path_parts-plain :
    (v : PathArgument) {ps : List Text}
    → HasPlainParts v
    → path_parts v ≡ ok ps
    → all (λ p. not (has_char slash p)) ps ≡ true
unfolding path_parts
path_parts-plain (windows_path drive root parts) plain h = ground arith
path_parts-plain (pure_path absolute parts) plain h = ground arith
path_parts-plain (path_text t) plain h =
    rw (unless_error-eq-ok (string_path_error t) (split slash t) h).1 (split-plain_parts slash t)

-- Whatever kind of path a guardrail is given, an accepted one is the slash-separated text of
-- exactly the components of the argument, and none of these is empty, `.` or `..`: it cannot
-- leave the workspace.
pub canonical_components :
    (v : PathArgument) (q : Text)
    → HasPlainParts v
    → canonical_workspace_path v ≡ ok q
    → (path_parts v ≡ ok (split slash q)) × HasOrdinaryParts q
unfolding canonical_workspace_path
canonical_components v q plain h =
    let (ps, e, f) = >>=-eq-ok (path_parts v) _ h in
    let (q_eq, some_part, ordinary) = canonical_parts-eq-ok ps f in
    let parts : split slash q ≡ ps =
      ap (split slash) q_eq ∙ split-join slash ps some_part (path_parts-plain v plain e) in
    (e ∙ ap ok (sym parts), rw parts ordinary)
