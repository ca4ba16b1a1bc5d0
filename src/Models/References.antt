-- ===== src/Models/References.antt =====
-- Workspace references survive a round trip through JSON.
use perago.Base.{
  true, false, not, ◌||◌, Text, text, text_eq, text_in, ◌≡◌, refl, Option, none, some, is_blank,
  is_empty, Bool-cases, inl, inr, ◌⊎◌, ◌∙◌,
}
use perago.Errors.{
  value_error, ok, raised, ◌>>=◌, raise_if, Returns, Returns-bind, Returns-bind_any, Returns-eq,
}
use perago.Value.{Value, none_value, str, bool, int, float, dict, list, other}
use perago.Models.{
  WorkspaceRef, validate_workspace_ref, dump_workspace_ref, published_output, ref_field,
  validation_report, field_value, only_keys, ref_keys, repository_key, branch_key, ref_type_key,
  ref_key, commit_field,
}

abbrev pub HasContent : Text → Type 0
HasContent t = (is_empty t || is_blank t) ≡ false

-- What every validated reference satisfies.
pub record IsComplete (w : WorkspaceRef) : Type 0 where
  pub repository : HasContent w.repository
  pub branch : HasContent w.branch
  pub ref : HasContent w.ref

validate_dump :
    (w : WorkspaceRef)
    → validate_workspace_ref (dump_workspace_ref w) ≡ (do
      repository ← ref_field (some (str w.repository))
      branch ← ref_field (some (str w.branch))
      ref ← ref_field (some (str w.ref))
      ok (record { repository = repository; branch = branch; ref = ref }))
unfolding validate_workspace_ref dump_workspace_ref text text_eq text_in
validate_dump w = refl

ref_field-Returns : (v : Option Value) → Returns HasContent (ref_field v)
ref_field-Returns none = tt
ref_field-Returns (some (str t)) = elim (Bool-cases (is_empty t || is_blank t)) [
  | inl blank ↦ rw blank tt
  | inr content ↦ rw content content
]
ref_field-Returns (some none_value) = tt
ref_field-Returns (some (bool b)) = tt
ref_field-Returns (some (int s m)) = tt
ref_field-Returns (some (float f x)) = tt
ref_field-Returns (some (dict fs)) = tt
ref_field-Returns (some (list xs)) = tt
ref_field-Returns (some (other x)) = tt

ref_field_lem : (t : Text) → HasContent t → ref_field (some (str t)) ≡ ok t
ref_field_lem t h = rw h

validate-Returns : (v : Value) → Returns IsComplete (validate_workspace_ref v)
unfolding validate_workspace_ref
validate-Returns (dict fs) =
    Returns-bind_any _ (raise_if (not (only_keys ref_keys fs)) (value_error validation_report)) _
      λ _.
        Returns-bind _ (ref_field (field_value repository_key fs)) _ (ref_field-Returns _) λ a ha.
          Returns-bind _ (ref_field (field_value branch_key fs)) _ (ref_field-Returns _) λ b hb.
            Returns-bind_any _ (commit_field (field_value ref_type_key fs)) _ λ _.
              Returns-bind _ (ref_field (field_value ref_key fs)) _ (ref_field-Returns _)
                λ c hc. record { repository = ha; branch = hb; ref = hc }
validate-Returns none_value = tt
validate-Returns (str t) = tt
validate-Returns (bool b) = tt
validate-Returns (int s m) = tt
validate-Returns (float f x) = tt
validate-Returns (list xs) = tt
validate-Returns (other x) = tt

pub validate-IsComplete :
    (v : Value) {w : WorkspaceRef} → validate_workspace_ref v ≡ ok w → IsComplete w
validate-IsComplete v h = Returns-eq IsComplete (validate_workspace_ref v) (validate-Returns v) h

pub validate-dump :
    (w : WorkspaceRef) → IsComplete w → validate_workspace_ref (dump_workspace_ref w) ≡ ok w
validate-dump w c =
    validate_dump w
    ∙ rw (
      ref_field_lem w.repository c.repository,
      ref_field_lem w.branch c.branch,
      ref_field_lem w.ref c.ref,
    )

-- From a workspace input that was accepted, a ref with content gives an output that keeps the
-- repository and the branch, and that the next task accepts as its input; a blank ref raises.
pub published_output_cases :
    (v : Value) (w : WorkspaceRef) (ref : Text)
    → validate_workspace_ref v ≡ ok w
    → ((published_output w ref ≡ ok (record w { ref = ref }))
        × (validate_workspace_ref (dump_workspace_ref (record w { ref = ref }))
            ≡ ok (record w { ref = ref }))
        × HasContent ref)
      ⊎ ((published_output w ref ≡ raised (value_error validation_report))
          × ((is_empty ref || is_blank ref) ≡ true))
unfolding published_output
published_output_cases v w ref h =
    let c = validate-IsComplete v h in
    elim (Bool-cases (is_empty ref || is_blank ref)) [
      | inl blank ↦ inr (
        validate_dump (record w { ref = ref })
            ∙ rw (ref_field_lem w.repository c.repository, ref_field_lem w.branch c.branch, blank),
        blank,
      )
      | inr content ↦
          let done =
            validate-dump (record w { ref = ref })
              (record { repository = c.repository; branch = c.branch; ref = content }) in
          inl (done, done, content)
    ]
