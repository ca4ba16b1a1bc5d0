-- ===== src/Tests/Components.antt =====
-- Small inputs for the parts around an attempt.
use perago.Base.{
  has_char, join, text_in, true, false, none, some, Text, text, text_eq, split, is_blank, is_space,
  is_empty, ◌||◌, List, [], ◌∷◌, ◌≡◌, ◌↔◌, ◌⊎◌, refl, arith,
}
use perago.Errors.{type_error, task_failed, value_error, ok, raised, message}
use perago.Value.{Value, dict, field, end, str_key, float, list, cons, nil, int}
use perago.Value.Snapshot.{snapshot_failure_output}
use perago.Value.Snapshot.Json.{is_json, nesting}
use perago.Value.Snapshot.Accepts.{Acceptable, snapshot_cases}
use perago.Attempt.{Attempt, assert_current_attempt_snapshot}
use perago.Attempt.Fence.{SameAttempt, HasIdentity, fence_iff}
use perago.Result.{
  RuntimeTaskResult, TaskResultStatus, result_for_exception, validate_payload_shape,
}
use perago.Result.Classify.{Shape, report, result_for_exception_total, validate_payload_shape_iff}
use perago.Guards.{
  path_text, path_parts, canonical_workspace_path, WorkspaceGuardrail, GuardrailKind, FileView,
  slash, canonical_parts,
}
use perago.Guards.Paths.{HasOrdinaryParts, canonical_components}
use perago.Models.{
  validate_workspace_ref, dump_workspace_ref, published_output, validation_report, only_keys,
  field_value,
}
use perago.Models.References.{HasContent, published_output_cases}
use perago.Tests.Data.{demo_attempt, demo_ref, demo_ref_value}

-- the attempt after its lease was lost and it was scheduled once more
abbrev retried : Attempt
retried = record demo_attempt { retry_count = some 3 }

fence_iff_example :
    (assert_current_attempt_snapshot demo_attempt retried ≡ ok tt)
    ↔ SameAttempt demo_attempt retried
fence_iff_example = fence_iff demo_attempt retried

demo_identity : HasIdentity demo_attempt (text "task-1")
demo_identity = record {
  status = text "IN_PROGRESS";
  workflow = text "workflow-1";
  retry = 2;
  has_status = refl;
  has_workflow = refl;
  has_id = refl;
  has_retry = refl;
}

retried_identity : HasIdentity retried (text "task-1")
retried_identity = record {
  status = text "IN_PROGRESS";
  workflow = text "workflow-1";
  retry = 3;
  has_status = refl;
  has_workflow = refl;
  has_id = refl;
  has_retry = refl;
}

-- `{"code": [nan]}` and `{"code": [7]}`
abbrev bad_output : Value
bad_output = dict (field (str_key (text "code")) (list (cons (float false 0) nil)) end)

abbrev good_output : Value
good_output = dict (field (str_key (text "code")) (list (cons (int false 7) nil)) end)

snapshot_cases_example :
    ((snapshot_failure_output 100 (some bad_output) ≡ ok (some bad_output))
      × Acceptable 100 bad_output)
    ⊎ (((m : Text) × (snapshot_failure_output 100 (some bad_output) ≡ raised (type_error m)))
        × ¬ Acceptable 100 bad_output)
snapshot_cases_example = snapshot_cases 100 bad_output

result_for_exception_total_example :
    result_for_exception 100 (task_failed (text "too large") (some good_output)) 3
    ≡ ok (report TaskResultStatus.failed (some good_output) (text "too large") 3)
unfolding is_json nesting text message
result_for_exception_total_example =
    result_for_exception_total 100 (task_failed (text "too large") (some good_output)) 3
      (omega arith) (refl, refl, omega arith)

-- a failed result with no reason
abbrev no_reason : RuntimeTaskResult
no_reason = record {
  status = TaskResultStatus.failed;
  output = none;
  reason_for_incompletion = none;
}

validate_payload_shape_iff_example :
    (validate_payload_shape 100 no_reason ≡ ok no_reason)
    ↔ Shape 100 TaskResultStatus.failed none none
validate_payload_shape_iff_example = validate_payload_shape_iff 100 no_reason

abbrev two_guards : List WorkspaceGuardrail
two_guards =
    record {
      kind = GuardrailKind.require_file_kind;
      path = text "a.txt";
      min_count = none;
      max_count = none;
    }
    ∷ record {
      kind = GuardrailKind.require_glob_kind;
      path = text "*.csv";
      min_count = some 1;
      max_count = some 2;
    }
    ∷ []

abbrev three_files : FileView
three_files = record { is_file = λ p. true; is_dir = λ p. false; glob_count = λ p. ok 3 }

nested_path_lem : canonical_workspace_path (path_text (text "a/b")) ≡ ok (text "a/b")
unfolding canonical_workspace_path text path_parts canonical_parts split has_char join
nested_path_lem = refl

canonical_components_example :
    (path_parts (path_text (text "a/b")) ≡ ok (split slash (text "a/b")))
    × HasOrdinaryParts (text "a/b")
canonical_components_example =
    canonical_components (path_text (text "a/b")) (text "a/b") tt nested_path_lem

demo_ref_lem : validate_workspace_ref demo_ref_value ≡ ok demo_ref
unfolding validate_workspace_ref text text_eq only_keys field_value is_blank is_space text_in
demo_ref_lem = refl

published_output_cases_example :
    ((published_output demo_ref (text "c2") ≡ ok (record demo_ref { ref = text "c2" }))
      × (validate_workspace_ref (dump_workspace_ref (record demo_ref { ref = text "c2" }))
          ≡ ok (record demo_ref { ref = text "c2" }))
      × HasContent (text "c2"))
    ⊎ ((published_output demo_ref (text "c2") ≡ raised (value_error validation_report))
        × ((is_empty (text "c2") || is_blank (text "c2")) ≡ true))
published_output_cases_example =
    published_output_cases demo_ref_value demo_ref (text "c2") demo_ref_lem
