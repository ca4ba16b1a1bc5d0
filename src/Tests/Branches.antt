-- ===== src/Tests/Branches.antt =====
-- The staging branches of the attempt of `perago.Tests.Data` and of its next try.
use perago.Base.{Text, text, some, ◌≡◌, ◌≢◌, arith, refl, decimal, join, strip_chars}
use perago.Errors.{ok}
use perago.Attempt.{Attempt}
use perago.Segments.{in_segment, safe_segment, staging_branch_name, replace_runs}
use perago.Segments.Safe.{IsSafe, safe_segment-IsSafe}
use perago.Segments.Distinct.{staging_branch_name-injective}
use perago.Tests.Data.{demo_attempt}

abbrev executed : Attempt
executed = record demo_attempt { execution_id = some (text "e1f") }

abbrev branch_name : Text
branch_name =
    text "perago-staging-workflow-1-render_ref-seq-1-iteration-0-task-id-task-1-retry-2-exec-e1f"

branch_name_lem : staging_branch_name executed ≡ ok branch_name
unfolding staging_branch_name text decimal join strip_chars replace_runs
branch_name_lem = refl

safe_segment-IsSafe_example : IsSafe in_segment (safe_segment (text "a/b c"))
safe_segment-IsSafe_example = safe_segment-IsSafe (text "a/b c")

abbrev next_name : Text
next_name =
    text "perago-staging-workflow-1-render_ref-seq-1-iteration-0-task-id-task-1-retry-3-exec-e1f"

next_name_lem : staging_branch_name (record executed { retry_count = some 3 }) ≡ ok next_name
unfolding staging_branch_name text decimal join strip_chars replace_runs
next_name_lem = refl

staging_branch_name-injective_example : branch_name ≢ next_name
staging_branch_name-injective_example =
    staging_branch_name-injective executed 2 3 (λ h. omega (arith, h)) branch_name_lem next_name_lem
