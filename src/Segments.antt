-- ===== src/Segments.antt =====
-- `perago/_segments.py` and `perago/staging.py`: path segments and names of staging branches.
pub mod Safe
pub mod Distinct
use perago.Base.{
  ℕ, ◌==◌, leb, Bool, true, false, ◌||◌, ◌&&◌, Text, text, List, [], ◌∷◌, ◌++◌, Option, none, some,
  if◌then◌else◌, is_empty, strip_chars, join, decimal,
}
use perago.Errors.{Outcome, ok, raised, ◌>>=◌}
use perago.Attempt.{Attempt, task_attr}

-- `[A-Za-z0-9]`
abbrev pub is_alphanumeric : ℕ → Bool
is_alphanumeric c =
    (leb b'A' c && leb c b'Z') || (leb b'a' c && leb c b'z') || (leb b'0' c && leb c b'9')

-- `[A-Za-z0-9_.=-]` and `[A-Za-z0-9_-]`
abbrev pub in_segment : ℕ → Bool
in_segment c = is_alphanumeric c || c == b'_' || c == b'.' || c == b'=' || c == b'-'

abbrev pub in_branch : ℕ → Bool
in_branch c = is_alphanumeric c || c == b'_' || c == b'-'

-- the characters that are stripped from the ends
abbrev pub segment_ends : ℕ → Bool
segment_ends c = c == b'.' || c == b'_'

abbrev pub branch_ends : ℕ → Bool
branch_ends c = c == b'-' || c == b'_'

-- `re.sub` of a run of other characters by one `mark`; the flag says that a run has begun.
unfoldable pub replace_runs : (ℕ → Bool) → ℕ → Bool → Text → Text
replace_runs keep mark inside [] = []
replace_runs keep mark inside (c ∷ rest) =
    let kept = replace_runs keep mark false rest in
    let dropped = replace_runs keep mark true rest in
    if keep c then c ∷ kept else if inside then dropped else mark ∷ dropped

abbrev pub or_unknown : Text → Text
or_unknown t = if is_empty t then text "unknown" else t

unfoldable pub safe_segment : Text → Text
unfolding replace_runs strip_chars
safe_segment value =
    or_unknown (strip_chars segment_ends (replace_runs in_segment b'_' false value))

-- `text.startswith("-")`
abbrev pub starts_with_dash : Text → Bool
starts_with_dash [] = false
starts_with_dash (c ∷ rest) = c == b'-'

abbrev pub branch_or_unknown : Text → Text
branch_or_unknown t = if is_empty t || starts_with_dash t then text "unknown" else t

unfoldable pub lakefs_branch_segment : Text → Text
unfolding replace_runs strip_chars
lakefs_branch_segment value =
    branch_or_unknown (strip_chars branch_ends (replace_runs in_branch b'-' false value))

abbrev pub branch_parts :
    (workflow reference seq iteration task_id retry execution : Text) → List Text
branch_parts workflow reference seq iteration task_id retry execution =
    text "perago"
    ∷ text "staging"
    ∷ lakefs_branch_segment workflow
    ∷ lakefs_branch_segment reference
    ∷ (text "seq-" ++ lakefs_branch_segment seq)
    ∷ (text "iteration-" ++ lakefs_branch_segment iteration)
    ∷ (text "task-id-" ++ lakefs_branch_segment task_id)
    ∷ (text "retry-" ++ lakefs_branch_segment retry)
    ∷ (text "exec-" ++ lakefs_branch_segment execution)
    ∷ []

unfoldable pub staging_branch_name : Attempt → Outcome Text
unfolding lakefs_branch_segment
staging_branch_name task = do
  workflow ← task_attr task.workflow_instance_id (text "workflow_instance_id")
  reference ← task_attr task.reference_task_name (text "reference_task_name")
  seq ← task_attr task.seq (text "seq")
  iteration ← task_attr task.iteration (text "iteration")
  task_id ← task_attr task.task_id (text "task_id")
  retry ← task_attr task.retry_count (text "retry_count")
  execution ← task_attr task.execution_id (text "execution_id")
  ok (
      join b'-' (
        branch_parts workflow reference (decimal seq) (decimal iteration) task_id (decimal retry)
          execution))
