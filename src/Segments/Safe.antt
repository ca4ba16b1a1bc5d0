-- ===== src/Segments/Safe.antt =====
-- The characters of segments and branch names.
use perago.Base.{
  ℕ, ◌==◌, Bool, true, false, Text, text, ◌≡◌, refl, arith, List, [], ◌∷◌, ◌++◌, is_empty,
  strip_left, strip_right, strip_chars, keep_front, decimal, join, all, Bool-cases, inl, inr,
}
use perago.Errors.{ok, >>=-eq-ok}
use perago.Attempt.{Attempt, task_attr}
use perago.Segments.{
  in_segment, in_branch, segment_ends, branch_ends, replace_runs, or_unknown, safe_segment,
  branch_or_unknown, lakefs_branch_segment, branch_parts, staging_branch_name, starts_with_dash,
}

module _ (keep : ℕ → Bool) where
  all-replace_runs :
      (mark : ℕ) (inside : Bool) (t : Text)
      → keep mark ≡ true
      → all keep (replace_runs keep mark inside t) ≡ true
  unfolding replace_runs
  all-replace_runs mark inside [] h = refl
  all-replace_runs mark inside (c ∷ rest) h =
      ground (arith, all-replace_runs mark true rest h, all-replace_runs mark false rest h)

  all-strip_left :
      (drop : ℕ → Bool) (t : Text) → all keep t ≡ true → all keep (strip_left drop t) ≡ true
  unfolding strip_left
  all-strip_left drop [] h = refl
  all-strip_left drop (c ∷ t) h = ground (arith, all-strip_left drop t)

  all-strip_right :
      (drop : ℕ → Bool) (t : Text) → all keep t ≡ true → all keep (strip_right drop t) ≡ true
  unfolding strip_right
  all-strip_right drop [] h = refl
  all-strip_right drop (c ∷ t) h =
      front (strip_right drop t) (ground (arith, all-strip_right drop t))
    where
      front : (r : Text) → all keep r ≡ true → all keep (keep_front drop c r) ≡ true
      front [] k = ground arith
      front (d ∷ rest) k = ground arith

  pub all-append : (s t : Text) → all keep s ≡ true → all keep t ≡ true → all keep (s ++ t) ≡ true
  all-append [] t h k = k
  all-append (c ∷ s) t h k = ground (arith, all-append s t)

  all-strip_chars :
      (drop : ℕ → Bool) (t : Text) → all keep t ≡ true → all keep (strip_chars drop t) ≡ true
  unfolding strip_chars
  all-strip_chars drop t h = all-strip_right drop (strip_left drop t) (all-strip_left drop t h)

-- What a segment is made of: allowed characters, and not of none.
abbrev pub IsSafe : (ℕ → Bool) → Text → Type 0
IsSafe keep t = (all keep t ≡ true) × (is_empty t ≡ false)

or_unknown-IsSafe : (t : Text) → all in_segment t ≡ true → IsSafe in_segment (or_unknown t)
unfolding text
or_unknown-IsSafe [] h = (refl, refl)
or_unknown-IsSafe (c ∷ t) h = (h, refl)

branch_or_unknown-IsSafe :
    (t : Text)
    → all in_branch t ≡ true
    → IsSafe in_branch (branch_or_unknown t) × (starts_with_dash (branch_or_unknown t) ≡ false)
unfolding text
branch_or_unknown-IsSafe [] h = ((refl, refl), refl)
branch_or_unknown-IsSafe (c ∷ t) h = elim (Bool-cases (c == b'-')) [
  | inl dash ↦ rw dash ((refl, refl), refl)
  | inr other ↦ rw other ((h, refl), other)
]

-- Whatever it is made of, a path segment is not empty, and holds only letters, digits, `_`, `.`, `=`
-- and `-`.
pub safe_segment-IsSafe : (value : Text) → IsSafe in_segment (safe_segment value)
unfolding safe_segment
safe_segment-IsSafe value =
    or_unknown-IsSafe (strip_chars segment_ends (replace_runs in_segment b'_' false value)) (
      all-strip_chars in_segment segment_ends (replace_runs in_segment b'_' false value)
        (all-replace_runs in_segment b'_' false value refl))

segment-IsSafe :
    (value : Text)
    → IsSafe in_branch (lakefs_branch_segment value)
      × (starts_with_dash (lakefs_branch_segment value) ≡ false)
unfolding lakefs_branch_segment
segment-IsSafe value =
    branch_or_unknown-IsSafe (strip_chars branch_ends (replace_runs in_branch b'-' false value)) (
      all-strip_chars in_branch branch_ends (replace_runs in_branch b'-' false value)
        (all-replace_runs in_branch b'-' false value refl))

all-join :
    (parts : List Text)
    → all (λ p. all in_branch p) parts ≡ true
    → all in_branch (join b'-' parts) ≡ true
unfolding join
all-join [] h = refl
all-join (p ∷ []) h = ground arith
all-join (p ∷ q ∷ ps) h =
    all-append in_branch p (b'-' ∷ join b'-' (q ∷ ps)) (ground arith)
      (all-join (q ∷ ps) (ground arith))

parts-safe :
    (workflow reference seq iteration task_id retry execution : Text)
    → all
        (λ p. all in_branch p)
        (branch_parts workflow reference seq iteration task_id retry execution)
      ≡ true
unfolding text
parts-safe workflow reference seq iteration task_id retry execution =
    rw
      (
        (segment-IsSafe workflow).0.0,
        (segment-IsSafe reference).0.0,
        (segment-IsSafe seq).0.0,
        (segment-IsSafe iteration).0.0,
        (segment-IsSafe task_id).0.0,
        (segment-IsSafe retry).0.0,
        (segment-IsSafe execution).0.0,
      )
      refl

-- A staging branch name holds only letters, digits, `_` and `-`, which LakeFS allows.
pub staging_branch_name-safe :
    (task : Attempt) {name : Text} → staging_branch_name task ≡ ok name → all in_branch name ≡ true
unfolding staging_branch_name
staging_branch_name-safe task h =
    let (workflow, _, h1) = >>=-eq-ok (task_attr task.workflow_instance_id _) _ h in
    let (reference, _, h2) = >>=-eq-ok (task_attr task.reference_task_name _) _ h1 in
    let (seq, _, h3) = >>=-eq-ok (task_attr task.seq _) _ h2 in
    let (iteration, _, h4) = >>=-eq-ok (task_attr task.iteration _) _ h3 in
    let (task_id, _, h5) = >>=-eq-ok (task_attr task.task_id _) _ h4 in
    let (retry, _, h6) = >>=-eq-ok (task_attr task.retry_count _) _ h5 in
    let (execution, _, h7) = >>=-eq-ok (task_attr task.execution_id _) _ h6 in
    rw (← ok-eq h7) (
      all-join
        (branch_parts workflow reference (decimal seq) (decimal iteration) task_id (decimal retry)
          execution)
        (parts-safe workflow reference (decimal seq) (decimal iteration) task_id (decimal retry)
          execution))
  where
    ok-eq : {a b : Text} → ok a ≡ ok b → a ≡ b
    ok-eq e = cc
