-- ===== src/Segments/Distinct.antt =====
-- Attempts of one task that differ in their retry count have different staging branches.
use perago.Base.{
  ℕ, ◌==◌, Bool, true, false, not, Text, text, ◌≡◌, ◌≢◌, refl, sym, ap, ◌∙◌, arith, List, [], ◌∷◌,
  ◌++◌, Option, none, some, is_empty, strip_left, strip_right, strip_chars, join, all, decimal,
  decimal-injective, decimal-are_digits, decimal-ne-nil, is_digit, length, length-append,
}
use perago.Errors.{ok}
use perago.Attempt.{Attempt}
use perago.Segments.{
  in_branch, branch_ends, replace_runs, lakefs_branch_segment, branch_parts, staging_branch_name,
}

replace_runs-kept :
    (keep : ℕ → Bool) (mark : ℕ) (inside : Bool) (t : Text)
    → all keep t ≡ true
    → replace_runs keep mark inside t ≡ t
unfolding replace_runs
replace_runs-kept keep mark inside [] h = refl
replace_runs-kept keep mark inside (c ∷ t) h = ground (arith, replace_runs-kept keep mark false t)

strip_left-kept :
    (drop : ℕ → Bool) (t : Text) → all (λ c. not (drop c)) t ≡ true → strip_left drop t ≡ t
unfolding strip_left
strip_left-kept drop [] h = refl
strip_left-kept drop (c ∷ t) h = ground arith

strip_right-kept :
    (drop : ℕ → Bool) (t : Text) → all (λ c. not (drop c)) t ≡ true → strip_right drop t ≡ t
unfolding strip_right
strip_right-kept drop [] h = refl
strip_right-kept drop (c ∷ []) h = ground arith
strip_right-kept drop (c ∷ d ∷ t) h = rw (strip_right-kept drop (d ∷ t) (ground arith)) refl

cons-eq : {c d : ℕ} {x y : Text} → c ∷ x ≡ d ∷ y → (c ≡ d) × (x ≡ y)
cons-eq e = (cc, cc)

cancel_left : (p : Text) {s t : Text} → p ++ s ≡ p ++ t → s ≡ t
cancel_left [] h = h
cancel_left (c ∷ p) h = cancel_left p (cons-eq h).1

longer : (d : ℕ) (t r : Text) → r ≡ d ∷ (t ++ r) → ⊥
longer d t r h = omega (arith, ap length h, length-append t r)

cancel_right : (s t r : Text) → s ++ r ≡ t ++ r → s ≡ t
cancel_right [] [] r h = refl
cancel_right [] (d ∷ t) r h = absurd (longer d t r h)
cancel_right (c ∷ s) [] r h = absurd (longer c s r (sym h))
cancel_right (c ∷ s) (d ∷ t) r h =
    let (first, rest) = cons-eq h in cc (first, cancel_right s t r rest)

-- The part before the last decides a joined text.
join-cancel :
    (sep : ℕ) (before : List Text) (x y last : Text)
    → join sep (before ++ x ∷ last ∷ []) ≡ join sep (before ++ y ∷ last ∷ [])
    → x ≡ y
unfolding join
join-cancel sep [] x y last h = cancel_right x y (sep ∷ last) h
join-cancel sep (p ∷ []) x y last h = join-cancel sep [] x y last (cons-eq (cancel_left p h)).1
join-cancel sep (p ∷ q ∷ ps) x y last h =
    join-cancel sep (q ∷ ps) x y last (cons-eq (cancel_left p h)).1

all-weaken :
    (P Q : ℕ → Bool) (t : Text)
    → ((c : ℕ) → P c ≡ true → Q c ≡ true)
    → all P t ≡ true
    → all Q t ≡ true
all-weaken P Q [] k h = refl
all-weaken P Q (c ∷ t) k h = ground (arith, k c, all-weaken P Q t k)

kept_segment :
    (t : Text)
    → all in_branch t ≡ true
    → all (λ c. not (branch_ends c)) t ≡ true
    → is_empty t ≡ false
    → lakefs_branch_segment t ≡ t
unfolding lakefs_branch_segment strip_chars
kept_segment [] h k full = cc
kept_segment (c ∷ t) h k full =
    rw
      (
        replace_runs-kept in_branch b'-' false (c ∷ t) h,
        strip_left-kept branch_ends (c ∷ t) k,
        strip_right-kept branch_ends (c ∷ t) k,
        no_dash,
      )
      refl
  where
    no_dash : (c == b'-') ≡ false
    no_dash = ground arith

-- A number is its own segment.
segment-decimal : (n : ℕ) → lakefs_branch_segment (decimal n) ≡ decimal n
segment-decimal n =
    kept_segment (decimal n)
      (all-weaken is_digit in_branch (decimal n) (λ c h. ground arith) (decimal-are_digits n))
      (all-weaken is_digit (λ c. not (branch_ends c)) (decimal n) (λ c h. ground arith)
        (decimal-are_digits n))
      (decimal-ne-nil n)

-- The retry count can be read off a branch name, the other attributes being known.
retry-eq :
    (workflow reference seq iteration task_id : Text) (m n : ℕ) (execution : Text)
    → join b'-' (branch_parts workflow reference seq iteration task_id (decimal m) execution)
      ≡ join b'-' (branch_parts workflow reference seq iteration task_id (decimal n) execution)
    → m ≡ n
retry-eq workflow reference seq iteration task_id m n execution h = decimal-injective m n (
    sym (segment-decimal m)
    ∙ cancel_left (text "retry-") (
        join-cancel b'-'
          (text "perago"
            ∷ text "staging"
            ∷ lakefs_branch_segment workflow
            ∷ lakefs_branch_segment reference
            ∷ (text "seq-" ++ lakefs_branch_segment seq)
            ∷ (text "iteration-" ++ lakefs_branch_segment iteration)
            ∷ (text "task-id-" ++ lakefs_branch_segment task_id)
            ∷ [])
          (text "retry-" ++ lakefs_branch_segment (decimal m))
          (text "retry-" ++ lakefs_branch_segment (decimal n))
          (text "exec-" ++ lakefs_branch_segment execution) h)
    ∙ segment-decimal n)

ok-eq : {a b : Text} → ok a ≡ ok b → a ≡ b
ok-eq e = cc

with_attributes :
    Attempt
    → Option Text
    → Option Text
    → Option ℕ
    → Option ℕ
    → Option Text
    → ℕ
    → Option Text
    → Attempt
with_attributes task workflow reference seq iteration task_id retry execution = record task {
  workflow_instance_id = workflow;
  reference_task_name = reference;
  seq = seq;
  iteration = iteration;
  task_id = task_id;
  retry_count = some retry;
  execution_id = execution;
}

by_attributes :
    (task : Attempt) (workflow reference : Option Text) (seq iteration : Option ℕ)
    (task_id : Option Text) (m n : ℕ) (execution : Option Text) {name : Text}
    → staging_branch_name
        (with_attributes task workflow reference seq iteration task_id m execution)
      ≡ ok name
    → staging_branch_name
        (with_attributes task workflow reference seq iteration task_id n execution)
      ≡ ok name
    → m ≡ n
unfolding staging_branch_name with_attributes
by_attributes task none r s i t m n e h k = cc
by_attributes task (some w) none s i t m n e h k = cc
by_attributes task (some w) (some r) none i t m n e h k = cc
by_attributes task (some w) (some r) (some s) none t m n e h k = cc
by_attributes task (some w) (some r) (some s) (some i) none m n e h k = cc
by_attributes task (some w) (some r) (some s) (some i) (some t) m n none h k = cc
by_attributes task (some w) (some r) (some s) (some i) (some t) m n (some e) h k =
    retry-eq w r (decimal s) (decimal i) t m n e (ok-eq (h ∙ sym k))

-- Two attempts that agree in everything but their retry count have different staging branches.
pub staging_branch_name-injective :
    (task : Attempt) (m n : ℕ) {a b : Text}
    → m ≢ n
    → staging_branch_name (record task { retry_count = some m }) ≡ ok a
    → staging_branch_name (record task { retry_count = some n }) ≡ ok b
    → a ≢ b
unfolding with_attributes
staging_branch_name-injective task m n {a} {b} other h k same = other (
    by_attributes task task.workflow_instance_id task.reference_task_name task.seq task.iteration
      task.task_id m n task.execution_id h (k ∙ ap ok (sym same)))
