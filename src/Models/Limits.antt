-- ===== src/Models/Limits.antt =====
-- What the validators of budgets and prefixes ensure.
use perago.Base.{
  ◌+◌, ◌≤◌, Text, text, text_eq, ◌≡◌, ◌∙◌, ◌⊎◌, inl, inr, arith, any, is_empty, strip, strip_left,
  split, has_char, join-split, Bool-cases, ◌==◌,
}
use perago.Errors.{ok}
use perago.Guards.{slash, backslash, is_special}
use perago.Guards.Paths.{HasOrdinaryParts}
use perago.Models.{
  PublishBudget, validate_merge_timeout_budget, response_timeout_seconds, validate_prefix,
}

ok-eq : {a b : Text} → ok a ≡ ok b → b ≡ a
ok-eq e = cc

-- A budget that is accepted is kept as it is, and the response timeout that is derived from it
-- covers the observed merge latency with its margin and a second for each of the other phases.
pub validate_merge_timeout_budget-covers :
    (b : PublishBudget) {c : PublishBudget}
    → validate_merge_timeout_budget b ≡ ok c
    → (c ≡ b)
      × (b.observed_merge_p99_seconds + b.safety_margin_seconds ≤ b.lakefs_merge_timeout_seconds)
      × (b.observed_merge_p99_seconds + b.safety_margin_seconds + 3 ≤ response_timeout_seconds b)
unfolding validate_merge_timeout_budget response_timeout_seconds
validate_merge_timeout_budget-covers b h = ground arith

-- An accepted prefix is `/`, or a path of parts none of which is empty, `.` or `..`: it cannot leave
-- the repository.
pub validate_prefix-ordinary :
    (value : Text) {p : Text} → validate_prefix value ≡ ok p → (p ≡ text "/") ⊎ HasOrdinaryParts p
unfolding validate_prefix
validate_prefix-ordinary value {p} h =
    let normalized = strip_left (λ c. c == slash) (strip value) in
    elim (Bool-cases (has_char backslash value)) [
      | inl bad ↦ cc (rw bad at h)
      | inr fine ↦ elim (Bool-cases (text_eq (strip value) (text "/"))) [
        | inl root ↦ inl (ok-eq (rw (fine, root) at h))
        | inr below ↦ elim (Bool-cases (is_empty normalized)) [
          | inl nothing ↦ cc (rw (fine, below, nothing) at h)
          | inr full ↦ elim (Bool-cases (any is_special (split slash normalized))) [
            | inl special ↦ cc (rw (fine, below, full, special) at h)
            | inr ordinary ↦
                let p_eq : p ≡ normalized =
                  ok-eq (rw (fine, below, full, ordinary) at h) ∙ join-split slash normalized in
                inr (rw p_eq ordinary)
          ]
        ]
      ]
    ]
