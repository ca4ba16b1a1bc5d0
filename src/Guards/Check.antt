-- ===== src/Guards/Check.antt =====
-- What it means for guardrails to pass, and which bounds a guardrail can have.
use perago.Base.{ℕ, ◌≤◌, Bool, true, false, Option, none, some, Text, ◌≡◌, ◌⊎◌, List, [], ◌∷◌}
use perago.Errors.{Exception, guardrail_violation, Outcome, ok, raised}
use perago.Guards.{GuardrailKind, WorkspaceGuardrail, FileView}

abbrev pub is_glob : GuardrailKind → Bool
is_glob GuardrailKind.require_glob_kind = true
is_glob GuardrailKind.forbid_glob_kind = true
is_glob kind = false

abbrev AtLeast : Option ℕ → ℕ → Type 0
AtLeast none count = Unit
AtLeast (some low) count = low ≤ count

abbrev AtMost : Option ℕ → ℕ → Type 0
AtMost none count = Unit
AtMost (some high) count = count ≤ high

-- What a count has to be, for the two kinds that count.
abbrev Counts : GuardrailKind → WorkspaceGuardrail → ℕ → Type 0
Counts GuardrailKind.forbid_glob_kind g count = count ≡ 0
Counts kind g count = AtLeast g.min_count count × AtMost g.max_count count

-- The guardrail is satisfied; a glob that pathlib refuses satisfies none.
abbrev Satisfies : FileView → GuardrailKind → WorkspaceGuardrail → Type 0
Satisfies view GuardrailKind.require_file_kind g = view.is_file g.path ≡ true
Satisfies view GuardrailKind.require_dir_kind g = view.is_dir g.path ≡ true
Satisfies view kind g = (count : ℕ) × (view.glob_count g.path ≡ ok count) × Counts kind g count

abbrev pub AllSatisfied : FileView → List WorkspaceGuardrail → Type 0
AllSatisfied view [] = Unit
AllSatisfied view (g ∷ rest) = Satisfies view g.kind g × AllSatisfied view rest

-- `root.glob` of one of the patterns raises this exception.
abbrev pub Refuses : FileView → List WorkspaceGuardrail → Exception → Type 0
Refuses view [] e = ⊥
Refuses view (g ∷ rest) e =
    (is_glob g.kind ≡ true) × (view.glob_count g.path ≡ raised e) ⊎ Refuses view rest e

abbrev Decides : Outcome (Unit {0}) → (P : Type 0) → (R : Exception → Type 0) → Type 0
Decides r P R =
    ((r ≡ ok tt) × P)
    ⊎ ((((m : Text) × (r ≡ raised (guardrail_violation m))) × ¬ P)
        ⊎ ((e : Exception) × (r ≡ raised e) × R e))

abbrev RefusesOne : FileView → GuardrailKind → WorkspaceGuardrail → Exception → Type 0
RefusesOne view kind g e = (is_glob kind ≡ true) × (view.glob_count g.path ≡ raised e)
