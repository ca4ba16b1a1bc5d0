-- ===== src/Tasks/Signature.antt =====
-- `perago/task.py`: the signatures that a task function may have.
use perago.Base.{
  true, false, ◌&&◌, Option, some, Text, text, text_eq, text_eq_iff, text_eq_refl, List, [], ◌∷◌,
  ◌≡◌, ◌⊎◌, ◌↔◌, inl, inr, refl, arith, if◌then◌else◌,
}
use perago.Errors.{Exception, Outcome, ok, raised}
use perago.Models.{WorkspaceSpec, MetricSpec}
use perago.Tasks.{
  Hint, Parameter, is_given, is_path, is_recorder, validate_workspace_signature,
  validate_workspace_metrics_signature, validate_workspace_free_metrics_signature,
  validate_workspace_free_signature, validate_signature, path_class, metric_recorder,
}

abbrev pub workspace_name : Text
workspace_name = text "workspace"

abbrev pub params_name : Text
params_name = text "params"

abbrev pub metrics_name : Text
metrics_name = text "metrics"

-- A function of a workspace and parameters, of parameters alone, and each with a recorder as well:
-- the workspace is a `Path` and is declared, the recorder is a `MetricRecorder` and is declared.
module _ (hints : Text → Option Hint) (workspace : Option WorkspaceSpec)
    (metrics : Option MetricSpec) where
  abbrev pub TakesWorkspace : Type 0
  TakesWorkspace = (hints workspace_name ≡ some path_class) × (is_given workspace ≡ true)

  abbrev pub TakesMetrics : Type 0
  TakesMetrics = (hints metrics_name ≡ some metric_recorder) × (is_given metrics ≡ true)

  abbrev pub Accepted : (names : List Text) → Type 0
  Accepted (p ∷ []) = (p ≡ params_name) × (is_given workspace ≡ false) × (is_given metrics ≡ false)
  Accepted (p ∷ q ∷ []) =
      ((p ≡ params_name) × (q ≡ metrics_name) × (is_given workspace ≡ false) × TakesMetrics)
      ⊎ ((p ≡ workspace_name) × (q ≡ params_name) × TakesWorkspace × (is_given metrics ≡ false))
  Accepted (p ∷ q ∷ r ∷ []) =
      (p ≡ workspace_name) × (q ≡ params_name) × (r ≡ metrics_name) × TakesWorkspace × TakesMetrics
  Accepted names = ⊥

is_path_iff : (h : Option Hint) → (is_path h ≡ true) ↔ (h ≡ some path_class)
is_path_iff h = (λ e. ground arith, λ e. ground arith)

is_recorder_iff : (h : Option Hint) → (is_recorder h ≡ true) ↔ (h ≡ some metric_recorder)
is_recorder_iff h = (λ e. ground arith, λ e. ground arith)

module _ (hints : Text → Option Hint) (workspace : Option WorkspaceSpec) where
  one_iff :
      (p : Text) (metrics : Option MetricSpec)
      → (validate_workspace_free_signature hints workspace p metrics ≡ ok tt)
        ↔ Accepted hints workspace metrics (p ∷ [])
  unfolding validate_workspace_free_signature
  one_iff p metrics = (
    λ h. ground (arith, text_eq_iff p params_name),
    λ h. ground (arith, text_eq_iff p params_name),
  )

  two_free_iff :
      (p q : Text) (metrics : Option MetricSpec)
      → (validate_workspace_free_metrics_signature hints workspace p q metrics ≡ ok tt) ↔ (
          (p ≡ params_name)
          × (q ≡ metrics_name)
          × (is_given workspace ≡ false)
          × TakesMetrics hints workspace metrics)
  unfolding validate_workspace_free_metrics_signature
  two_free_iff p q metrics = (
    λ h. ground (
      arith,
      text_eq_iff p params_name,
      text_eq_iff q metrics_name,
      is_recorder_iff (hints metrics_name),
    ),
    λ h. ground (
      arith,
      text_eq_iff p params_name,
      text_eq_iff q metrics_name,
      is_recorder_iff (hints metrics_name),
    ),
  )

  two_workspace_iff :
      (p q : Text) (metrics : Option MetricSpec)
      → (validate_workspace_signature hints workspace p q metrics ≡ ok tt) ↔ (
          (p ≡ workspace_name)
          × (q ≡ params_name)
          × TakesWorkspace hints workspace metrics
          × (is_given metrics ≡ false))
  unfolding validate_workspace_signature
  two_workspace_iff p q metrics = (
    λ h. ground (
      arith,
      text_eq_iff p workspace_name,
      text_eq_iff q params_name,
      is_path_iff (hints workspace_name),
    ),
    λ h. ground (
      arith,
      text_eq_iff p workspace_name,
      text_eq_iff q params_name,
      is_path_iff (hints workspace_name),
    ),
  )

  three_iff :
      (p q r : Text) (metrics : Option MetricSpec)
      → (validate_workspace_metrics_signature hints workspace p q r metrics ≡ ok tt)
        ↔ Accepted hints workspace metrics (p ∷ q ∷ r ∷ [])
  unfolding validate_workspace_metrics_signature validate_workspace_signature
  three_iff p q r metrics = (
    λ h. ground (
      arith,
      text_eq_iff p workspace_name,
      text_eq_iff q params_name,
      text_eq_iff r metrics_name,
      is_path_iff (hints workspace_name),
      is_recorder_iff (hints metrics_name),
    ),
    λ h. ground (
      arith,
      text_eq_iff p workspace_name,
      text_eq_iff q params_name,
      text_eq_iff r metrics_name,
      is_path_iff (hints workspace_name),
      is_recorder_iff (hints metrics_name),
    ),
  )

  names_differ : text_eq workspace_name params_name ≡ false
  unfolding text text_eq
  names_differ = refl

  two_iff :
      (p q : Text) (metrics : Option MetricSpec)
      → ((if text_eq p params_name && text_eq q metrics_name
            then validate_workspace_free_metrics_signature hints workspace p q metrics
            else validate_workspace_signature hints workspace p q metrics)
          ≡ ok tt)
        ↔ Accepted hints workspace metrics (p ∷ q ∷ [])
  two_iff p q metrics =
      (λ h. ground (arith, two_free_iff p q metrics, two_workspace_iff p q metrics), back)
    where
      back :
          Accepted hints workspace metrics (p ∷ q ∷ [])
          → (if text_eq p params_name && text_eq q metrics_name
              then validate_workspace_free_metrics_signature hints workspace p q metrics
              else validate_workspace_signature hints workspace p q metrics)
            ≡ ok tt
      back (inl (a, b, c, d)) =
          rw (a, b, text_eq_refl params_name, text_eq_refl metrics_name)
            ((two_free_iff params_name metrics_name metrics).1 (refl, refl, c, d))
      back (inr (a, b, c, d)) =
          rw (a, names_differ) ((two_workspace_iff workspace_name q metrics).1 (refl, b, c, d))

pub raised_not_ok : {e : Exception} → ◌≡◌ {A = Outcome (Unit {0})} (raised e) (ok tt) → ⊥
raised_not_ok e = cc

abbrev pub names_of : List Parameter → List Text
names_of [] = []
names_of (p ∷ ps) = p.name ∷ names_of ps

-- A list of parameters is accepted exactly if it is one of the four signatures, with what each of
-- them asks of the hints and of the declared workspace and metrics.
pub validate_signature_iff :
    (hints : Text → Option Hint) (workspace : Option WorkspaceSpec) (ps : List Parameter)
    (metrics : Option MetricSpec)
    → (validate_signature hints workspace ps metrics ≡ ok tt)
      ↔ Accepted hints workspace metrics (names_of ps)
unfolding validate_signature
validate_signature_iff hints workspace [] metrics = (raised_not_ok, λ h. absurd h)
validate_signature_iff hints workspace (p ∷ []) metrics = one_iff hints workspace p.name metrics
validate_signature_iff hints workspace (p ∷ q ∷ []) metrics =
    two_iff hints workspace p.name q.name metrics
validate_signature_iff hints workspace (p ∷ q ∷ r ∷ []) metrics =
    three_iff hints workspace p.name q.name r.name metrics
validate_signature_iff hints workspace (p ∷ q ∷ r ∷ s ∷ ps) metrics = (raised_not_ok, λ h. absurd h)
