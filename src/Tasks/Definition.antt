-- ===== src/Tasks/Definition.antt =====
-- `perago/task.py`: what the decorator accepts, and what it makes of it.
use perago.Base.{
  ℕ, Bool, false, ◌||◌, ◌&&◌, not, Option, none, some, Text, text, any, is_blank, has_char, ◌≡◌,
  ◌↔◌, refl, arith,
}
use perago.Errors.{Outcome, ok, raised, >>=-eq-ok}
use perago.Guards.{slash, backslash}
use perago.Models.{WorkspaceSpec, MetricSpec}
use perago.Config.Loaded.{ok-injective}
use perago.Tasks.{
  Hint, model_class, Function, Argument, missing, wrong_class, given, Declaration, TaskDefinition,
  definition_of, refuse_if, is_given, optional_argument, required_argument, required_model,
  resolved_hints, validate_required_metadata, validate_signature, task_models,
  build_task_definition,
}
use perago.Tasks.Signature.{Accepted, names_of, validate_signature_iff}

-- `None`, or a value of the class.
abbrev pub Passes {ℓ} : {A : Type ℓ} → Argument A → Option A → Type ℓ
Passes argument none = argument ≡ missing
Passes argument (some a) = argument ≡ given a

-- That the function is synchronous, with plain parameters in one of the four signatures, and that its
-- parameters and its result are pydantic models.
pub record IsTaskFunction (fn : Function) (workspace : Option WorkspaceSpec)
    (metrics : Option MetricSpec) (models : ℕ × ℕ) : Type 0 where
  pub synchronous : fn.is_coroutine ≡ false
  pub no_stars : any (λ p. not p.positional_or_keyword) fn.parameters ≡ false
  pub no_defaults : any (λ p. p.has_default) fn.parameters ≡ false
  pub hints : Text → Option Hint
  pub resolved : fn.type_hints ≡ ok hints
  pub signature : Accepted hints workspace metrics (names_of fn.parameters)
  pub params_model : hints (text "params") ≡ some (model_class models.0)
  pub output_model : hints (text "return") ≡ some (model_class models.1)

-- That `t` is the definition of the function under the declaration.
pub record IsTask (fn : Function) (d : Declaration) (t : TaskDefinition) : Type 0 where
  pub name : t.name ≡ d.name
  pub owner_email : t.owner_email ≡ d.owner_email
  pub description : t.description ≡ d.description
  pub named : is_blank d.name ≡ false
  pub plain : (has_char slash d.name || has_char backslash d.name) ≡ false
  pub owned : is_blank d.owner_email ≡ false
  pub workspace : Passes d.workspace t.workspace
  pub metrics : Passes d.metrics t.metrics
  pub controls : d.controls ≡ given t.controls
  pub strict_params : d.strict_params ≡ given t.strict_params
  pub budgeted : (not (is_given t.workspace) && is_given t.controls.publish_budget) ≡ false
  pub function : IsTaskFunction fn t.workspace t.metrics (t.params_model, t.output_model)

refuse_if_iff : (b : Bool) (m : Text) → (refuse_if b m ≡ ok tt) ↔ (b ≡ false)
refuse_if_iff b m = (λ h. ground arith, λ h. ground arith)

-- what is left of a check that has passed
unit_ok : (r : Outcome (Unit {0})) {u : Unit {0}} → r ≡ ok u → r ≡ ok tt
unit_ok r h = h

optional_argument_iff {ℓ} :
    {A : Type ℓ} (m : Text) (argument : Argument A) (o : Option A)
    → (optional_argument m argument ≡ ok o) ↔ Passes argument o
optional_argument_iff m missing none = (λ h. refl, λ h. refl)
optional_argument_iff m missing (some a) = (λ h. cc, λ h. cc)
optional_argument_iff m wrong_class none = (λ h. cc, λ h. cc)
optional_argument_iff m wrong_class (some a) = (λ h. cc, λ h. cc)
optional_argument_iff m (given b) none = (λ h. cc, λ h. cc)
optional_argument_iff m (given b) (some a) = (λ h. cc, λ h. cc)

required_argument_iff {ℓ} :
    {A : Type ℓ} (m : Text) (argument : Argument A) (a : A)
    → (required_argument m argument ≡ ok a) ↔ (argument ≡ given a)
required_argument_iff m missing a = (λ h. cc, λ h. cc)
required_argument_iff m wrong_class a = (λ h. cc, λ h. cc)
required_argument_iff m (given b) a = (λ h. cc, λ h. cc)

required_model_iff :
    (m : Text) (h : Option Hint) (c : ℕ) → (required_model m h ≡ ok c) ↔ (h ≡ some (model_class c))
required_model_iff m h c = (λ e. ground arith, λ e. ground arith)

resolved_hints_iff :
    (r : Outcome (Text → Option Hint)) (hints : Text → Option Hint)
    → (resolved_hints r ≡ ok hints) ↔ (r ≡ ok hints)
resolved_hints_iff (ok h) hints = (λ e. e, λ e. e)
resolved_hints_iff (raised e) hints = (λ e. cc, λ e. cc)

metadata_iff :
    (name owner : Text)
    → (validate_required_metadata name owner ≡ ok tt) ↔ (
        (is_blank name ≡ false)
        × ((has_char slash name || has_char backslash name) ≡ false)
        × (is_blank owner ≡ false))
unfolding validate_required_metadata
metadata_iff name owner = (λ h. ground arith, λ h. ground arith)

models_sound :
    (fn : Function) (workspace : Option WorkspaceSpec) (metrics : Option MetricSpec)
    (models : ℕ × ℕ)
    → task_models fn workspace metrics ≡ ok models
    → IsTaskFunction fn workspace metrics models
unfolding task_models
models_sound fn workspace metrics models h =
    let (u1, e1, h1) = >>=-eq-ok (refuse_if fn.is_coroutine _) _ h in
    let (u2, e2, h2) = >>=-eq-ok (refuse_if _ _) _ h1 in
    let (u3, e3, h3) = >>=-eq-ok (refuse_if _ _) _ h2 in
    let (hints, e4, h4) = >>=-eq-ok (resolved_hints fn.type_hints) _ h3 in
    let (u5, e5, h5) = >>=-eq-ok (validate_signature hints workspace fn.parameters metrics) _ h4 in
    let (params, e6, h6) = >>=-eq-ok (required_model _ (hints (text "params"))) _ h5 in
    let (output, e7, h7) = >>=-eq-ok (required_model _ (hints (text "return"))) _ h6 in
    let e : (params, output) ≡ models = ok-injective h7 in
    rw (← e) (record {
      synchronous = (refuse_if_iff fn.is_coroutine _).0 e1;
      no_stars = (refuse_if_iff _ _).0 e2;
      no_defaults = (refuse_if_iff _ _).0 e3;
      hints = hints;
      resolved = (resolved_hints_iff fn.type_hints hints).0 e4;
      signature = (validate_signature_iff hints workspace fn.parameters metrics).0 e5;
      params_model = (required_model_iff _ (hints (text "params")) params).0 e6;
      output_model = (required_model_iff _ (hints (text "return")) output).0 e7;
    })

models_complete :
    (fn : Function) (workspace : Option WorkspaceSpec) (metrics : Option MetricSpec)
    (models : ℕ × ℕ)
    → IsTaskFunction fn workspace metrics models
    → task_models fn workspace metrics ≡ ok models
unfolding task_models
models_complete fn workspace metrics models k =
    rw
      (
        k.synchronous,
        k.no_stars,
        k.no_defaults,
        k.resolved,
        (validate_signature_iff k.hints workspace fn.parameters metrics).1 k.signature,
        k.params_model,
        k.output_model,
      )
      refl

build_sound :
    (fn : Function) (d : Declaration) (t : TaskDefinition)
    → build_task_definition fn d ≡ ok t
    → IsTask fn d t
unfolding build_task_definition
build_sound fn d t h =
    let (u1, e1, h1) = >>=-eq-ok (validate_required_metadata d.name d.owner_email) _ h in
    let (workspace, e2, h2) = >>=-eq-ok (optional_argument _ d.workspace) _ h1 in
    let (metrics, e3, h3) = >>=-eq-ok (optional_argument _ d.metrics) _ h2 in
    let (controls, e4, h4) = >>=-eq-ok (required_argument _ d.controls) _ h3 in
    let (strict, e5, h5) = >>=-eq-ok (required_argument _ d.strict_params) _ h4 in
    let (u6, e6, h6) = >>=-eq-ok (refuse_if _ _) _ h5 in
    let (models, e7, h7) = >>=-eq-ok (task_models fn workspace metrics) _ h6 in
    let (named, plain, owned) = (metadata_iff d.name d.owner_email).0 e1 in
    let e : definition_of d workspace metrics controls strict models ≡ t = ok-injective h7 in
    rw (← e) (record {
      name = refl;
      owner_email = refl;
      description = refl;
      named = named;
      plain = plain;
      owned = owned;
      workspace = (optional_argument_iff _ d.workspace workspace).0 e2;
      metrics = (optional_argument_iff _ d.metrics metrics).0 e3;
      controls = (required_argument_iff _ d.controls controls).0 e4;
      strict_params = (required_argument_iff _ d.strict_params strict).0 e5;
      budgeted = (refuse_if_iff _ _).0 e6;
      function = models_sound fn workspace metrics models e7;
    })

build_complete :
    (fn : Function) (d : Declaration) (t : TaskDefinition)
    → IsTask fn d t
    → build_task_definition fn d ≡ ok t
unfolding build_task_definition
build_complete fn d t k =
    rw
      (
        (metadata_iff d.name d.owner_email).1 (k.named, k.plain, k.owned),
        (optional_argument_iff (text "workspace must be a WorkspaceSpec") d.workspace t.workspace).1
            k.workspace,
        (optional_argument_iff (text "metrics must be a MetricSpec") d.metrics t.metrics).1
            k.metrics,
        k.controls,
        k.strict_params,
        k.budgeted,
        models_complete fn t.workspace t.metrics (t.params_model, t.output_model) k.function,
        ← k.name,
        ← k.owner_email,
        ← k.description,
      )
      refl

-- The decorator makes `t` of a function and a declaration exactly if `t` is their definition: the
-- name and the owner are given, the name is no path, the arguments are of their classes, a publish
-- budget comes with a workspace, the function is synchronous with plain parameters in one of the four
-- signatures, and its parameters and result are pydantic models.
pub build_task_definition_iff :
    (fn : Function) (d : Declaration) (t : TaskDefinition)
    → (build_task_definition fn d ≡ ok t) ↔ IsTask fn d t
build_task_definition_iff fn d t = (build_sound fn d t, build_complete fn d t)
