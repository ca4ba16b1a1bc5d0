-- ===== src/Errors.antt =====
-- The exceptions of `perago/errors.py`, and those of Python and pydantic that the program raises
-- or converts. A function that may raise returns an `Outcome`.
use perago.Base.{Text, Bool, true, false, Option, ◌≡◌, refl}
use perago.Value.{Value}

pub data Exception : Type 0 where
  task_definition_error : Text → Exception
  runtime_config_error : Text → Exception
  task_input_error : Text → Exception
  task_failed : Text → Option Value → Exception
  task_terminal_error : Text → Option Value → Exception
  guardrail_violation : Text → Exception
  pre_guardrail_violation : Text → Exception
  post_guardrail_violation : Text → Exception
  publish_fence_error : Text → Exception
  stale_attempt_error : Text → Exception
  attribute_error : Text → Exception
  type_error : Text → Exception
  value_error : Text → Exception
  recursion_error : Text → Exception
  runtime_error : Text → Exception
  os_error : Text → Exception
  -- any other subclass of `Exception`, with its `str(exc)`
  other_error : Text → Exception

-- `str(exc)`
unfoldable pub message : Exception → Text
message (task_definition_error m) = m
message (runtime_config_error m) = m
message (task_input_error m) = m
message (task_failed m _) = m
message (task_terminal_error m _) = m
message (guardrail_violation m) = m
message (pre_guardrail_violation m) = m
message (post_guardrail_violation m) = m
message (publish_fence_error m) = m
message (stale_attempt_error m) = m
message (attribute_error m) = m
message (type_error m) = m
message (value_error m) = m
message (recursion_error m) = m
message (runtime_error m) = m
message (os_error m) = m
message (other_error m) = m

pub data Outcome {ℓ} (A : Type ℓ) : Type ℓ where
  ok : A → Outcome A
  raised : Exception → Outcome A

-- `if test: raise e`
abbrev pub raise_if : Bool → Exception → Outcome (Unit {0})
raise_if false e = ok tt
raise_if true e = raised e

-- An exception ends the block; a returned value goes on to the rest.
infixl 5 ◌>>=◌ ◌>>◌
abbrev pub ◌>>=◌ {ℓ κ} :
    {A : Type ℓ} {B : Type κ} (returned : Outcome A) (rest : A → Outcome B) → Outcome B
raised e >>= rest = raised e
ok value >>= rest = rest value

abbrev pub ◌>>◌ {κ} : {B : Type κ} (first : Outcome (Unit {0})) (rest : Outcome B) → Outcome B
first >> rest = first >>= λ _. rest

pub >>=-eq-ok {ℓ κ} :
    {A : Type ℓ} {B : Type κ} (returned : Outcome A) (rest : A → Outcome B) {last : B}
    → (returned >>= rest) ≡ ok last
    → (value : A) × (returned ≡ ok value) × (rest value ≡ ok last)
>>=-eq-ok (raised e) rest h = cc
>>=-eq-ok (ok value) rest h = (value, refl, h)

-- What every returned value satisfies; nothing is said of an exception.
abbrev pub Returns {ℓ κ} : {A : Type ℓ} → (A → Type κ) → Outcome A → Type κ
Returns P (ok a) = P a
Returns P (raised e) = Unit

pub Returns-bind {ℓ κ μ ν} :
    {A : Type ℓ} {B : Type κ} {P : A → Type μ} (Q : B → Type ν) (m : Outcome A) (f : A → Outcome B)
    → Returns P m
    → ((a : A) → P a → Returns Q (f a))
    → Returns Q (m >>= f)
Returns-bind Q (ok a) f h k = k a h
Returns-bind Q (raised e) f h k = tt

pub Returns-bind_any {ℓ κ ν} :
    {A : Type ℓ} {B : Type κ} (Q : B → Type ν) (m : Outcome A) (f : A → Outcome B)
    → ((a : A) → Returns Q (f a))
    → Returns Q (m >>= f)
Returns-bind_any Q (ok a) f k = k a
Returns-bind_any Q (raised e) f k = tt

pub Returns-eq {ℓ κ} :
    {A : Type ℓ} (P : A → Type κ) (m : Outcome A) {a : A} → Returns P m → m ≡ ok a → P a
Returns-eq P m h e = rw e at h
