-- ===== src/Config/Lookup.antt =====
-- `perago/config.py`: reading an environment back.
use perago.Base.{
  true, false, Option, none, some, Text, text_eq, text_eq_sound, text_eq_refl, text_in, distinct,
  ◌⊎◌, List, [], ◌∷◌, ◌≡◌, refl, sym, ap, ◌∙◌, inl, inr, arith, if◌then◌else◌, Bool-cases,
}
use perago.Config.Environment.{Env, get, put, update, load_runtime_env}

pub get-put :
    (name key value : Text) (env : Env)
    → get name (put key value env) ≡ (if text_eq name key then some value else get name env)
unfolding get put
get-put name key value [] = refl
get-put name key value ((k, old) ∷ rest) = elim (Bool-cases (text_eq key k)) [
  | inl same ↦ rw (text_eq_sound key k same, text_eq_refl k) (ground arith)
  | inr other ↦
      rw (other, get-put name key value rest)
        (elim (Bool-cases (text_eq name k)) [
          | inl here ↦ rw (text_eq_sound name k here, text_eq_refl k, unlike other) refl
          | inr there ↦ rw there refl
        ])
]
  where
    unlike : text_eq key k ≡ false → text_eq k key ≡ false
    unlike other = elim (Bool-cases (text_eq k key)) [
      | inl same ↦ cc (sym (text_eq_sound k key same), text_eq_refl k, other)
      | inr different ↦ different
    ]

abbrev pub keys : Env → List Text
keys [] = []
keys ((key, value) ∷ rest) = key ∷ keys rest

absent : (name : Text) (env : Env) → text_in name (keys env) ≡ false → get name env ≡ none
unfolding get text_in
absent name [] h = refl
absent name ((key, value) ∷ rest) h = ground (arith, absent name rest)

abbrev pub or_else {ℓ} : {A : Type ℓ} → Option A → Option A → Option A
or_else none b = b
or_else (some a) b = some a

-- An environment in which no name occurs twice.
abbrev pub IsDict : Env → Type 0
IsDict env = distinct (keys env) ≡ true

-- What is read after an update is the new value of the name if it has one, else the old one.
get-update :
    (name : Text) (env others : Env)
    → IsDict others
    → get name (update env others) ≡ or_else (get name others) (get name env)
unfolding update get distinct
get-update name env [] h = refl
get-update name env ((key, value) ∷ rest) h =
    let fresh : text_in key (keys rest) ≡ false = ground arith in
    get-update name (put key value env) rest (ground arith)
    ∙ ap (or_else (get name rest)) (get-put name key value env)
    ∙ pick (Bool-cases (text_eq name key)) fresh
  where
    pick :
        (text_eq name key ≡ true) ⊎ (text_eq name key ≡ false)
        → text_in key (keys rest) ≡ false
        → or_else (get name rest) (if text_eq name key then some value else get name env)
          ≡ or_else (if text_eq name key then some value else get name rest) (get name env)
    pick (inl same) fresh =
        let e : name ≡ key = text_eq_sound name key same in rw (same, e, absent key rest fresh) refl
    pick (inr other) fresh = rw other refl

-- Every name is looked up in the process environment first, and in the `.env` file only if the
-- process environment does not have it.
pub load_runtime_env_lem :
    (name : Text) (process_env dotenv_env : Env)
    → IsDict process_env
    → get name (load_runtime_env process_env dotenv_env)
      ≡ or_else (get name process_env) (get name dotenv_env)
unfolding load_runtime_env
load_runtime_env_lem name process_env dotenv_env h = get-update name dotenv_env process_env h
