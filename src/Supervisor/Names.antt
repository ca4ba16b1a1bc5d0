-- ===== src/Supervisor/Names.antt =====
-- `perago/supervisor.py`: no two executors share a worker id.
use perago.Base.{
  ℕ, zero, suc, ◌+◌, ◌<◌, ◌==◌, true, false, Text, text, text_eq, text_eq_sound, text_eq_refl, all,
  is_digit, decimal-are_digits, text_in, distinct, List, [], ◌∷◌, ◌++◌, ◌≡◌, refl, sym, ap, ◌∙◌,
  inl, inr, arith, length, read_decimal, read_onto, decimal, read_decimal-decimal, Bool-cases,
}
use perago.Errors.{ok, >>=-eq-ok, Returns-eq}
use perago.Config.Environment.{Env, put}
use perago.Config.Lookup.{get-put}
use perago.Config.Loaded.{IsPrefix, resolve_worker_id_prefix-IsPrefix, ok-injective}
use perago.Config.WorkerIds.{
  is_alphanumeric, padded, worker_id_for_child, resolve_worker_id_prefix, child_environment,
}
use perago.Supervisor.{WorkerChildSpec, worker_id, worker_ids, specs_from, worker_child_specs}

read_decimal-padded : (n : ℕ) → read_decimal (padded n) ≡ n
unfolding padded read_decimal read_onto
read_decimal-padded n = ground (arith, read_decimal-decimal n)

padded-injective : (m n : ℕ) → padded m ≡ padded n → m ≡ n
padded-injective m n h = sym (read_decimal-padded m) ∙ ap read_decimal h ∙ read_decimal-padded n

append_cancel : (p a b : Text) → p ++ a ≡ p ++ b → a ≡ b
append_cancel [] a b h = h
append_cancel (c ∷ p) a b h = append_cancel p a b (tail_of h)
  where
    tail_of : {c : ℕ} {s t : Text} → c ∷ s ≡ c ∷ t → s ≡ t
    tail_of h = cc

-- `worker_id_for_child(prefix, i)` for `count` indices from `index` on
abbrev pub numbered : (prefix : Text) (index count : ℕ) → List Text
numbered prefix index zero = []
numbered prefix index (suc count) =
    worker_id_for_child prefix index ∷ numbered prefix (index + 1) count

worker_id_for_child-injective :
    (prefix : Text) (m n : ℕ) → worker_id_for_child prefix m ≡ worker_id_for_child prefix n → m ≡ n
unfolding worker_id_for_child
worker_id_for_child-injective prefix m n h =
    padded-injective m n (append_cancel prefix (padded m) (padded n) h)

-- An index below those numbered gives another id.
numbered_later :
    (prefix : Text) (m index count : ℕ)
    → m < index
    → text_in (worker_id_for_child prefix m) (numbered prefix index count) ≡ false
unfolding text_in
numbered_later prefix m index zero h = refl
numbered_later prefix m index (suc count) h =
    elim (Bool-cases (text_eq (worker_id_for_child prefix m) (worker_id_for_child prefix index))) [
      | inl same ↦
          absurd
            (omega (arith, worker_id_for_child-injective prefix m index (text_eq_sound _ _ same)))
      | inr other ↦ rw other (numbered_later prefix m (index + 1) count (omega arith))
    ]

distinct-numbered :
    (prefix : Text) (index count : ℕ) → distinct (numbered prefix index count) ≡ true
unfolding distinct
distinct-numbered prefix index zero = refl
distinct-numbered prefix index (suc count) =
    rw (numbered_later prefix index (index + 1) count (omega arith))
      (distinct-numbered prefix (index + 1) count)

length-numbered : (prefix : Text) (index count : ℕ) → length (numbered prefix index count) ≡ count
length-numbered prefix index zero = refl
length-numbered prefix index (suc count) = omega (arith, length-numbered prefix (index + 1) count)

abbrev child_env : Env → (prefix : Text) (index : ℕ) → Env
child_env env prefix index =
    put (text "PERAGO_WORKER_ID") (worker_id_for_child prefix index)
      (put (text "PERAGO_WORKER_ID_PREFIX") prefix env)

worker_id-child_env :
    (env : Env) (prefix : Text) (index : ℕ)
    → worker_id (record { slot = index; env = child_env env prefix index })
      ≡ ok (worker_id_for_child prefix index)
unfolding worker_id
worker_id-child_env env prefix index =
    let name = text "PERAGO_WORKER_ID" in
    rw
      (
        get-put name name (worker_id_for_child prefix index)
            (put (text "PERAGO_WORKER_ID_PREFIX") prefix env),
        text_eq_refl name,
      )
      refl

resolved_prefix :
    (env : Env) (module_target : Text) (made : Env)
    → child_environment env module_target 1 ≡ ok made
    → (prefix : Text) × (resolve_worker_id_prefix module_target env ≡ ok prefix)
unfolding child_environment
resolved_prefix env module_target made h =
    let (prefix, resolved, rest) = >>=-eq-ok (resolve_worker_id_prefix module_target env) _ h in
    (prefix, resolved)

worker_ids-specs_from :
    (env : Env) (module_target prefix : Text) (index count : ℕ)
    → resolve_worker_id_prefix module_target env ≡ ok prefix
    → (specs : List WorkerChildSpec) × (specs_from env module_target index count ≡ ok specs)
      × (worker_ids specs ≡ ok (numbered prefix index count))
unfolding worker_ids child_environment
worker_ids-specs_from env module_target prefix index zero h = ([], refl, refl)
worker_ids-specs_from env module_target prefix index (suc count) h =
    let (specs, made, ids) = worker_ids-specs_from env module_target prefix (index + 1) count h in
    let spec : WorkerChildSpec = record { slot = index; env = child_env env prefix index } in
    (spec ∷ specs, rw (h, made) refl, rw (worker_id-child_env env prefix index, ids) refl)

alphanumeric_append :
    (p q : Text)
    → all is_alphanumeric p ≡ true
    → all is_alphanumeric q ≡ true
    → all is_alphanumeric (p ++ q) ≡ true
alphanumeric_append [] q h k = k
alphanumeric_append (c ∷ p) q h k = ground (arith, alphanumeric_append p q)

digits_alphanumeric : (t : Text) → all is_digit t ≡ true → all is_alphanumeric t ≡ true
digits_alphanumeric [] h = refl
digits_alphanumeric (c ∷ t) h = ground (arith, digits_alphanumeric t)

padded_alphanumeric : (n : ℕ) → all is_alphanumeric (padded n) ≡ true
unfolding padded
padded_alphanumeric n = ground (arith, digits_alphanumeric (decimal n) (decimal-are_digits n))

numbered_alphanumeric :
    (prefix : Text) (index count : ℕ)
    → all is_alphanumeric prefix ≡ true
    → all (all is_alphanumeric) (numbered prefix index count) ≡ true
unfolding worker_id_for_child
numbered_alphanumeric prefix index zero h = refl
numbered_alphanumeric prefix index (suc count) h =
    rw (alphanumeric_append prefix (padded index) h (padded_alphanumeric index))
      (numbered_alphanumeric prefix (index + 1) count h)

-- What the ids of the workers are.
pub record AreWorkerIds (count : ℕ) (ids : List Text) : Type 0 where
  pub one_each : length ids ≡ count
  pub different : distinct ids ≡ true
  pub alphanumeric : all (all is_alphanumeric) ids ≡ true

numbered-AreWorkerIds :
    (prefix : Text) (count : ℕ) → IsPrefix prefix → AreWorkerIds count (numbered prefix 1 count)
numbered-AreWorkerIds prefix count h = record {
  one_each = length-numbered prefix 1 count;
  different = distinct-numbered prefix 1 count;
  alphanumeric = numbered_alphanumeric prefix 1 count h.1;
}

-- The specifications of `count` worker processes, if they are made, carry `count` worker ids that
-- are all different and hold ASCII letters and digits only.
pub worker_child_specs-AreWorkerIds :
    (env : Env) (module_target : Text) (count : ℕ) (specs : List WorkerChildSpec)
    → worker_child_specs env module_target count ≡ ok specs
    → (ids : List Text) × (worker_ids specs ≡ ok ids) × AreWorkerIds count ids
unfolding worker_child_specs
worker_child_specs-AreWorkerIds env module_target zero specs h = cc
worker_child_specs-AreWorkerIds env module_target (suc count) specs h =
    let positive : (suc count == 0) ≡ false = ground arith in
    let made : specs_from env module_target 1 (suc count) ≡ ok specs = rw positive at h in
    let (first, one, rest) = >>=-eq-ok (child_environment env module_target 1) _ made in
    let (prefix, resolved) = resolved_prefix env module_target first one in
    let (same, again, ids) =
      worker_ids-specs_from env module_target prefix 1 (suc count) resolved in
    let e : same ≡ specs = ok-injective (sym again ∙ made) in
    (
      numbered prefix 1 (suc count),
      rw (← e) ids,
      numbered-AreWorkerIds prefix (suc count)
          (Returns-eq IsPrefix _ (resolve_worker_id_prefix-IsPrefix module_target env) resolved),
    )
