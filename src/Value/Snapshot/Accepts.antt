-- ===== src/Value/Snapshot/Accepts.antt =====
-- Which failure metadata `snapshot_failure_output` accepts, described without the copy.
use perago.Base.{
  ℕ, zero, suc, ◌≤◌, Bool, true, false, some, ◌&&◌, ◌≡◌, refl, arith, if◌then◌else◌, ◌⊎◌, inl, inr,
  Text,
}
use perago.Errors.{Exception, message, type_error, Outcome, ok, raised}
use perago.Value.{
  Value, none_value, str, bool, int, float, dict, list, other, Fields, end, field, Items, nil, cons,
  Key, str_key, other_key,
}
use perago.Value.Snapshot.{
  copy_json_value, copy_fields, copy_items, snapshot_failure_output, is_dict, all_str_keys,
  then_dict, then_list, then_field, then_item, not_json, too_deep, nested, guarded_copy,
}
use perago.Value.Snapshot.Json.{
  is_json, are_json_fields, are_json, nesting, nesting_fields, nesting_items, copy-accepts,
}

json_fields :
    (k : Key) (v : Value) (rest : Fields)
    → all_str_keys (field k v rest) ≡ true
    → (all_str_keys rest ≡ true)
      × (are_json_fields (field k v rest) ≡ (is_json v && are_json_fields rest))
unfolding is_json all_str_keys
json_fields (str_key k) v rest h = (h, refl)
json_fields (other_key k) v rest h = cc

then_dict-eq-ok :
    (r : Outcome Fields) {w : Value}
    → then_dict r ≡ ok w
    → (gs : Fields) × (r ≡ ok gs) × (w ≡ dict gs)
then_dict-eq-ok (ok gs) h = (gs, refl, ground arith)
then_dict-eq-ok (raised e) h = cc

then_list-eq-ok :
    (r : Outcome Items) {w : Value}
    → then_list r ≡ ok w
    → (ys : Items) × (r ≡ ok ys) × (w ≡ list ys)
then_list-eq-ok (ok ys) h = (ys, refl, ground arith)
then_list-eq-ok (raised e) h = cc

then_field-eq-ok :
    (k : Key) (r : Outcome Value) (s : Outcome Fields) {gs : Fields}
    → then_field k r s ≡ ok gs
    → (w : Value) × (rest : Fields) × (r ≡ ok w) × (s ≡ ok rest) × (gs ≡ field k w rest)
then_field-eq-ok k (ok w) (ok rest) h = (w, rest, refl, refl, ground arith)
then_field-eq-ok k (ok w) (raised e) h = cc
then_field-eq-ok k (raised e) s h = cc

then_item-eq-ok :
    (r : Outcome Value) (s : Outcome Items) {ys : Items}
    → then_item r s ≡ ok ys
    → (w : Value) × (rest : Items) × (r ≡ ok w) × (s ≡ ok rest) × (ys ≡ cons w rest)
then_item-eq-ok (ok w) (ok rest) h = (w, rest, refl, refl, ground arith)
then_item-eq-ok (ok w) (raised e) h = cc
then_item-eq-ok (raised e) s h = cc

keys_first :
    (t : Bool) (r : Outcome Value) {w : Value}
    → (if t then r else raised not_json) ≡ ok w
    → (t ≡ true) × (r ≡ ok w)
keys_first true r h = (refl, h)
keys_first false r h = cc

mutual
  unfolding copy_json_value is_json nesting

  copy_sound :
      (v : Value) (n : ℕ) (w : Value)
      → copy_json_value v n ≡ ok w
      → (w ≡ v) × (is_json v ≡ true) × (nesting v ≤ n)
  copy_sound none_value (suc n) w h = ground arith
  copy_sound (str s) (suc n) w h = ground arith
  copy_sound (bool b) (suc n) w h = ground arith
  copy_sound (int s m) (suc n) w h = ground arith
  copy_sound (float true x) (suc n) w h = ground arith
  copy_sound (float false x) (suc n) w h = cc
  copy_sound (dict fs) (suc n) w h =
      let (t, copied) = keys_first (all_str_keys fs) (then_dict (copy_fields fs n)) h in
      let (gs, e, eq) = then_dict-eq-ok (copy_fields fs n) copied in
      ground (arith, copy_fields_sound fs n gs t e)
  copy_sound (list xs) (suc n) w h =
      let (ys, e, eq) = then_list-eq-ok (copy_items xs n) h in
      ground (arith, copy_items_sound xs n ys e)
  copy_sound (other x) (suc n) w h = cc
  copy_sound none_value zero w h = cc
  copy_sound (str s) zero w h = cc
  copy_sound (bool b) zero w h = cc
  copy_sound (int s m) zero w h = cc
  copy_sound (float f x) zero w h = cc
  copy_sound (dict fs) zero w h = cc
  copy_sound (list xs) zero w h = cc
  copy_sound (other x) zero w h = cc

  copy_fields_sound :
      (fs : Fields) (n : ℕ) (gs : Fields)
      → all_str_keys fs ≡ true
      → copy_fields fs n ≡ ok gs
      → (gs ≡ fs) × (are_json_fields fs ≡ true) × (nesting_fields fs ≤ n)
  copy_fields_sound end n gs t h = ground arith
  copy_fields_sound (field k v rest) n gs t h =
      let (w, ws, e, es, eq) = then_field-eq-ok k (copy_json_value v n) (copy_fields rest n) h in
      let (t', j) = json_fields k v rest t in
      ground (arith, copy_sound v n w e, copy_fields_sound rest n ws t' es)

  copy_items_sound :
      (xs : Items) (n : ℕ) (ys : Items)
      → copy_items xs n ≡ ok ys
      → (ys ≡ xs) × (are_json xs ≡ true) × (nesting_items xs ≤ n)
  copy_items_sound nil n ys h = ground arith
  copy_items_sound (cons v rest) n ys h =
      let (w, ws, e, es, eq) = then_item-eq-ok (copy_json_value v n) (copy_items rest n) h in
      ground (arith, copy_sound v n w e, copy_items_sound rest n ws es)

-- What a copy may raise.
abbrev Refusal : Exception → Type 0
Refusal e = (e ≡ not_json) ⊎ (e ≡ too_deep)

mutual
  unfolding copy_json_value

  copy-raises : (v : Value) (n : ℕ) (e : Exception) → copy_json_value v n ≡ raised e → Refusal e
  copy-raises (dict fs) (suc n) e h = ground (arith, copy_fields-raises fs n e)
  copy-raises (list xs) (suc n) e h = ground (arith, copy_items-raises xs n e)
  copy-raises (float true x) (suc n) e h = cc
  copy-raises (float false x) (suc n) e h = ground arith
  copy-raises (other x) (suc n) e h = ground arith
  copy-raises none_value (suc n) e h = cc
  copy-raises (str s) (suc n) e h = cc
  copy-raises (bool b) (suc n) e h = cc
  copy-raises (int s m) (suc n) e h = cc
  copy-raises none_value zero e h = ground arith
  copy-raises _ zero e h = ground arith

  copy_fields-raises :
      (fs : Fields) (n : ℕ) (e : Exception) → copy_fields fs n ≡ raised e → Refusal e
  copy_fields-raises end n e h = cc
  copy_fields-raises (field k v rest) n e h =
      ground (arith, copy-raises v n e, copy_fields-raises rest n e)

  copy_items-raises : (xs : Items) (n : ℕ) (e : Exception) → copy_items xs n ≡ raised e → Refusal e
  copy_items-raises nil n e h = cc
  copy_items-raises (cons v rest) n e h =
      ground (arith, copy-raises v n e, copy_items-raises rest n e)

abbrev pub Acceptable : ℕ → Value → Type 0
Acceptable depth v = (is_dict v ≡ true) × (is_json v ≡ true) × (nesting v ≤ depth)

snapshot_accepts :
    (depth : ℕ) (v : Value)
    → Acceptable depth v
    → snapshot_failure_output depth (some v) ≡ ok (some v)
unfolding snapshot_failure_output
snapshot_accepts depth v (d, j, n) = rw (d, copy-accepts v depth j n)

-- The last lines of the function, from what the copy returned or raised.
guarded-cases :
    (d : Bool) (r : Outcome Value)
    → ((e : Exception) → r ≡ raised e → Refusal e)
    → ((c : Value) × (d ≡ true) × (r ≡ ok c) × (guarded_copy d r ≡ ok (some c)))
      ⊎ ((m : Text) × (guarded_copy d r ≡ raised (type_error m)))
unfolding message
guarded-cases true (ok c) known = inl (c, refl, refl, refl)
guarded-cases false (ok c) known = inr (_, refl)
guarded-cases false (raised e) known = inr (_, refl)
guarded-cases true (raised e) known = elim (known e refl) [
  | inl plain ↦ inr (message not_json, rw plain)
  | inr deep ↦ inr (nested, rw deep)
]

-- `snapshot_failure_output` copies `v` unchanged exactly when `v` is a JSON object (text keys,
-- finite numbers) that nests at most `depth` calls deep, and raises a `TypeError` otherwise.
pub snapshot_cases :
    (depth : ℕ) (v : Value)
    → ((snapshot_failure_output depth (some v) ≡ ok (some v)) × Acceptable depth v)
      ⊎ (((m : Text) × (snapshot_failure_output depth (some v) ≡ raised (type_error m)))
          × ¬ Acceptable depth v)
unfolding snapshot_failure_output
snapshot_cases depth v =
    elim (guarded-cases (is_dict v) (copy_json_value v depth) (copy-raises v depth)) [
      | inl (c, d, e, done) ↦
          let (same, j, n) = copy_sound v depth c e in inl (rw same at done, (d, j, n))
      | inr (m, refused) ↦ inr ((m, refused), λ (d, j, n). cc (snapshot_accepts depth v (d, j, n)))
    ]
