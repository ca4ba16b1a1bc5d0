-- ===== src/Value/Snapshot/Json.antt =====
-- `perago/failure_output.py`: JSON values, described without the copy, which accepts them.
use Prim.Native.Nat.{max}
use perago.Base.{ℕ, zero, suc, ◌≤◌, Bool, true, false, ◌&&◌, ◌≡◌, refl, arith}
use perago.Errors.{ok}
use perago.Value.{
  Value, none_value, str, bool, int, float, dict, list, other, Fields, end, field, Items, nil, cons,
  str_key, other_key,
}
use perago.Value.Snapshot.{copy_json_value, copy_fields, copy_items, all_str_keys}

-- `None`, text, Booleans, integers, finite floats, lists of these, and objects with text keys.
unfoldable mutual
  pub is_json : Value → Bool
  is_json none_value = true
  is_json (str s) = true
  is_json (bool b) = true
  is_json (int s m) = true
  is_json (float finite x) = finite
  is_json (dict fs) = are_json_fields fs
  is_json (list xs) = are_json xs
  is_json (other x) = false

  pub are_json_fields : Fields → Bool
  are_json_fields end = true
  are_json_fields (field (str_key k) v rest) = is_json v && are_json_fields rest
  are_json_fields (field (other_key k) v rest) = false

  pub are_json : Items → Bool
  are_json nil = true
  are_json (cons v rest) = is_json v && are_json rest

-- How many containers lie inside one another, the innermost value included.
unfoldable mutual
  pub nesting : Value → ℕ
  nesting none_value = 1
  nesting (str s) = 1
  nesting (bool b) = 1
  nesting (int s m) = 1
  nesting (float finite x) = 1
  nesting (dict fs) = suc (nesting_fields fs)
  nesting (list xs) = suc (nesting_items xs)
  nesting (other x) = 1

  pub nesting_fields : Fields → ℕ
  nesting_fields end = 0
  nesting_fields (field k v rest) = max (nesting v) (nesting_fields rest)

  pub nesting_items : Items → ℕ
  nesting_items nil = 0
  nesting_items (cons v rest) = max (nesting v) (nesting_items rest)

pub nesting-pos : (v : Value) → 1 ≤ nesting v
unfolding nesting
nesting-pos (dict fs) = omega arith
nesting-pos (list xs) = omega arith
nesting-pos _ = omega arith

pub str_keys : (fs : Fields) → are_json_fields fs ≡ true → all_str_keys fs ≡ true
unfolding is_json all_str_keys
str_keys end h = refl
str_keys (field (str_key k) v rest) h = str_keys rest (ground arith)
str_keys (field (other_key k) v rest) h = cc

mutual
  unfolding copy_json_value is_json nesting

  pub copy-accepts :
      (v : Value) (n : ℕ) → is_json v ≡ true → nesting v ≤ n → copy_json_value v n ≡ ok v
  copy-accepts none_value (suc n) h d = refl
  copy-accepts (str s) (suc n) h d = refl
  copy-accepts (bool b) (suc n) h d = refl
  copy-accepts (int s m) (suc n) h d = refl
  copy-accepts (float true x) (suc n) h d = refl
  copy-accepts (float false x) (suc n) h d = cc
  copy-accepts (dict fs) (suc n) h d =
      ground (arith, str_keys fs h, copy_fields-accepts fs n h (omega arith))
  copy-accepts (list xs) (suc n) h d = ground (arith, copy_items-accepts xs n h (omega arith))
  copy-accepts (other x) (suc n) h d = cc
  copy-accepts v zero h d = absurd (omega (arith, nesting-pos v))

  pub copy_fields-accepts :
      (fs : Fields) (n : ℕ)
      → are_json_fields fs ≡ true
      → nesting_fields fs ≤ n
      → copy_fields fs n ≡ ok fs
  copy_fields-accepts end n h d = refl
  copy_fields-accepts (field (str_key k) v rest) n h d =
      ground (arith, copy-accepts v n, copy_fields-accepts rest n)
  copy_fields-accepts (field (other_key k) v rest) n h d = cc

  pub copy_items-accepts :
      (xs : Items) (n : ℕ) → are_json xs ≡ true → nesting_items xs ≤ n → copy_items xs n ≡ ok xs
  copy_items-accepts nil n h d = refl
  copy_items-accepts (cons v rest) n h d =
      ground (arith, copy-accepts v n, copy_items-accepts rest n)
