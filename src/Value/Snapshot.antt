-- ===== src/Value/Snapshot.antt =====
-- `snapshot_failure_output` and `_copy_json_value` of `perago/failure_output.py`. The first number
-- is how many nested calls the interpreter still allows before it raises `RecursionError`.
pub mod Json
pub mod Accepts
use perago.Base.{ℕ, zero, suc, Bool, true, false, Option, none, some, Text, text, if◌then◌else◌}
use perago.Errors.{Exception, type_error, recursion_error, Outcome, ok, raised, ◌>>=◌}
use perago.Value.{
  Value, none_value, str, bool, int, float, dict, list, other, Fields, end, field, Items, nil, cons,
  Key, str_key, other_key,
}

-- `all(isinstance(key, str) for key in value)`
unfoldable pub all_str_keys : Fields → Bool
all_str_keys end = true
all_str_keys (field (str_key k) v rest) = all_str_keys rest
all_str_keys (field (other_key k) v rest) = false

abbrev pub not_json : Exception
not_json =
    type_error (text "output_data must contain only finite JSON values and string object keys")

abbrev pub too_deep : Exception
too_deep = recursion_error (text "maximum recursion depth exceeded")

abbrev pub then_dict : Outcome Fields → Outcome Value
then_dict copied = do fs ← copied; ok (dict fs)

abbrev pub then_list : Outcome Items → Outcome Value
then_list copied = do xs ← copied; ok (list xs)

abbrev pub then_field : Key → Outcome Value → Outcome Fields → Outcome Fields
then_field k item rest = do v ← item; fs ← rest; ok (field k v fs)

abbrev pub then_item : Outcome Value → Outcome Items → Outcome Items
then_item item rest = do v ← item; xs ← rest; ok (cons v xs)

unfoldable mutual
  unfolding all_str_keys

  pub copy_json_value : Value → ℕ → Outcome Value
  copy_json_value none_value zero = raised too_deep
  copy_json_value none_value (suc n) = ok none_value
  copy_json_value (str s) zero = raised too_deep
  copy_json_value (str s) (suc n) = ok (str s)
  copy_json_value (bool b) zero = raised too_deep
  copy_json_value (bool b) (suc n) = ok (bool b)
  copy_json_value (int s m) zero = raised too_deep
  copy_json_value (int s m) (suc n) = ok (int s m)
  copy_json_value (float finite x) zero = raised too_deep
  copy_json_value (float true x) (suc n) = ok (float true x)
  copy_json_value (float false x) (suc n) = raised not_json
  copy_json_value (dict fs) zero = raised too_deep
  copy_json_value (dict fs) (suc n) =
      let copied = copy_fields fs n in if all_str_keys fs then then_dict copied else raised not_json
  copy_json_value (list xs) zero = raised too_deep
  copy_json_value (list xs) (suc n) = then_list (copy_items xs n)
  copy_json_value (other x) zero = raised too_deep
  copy_json_value (other x) (suc n) = raised not_json

  copy_fields : Fields → ℕ → Outcome Fields
  copy_fields end n = ok end
  copy_fields (field k v rest) n = then_field k (copy_json_value v n) (copy_fields rest n)

  copy_items : Items → ℕ → Outcome Items
  copy_items nil n = ok nil
  copy_items (cons v rest) n = then_item (copy_json_value v n) (copy_items rest n)

abbrev pub nested : Text
nested = text "output_data must not contain cycles or excessive nesting"

-- `except RecursionError: raise TypeError(...)`
abbrev pub recursion_as_type_error : Outcome Value → Outcome Value
recursion_as_type_error (raised (recursion_error m)) = raised (type_error nested)
recursion_as_type_error r = r

-- `if not isinstance(value, dict)`
abbrev pub is_dict : Value → Bool
is_dict (dict fs) = true
is_dict v = false

abbrev pub guarded_copy : Bool → Outcome Value → Outcome (Option Value)
guarded_copy is_object copied =
    if is_object
    then (do v ← recursion_as_type_error copied; ok (some v))
    else raised (type_error (text "output_data must be a JSON object"))

unfoldable pub snapshot_failure_output : ℕ → Option Value → Outcome (Option Value)
unfolding copy_json_value
snapshot_failure_output depth none = ok none
snapshot_failure_output depth (some v) = guarded_copy (is_dict v) (copy_json_value v depth)
