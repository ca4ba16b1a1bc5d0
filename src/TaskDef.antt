-- ===== src/TaskDef.antt =====
-- `perago/taskdef.py`: the JSON schema of a model, from what pydantic gives to what Conductor gets. A
-- function that changes a dictionary in place returns the changed one.
pub mod Closed
pub mod Inlined
pub mod Kept
pub mod Titles
pub mod Schemas
pub mod Build
pub mod Built
use perago.Base.{
  ℕ, zero, suc, Bool, true, false, ◌&&◌, ◌||◌, not, Option, none, some, Text, text, text_eq,
  text_in, List, [], ◌∷◌, ◌++◌, strip_prefix, if◌then◌else◌,
}
use perago.Errors.{
  recursion_error, type_error, attribute_error, other_error, Outcome, ok, raised, ◌>>=◌,
}
use perago.Value.{
  Value, none_value, str, bool, int, float, dict, list, other, Fields, end, field, Items, nil, cons,
  Key, str_key, other_key,
}

abbrev pub is_key : (name : Text) → Key → Bool
is_key name (str_key k) = text_eq name k
is_key name (other_key n) = false

-- `schema.get(name)`
unfoldable pub get_field : (name : Text) → Fields → Option Value
get_field name end = none
get_field name (field k v rest) =
    let later = get_field name rest in if is_key name k then some v else later

-- `schema[name] = value`
unfoldable pub put_field : (name : Text) → Value → Fields → Fields
put_field name value end = field (str_key name) value end
put_field name value (field k v rest) =
    let later = put_field name value rest in
    if is_key name k then field k value rest else field k v later

-- `schema.pop(name, None)`
unfoldable pub pop_field : (name : Text) → Fields → Fields
pop_field name end = end
pop_field name (field k v rest) =
    let later = pop_field name rest in if is_key name k then later else field k v later

abbrev pub put_key : Key → Value → Fields → Fields
put_key (str_key name) value fs = put_field name value fs
put_key (other_key n) value fs = field (other_key n) value fs

-- `replacement.update(siblings)`
unfoldable pub update_fields : Fields → Fields → Fields
unfolding put_field
update_fields fs end = fs
update_fields fs (field k v rest) = update_fields (put_key k v fs) rest

abbrev pub ref_prefix : Text
ref_prefix = text "#/$defs/"

-- the name behind a `$ref` to a definition
abbrev pub ref_name : Option Value → Option Text
ref_name (some (str t)) = strip_prefix ref_prefix t
ref_name value = none

-- a KeyError, whose text is the quoted name
abbrev pub found : (name : Text) → Option Value → Outcome Value
found name none = raised (other_error (39 ∷ name ++ 39 ∷ []))
found name (some value) = ok value

-- `defs[name]`; the text of the TypeError is left aside
abbrev pub definition : (name : Text) (defs : Value) → Outcome Value
definition name (dict fs) = found name (get_field name fs)
definition name defs = raised (type_error (text "object is not subscriptable"))

-- `replacement.update(siblings)` on what `defs` holds, which may be no dictionary
abbrev pub updated : Value → Fields → Outcome Value
updated (dict fs) siblings = ok (dict (update_fields fs siblings))
updated value siblings = raised (attribute_error (text "object has no attribute 'update'"))

-- The cases of `visit` in `_inline_refs`; `nested` is its call of itself.
module _ (nested : Value → Outcome Value) where
  unfoldable pub visit_fields : Fields → Outcome Fields
  visit_fields end = ok end
  visit_fields (field k v rest) = do
    visited ← nested v
    later ← visit_fields rest
    ok (field k visited later)

  unfoldable pub visit_items : Items → Outcome Items
  visit_items nil = ok nil
  visit_items (cons v rest) = do
    visited ← nested v
    later ← visit_items rest
    ok (cons visited later)

  abbrev pub visit_dict : (defs : Value) → Option Text → Fields → Outcome Value
  visit_dict defs none fs = do visited ← visit_fields fs; ok (dict visited)
  visit_dict defs (some name) fs = do
    replacement ← definition name defs
    siblings ← visit_fields (pop_field (text "$ref") fs)
    merged ← updated replacement siblings
    nested merged

  abbrev pub visit_list : Items → Outcome Value
  visit_list xs = do visited ← visit_items xs; ok (list visited)

  abbrev pub visit_value : (defs : Value) → Value → Outcome Value
  visit_value defs (dict fs) = visit_dict defs (ref_name (get_field (text "$ref") fs)) fs
  visit_value defs (list xs) = visit_list xs
  visit_value defs value = ok value

-- `visit`; `depth` is the number of nested calls that Python allows.
unfoldable pub visit : (depth : ℕ) (defs : Value) → Value → Outcome Value
unfolding visit_fields visit_items
visit zero defs value = raised (recursion_error (text "maximum recursion depth exceeded"))
visit (suc depth) defs value = visit_value (λ v. visit depth defs v) defs value

-- `copied.pop("$defs", {})`
abbrev pub defs_of : Option Value → Value
defs_of none = dict end
defs_of (some defs) = defs

unfoldable pub inline_refs : (depth : ℕ) → Fields → Outcome Value
unfolding visit get_field pop_field
inline_refs depth schema =
    visit depth (defs_of (get_field (text "$defs") schema)) (dict (pop_field (text "$defs") schema))

abbrev pub is_dict : Option Value → Bool
is_dict (some (dict fs)) = true
is_dict value = false

-- `schema.get("type") == "object"`
abbrev pub is_text : (t : Text) → Option Value → Bool
is_text t (some (str s)) = text_eq s t
is_text t value = false

abbrev pub is_object : Fields → Bool
is_object fs = is_text (text "object") (get_field (text "type") fs)

abbrev pub is_object_schema : Fields → Bool
is_object_schema fs = is_object fs && is_dict (get_field (text "properties") fs)

-- The fields of an object schema with the mark; those behind it have theirs already.
abbrev pub marked : (allow_extra : Bool) (is_schema : Bool) → Fields → Fields
marked allow_extra is_schema fs =
    if is_schema then put_field (text "additionalProperties") (bool allow_extra) fs else fs

-- `_set_object_schema_extra`
unfoldable mutual
  pub set_extra : (allow_extra : Bool) → Value → Value
  set_extra allow (dict fs) = dict (marked allow (is_object_schema fs) (set_extra_fields allow fs))
  set_extra allow (list xs) = list (set_extra_items allow xs)
  set_extra allow none_value = none_value
  set_extra allow (str t) = str t
  set_extra allow (bool b) = bool b
  set_extra allow (int sign n) = int sign n
  set_extra allow (float finite n) = float finite n
  set_extra allow (other n) = other n

  pub set_extra_fields : (allow_extra : Bool) → Fields → Fields
  set_extra_fields allow end = end
  set_extra_fields allow (field k v rest) =
      field k (set_extra allow v) (set_extra_fields allow rest)

  pub set_extra_items : (allow_extra : Bool) → Items → Items
  set_extra_items allow nil = nil
  set_extra_items allow (cons v rest) = cons (set_extra allow v) (set_extra_items allow rest)

abbrev pub key_in : Key → List Text → Bool
key_in (str_key name) names = text_in name names
key_in (other_key n) names = false

-- `_strip_schema_metadata_keys`, the function `visit`
unfoldable mutual
  pub strip_keys : (keys mapping_keys : List Text) (in_mapping : Bool) → Value → Value
  strip_keys keys mapping_keys m (dict fs) = dict (strip_keys_fields keys mapping_keys m fs)
  strip_keys keys mapping_keys m (list xs) = list (strip_keys_items keys mapping_keys m xs)
  strip_keys keys mapping_keys m none_value = none_value
  strip_keys keys mapping_keys m (str t) = str t
  strip_keys keys mapping_keys m (bool b) = bool b
  strip_keys keys mapping_keys m (int sign n) = int sign n
  strip_keys keys mapping_keys m (float finite n) = float finite n
  strip_keys keys mapping_keys m (other n) = other n

  pub strip_keys_fields : (keys mapping_keys : List Text) (in_mapping : Bool) → Fields → Fields
  strip_keys_fields keys mapping_keys m end = end
  strip_keys_fields keys mapping_keys m (field k v rest) =
      let stripped = strip_keys keys mapping_keys (key_in k mapping_keys) v in
      let later = strip_keys_fields keys mapping_keys m rest in
      if not m && key_in k keys then later else field k stripped later

  pub strip_keys_items : (keys mapping_keys : List Text) (in_mapping : Bool) → Items → Items
  strip_keys_items keys mapping_keys m nil = nil
  strip_keys_items keys mapping_keys m (cons v rest) =
      cons (strip_keys keys mapping_keys m v) (strip_keys_items keys mapping_keys m rest)

abbrev pub structural_keys : List Text
structural_keys =
    text "$defs"
    ∷ text "additionalProperties"
    ∷ text "properties"
    ∷ text "required"
    ∷ text "type"
    ∷ []

-- `_strip_object_schema_metadata`
unfoldable pub strip_object_metadata : Fields → Fields
strip_object_metadata end = end
strip_object_metadata (field k v rest) =
    let later = strip_object_metadata rest in
    if key_in k structural_keys then field k v later else later

abbrev pub strip_definition : Value → Value
strip_definition (dict fs) = dict (if is_object fs then strip_object_metadata fs else fs)
strip_definition value = value

abbrev pub strip_definitions : Fields → Fields
strip_definitions end = end
strip_definitions (field k v rest) = field k (strip_definition v) (strip_definitions rest)

-- the loop over `$defs`, unless it is no dictionary
abbrev pub strip_defs : Option Value → Fields → Fields
strip_defs (some (dict fs)) schema = put_field (text "$defs") (dict (strip_definitions fs)) schema
strip_defs defs schema = schema

-- `_strip_model_schema_metadata`
unfoldable pub strip_model_metadata : Fields → Fields
unfolding strip_object_metadata
strip_model_metadata schema =
    let stripped = strip_object_metadata schema in
    strip_defs (get_field (text "$defs") stripped) stripped

-- what becomes of the inlined schema
abbrev pub finished : (allow_extra : Bool) → Value → Value
finished allow_extra inlined =
    set_extra allow_extra (strip_keys (text "title" ∷ []) (text "properties" ∷ []) false inlined)

-- `schema` is `model.model_json_schema()`.
unfoldable pub schema_for_model : (depth : ℕ) (schema : Fields) (allow_extra : Bool) → Outcome Value
unfolding strip_model_metadata inline_refs set_extra strip_keys
schema_for_model depth schema allow_extra = do
  inlined ← inline_refs depth (strip_model_metadata schema)
  ok (finished allow_extra inlined)
