-- ===== src/TaskDef/Closed.antt =====
-- `perago/taskdef.py`: what `_set_object_schema_extra` sets, and what it keeps.
use perago.Base.{
  Bool, true, false, ◌&&◌, ◌||◌, not, Option, none, some, Text, text, text_eq, text_eq_refl,
  text_eq_sound, if◌then◌else◌, ◌≡◌, refl, ap, ◌∙◌, arith, Bool-cases, inl, inr,
}
use perago.Value.{
  Value, none_value, str, bool, int, float, dict, list, other, Fields, end, field, Items, nil, cons,
  Key, str_key, other_key,
}
use perago.TaskDef.{
  get_field, put_field, is_key, is_text, is_dict, is_object_schema, marked, set_extra,
  set_extra_fields, set_extra_items,
}
use perago.TaskDef.Inlined.{is_reference, no_refs, no_refs_fields, no_refs_items}

abbrev pub is_bool : (b : Bool) → Option Value → Bool
is_bool true (some (bool b)) = b
is_bool false (some (bool b)) = not b
is_bool b value = false

-- Every object schema says whether it allows other properties, as the model does.
unfoldable mutual
  pub closed : (allow_extra : Bool) → Value → Bool
  closed allow (dict fs) =
      (not (is_object_schema fs) || is_bool allow (get_field (text "additionalProperties") fs))
      && closed_fields allow fs
  closed allow (list xs) = closed_items allow xs
  closed allow none_value = true
  closed allow (str t) = true
  closed allow (bool b) = true
  closed allow (int sign n) = true
  closed allow (float finite n) = true
  closed allow (other n) = true

  pub closed_fields : (allow_extra : Bool) → Fields → Bool
  closed_fields allow end = true
  closed_fields allow (field k v rest) = closed allow v && closed_fields allow rest

  pub closed_items : (allow_extra : Bool) → Items → Bool
  closed_items allow nil = true
  closed_items allow (cons v rest) = closed allow v && closed_items allow rest

get-put : (name : Text) (v : Value) (fs : Fields) → get_field name (put_field name v fs) ≡ some v
unfolding get_field put_field
get-put name v end = rw (text_eq_refl name) refl
get-put name v (field k u rest) = elim (Bool-cases (is_key name k)) [
  | inl own ↦ rw (own, own) refl
  | inr different ↦ rw (different, different) (get-put name v rest)
]

other_key_name :
    (name set : Text) (k : Key)
    → is_key set k ≡ true
    → text_eq name set ≡ false
    → is_key name k ≡ false
other_key_name name set (str_key t) own h = let e : set ≡ t = text_eq_sound set t own in rw (← e) h
other_key_name name set (other_key n) own h = refl

get-put_other :
    (name set : Text) (v : Value) (fs : Fields)
    → text_eq name set ≡ false
    → get_field name (put_field set v fs) ≡ get_field name fs
unfolding get_field put_field
get-put_other name set v end h = rw h refl
get-put_other name set v (field k u rest) h = elim (Bool-cases (is_key set k)) [
  | inl own ↦ rw (own, other_key_name name set k own h) refl
  | inr different ↦ rw different (
      ap (λ (o : Option Value). if is_key name k then some u else o)
        (get-put_other name set v rest h))
]

closed_fields-put :
    (allow : Bool) (name : Text) (v : Value) (fs : Fields)
    → closed allow v ≡ true
    → closed_fields allow fs ≡ true
    → closed_fields allow (put_field name v fs) ≡ true
unfolding closed put_field
closed_fields-put allow name v end h g = rw h refl
closed_fields-put allow name v (field k u rest) h g =
    ground (arith, closed_fields-put allow name v rest h)

pub no_refs_fields-put :
    (name : Text) (v : Value) (fs : Fields)
    → no_refs v ≡ true
    → no_refs_fields fs ≡ true
    → no_refs_fields (put_field name v fs) ≡ true
unfolding no_refs put_field
no_refs_fields-put name v end h g = rw h refl
no_refs_fields-put name v (field k u rest) h g = ground (arith, no_refs_fields-put name v rest h)

abbrev after : (Value → Value) → Option Value → Option Value
after f none = none
after f (some v) = some (f v)

get-set_extra :
    (allow : Bool) (name : Text) (fs : Fields)
    → get_field name (set_extra_fields allow fs) ≡ after (set_extra allow) (get_field name fs)
unfolding get_field set_extra
get-set_extra allow name end = refl
get-set_extra allow name (field k v rest) = elim (Bool-cases (is_key name k)) [
  | inl own ↦ rw own refl
  | inr different ↦ rw different (get-set_extra allow name rest)
]

is_text-after :
    (allow : Bool) (t : Text) (o : Option Value)
    → is_text t (after (set_extra allow) o) ≡ is_text t o
unfolding set_extra
is_text-after allow t o = ground arith

is_dict-after : (allow : Bool) (o : Option Value) → is_dict (after (set_extra allow) o) ≡ is_dict o
unfolding set_extra
is_dict-after allow o = ground arith

is_object_schema-set_extra :
    (allow : Bool) (fs : Fields)
    → is_object_schema (set_extra_fields allow fs) ≡ is_object_schema fs
is_object_schema-set_extra allow fs =
    rw
      (
        get-set_extra allow (text "type") fs,
        get-set_extra allow (text "properties") fs,
        is_text-after allow (text "object") (get_field (text "type") fs),
        is_dict-after allow (get_field (text "properties") fs),
      )
      refl

is_bool-same : (b : Bool) → is_bool b (some (bool b)) ≡ true
is_bool-same true = refl
is_bool-same false = refl

-- the fields of a dictionary whose parts are closed, with the mark where it belongs
closed-marked :
    (allow is_schema : Bool) (fs : Fields)
    → is_object_schema fs ≡ is_schema
    → closed_fields allow fs ≡ true
    → closed allow (dict (marked allow is_schema fs)) ≡ true
unfolding closed
closed-marked allow false fs e h = rw (e, h) refl
closed-marked allow true fs e h =
    rw
      (
        get-put (text "additionalProperties") (bool allow) fs,
        is_bool-same allow,
        closed_fields-put allow (text "additionalProperties") (bool allow) fs refl h,
      )
      (ground arith)

mutual
  unfolding closed set_extra

  pub closed-set_extra : (allow : Bool) (v : Value) → closed allow (set_extra allow v) ≡ true
  closed-set_extra allow (dict fs) =
      closed-marked allow (is_object_schema fs) (set_extra_fields allow fs)
        (is_object_schema-set_extra allow fs) (closed_fields-set_extra allow fs)
  closed-set_extra allow (list xs) = closed_items-set_extra allow xs
  closed-set_extra allow none_value = refl
  closed-set_extra allow (str t) = refl
  closed-set_extra allow (bool b) = refl
  closed-set_extra allow (int sign n) = refl
  closed-set_extra allow (float finite n) = refl
  closed-set_extra allow (other n) = refl

  closed_fields-set_extra :
      (allow : Bool) (fs : Fields) → closed_fields allow (set_extra_fields allow fs) ≡ true
  closed_fields-set_extra allow end = refl
  closed_fields-set_extra allow (field k v rest) =
      rw (closed-set_extra allow v, closed_fields-set_extra allow rest) refl

  closed_items-set_extra :
      (allow : Bool) (xs : Items) → closed_items allow (set_extra_items allow xs) ≡ true
  closed_items-set_extra allow nil = refl
  closed_items-set_extra allow (cons v rest) =
      rw (closed-set_extra allow v, closed_items-set_extra allow rest) refl

ref_name-after :
    (allow : Bool) (o : Option Value) → is_reference (after (set_extra allow) o) ≡ is_reference o
unfolding set_extra
ref_name-after allow o = ground arith

ref_is_no_mark : text_eq (text "$ref") (text "additionalProperties") ≡ false
unfolding text text_eq
ref_is_no_mark = refl

no_refs-marked :
    (allow is_schema : Bool) (fs : Fields)
    → is_reference (get_field (text "$ref") fs) ≡ false
    → no_refs_fields fs ≡ true
    → no_refs (dict (marked allow is_schema fs)) ≡ true
unfolding no_refs
no_refs-marked allow false fs e h = rw (e, h) refl
no_refs-marked allow true fs e h =
    rw
      (
        get-put_other (text "$ref") (text "additionalProperties") (bool allow) fs ref_is_no_mark,
        e,
        no_refs_fields-put (text "additionalProperties") (bool allow) fs refl h,
      )
      refl

pub and_left : (a b : Bool) → (not a && b) ≡ true → a ≡ false
and_left a b h = ground arith

pub and_right : (a b : Bool) → (a && b) ≡ true → b ≡ true
and_right a b h = ground arith

pub and_first : (a b : Bool) → (a && b) ≡ true → a ≡ true
and_first a b h = ground arith

mutual
  unfolding no_refs set_extra

  pub no_refs-set_extra :
      (allow : Bool) (v : Value) → no_refs v ≡ true → no_refs (set_extra allow v) ≡ true
  no_refs-set_extra allow (dict fs) h =
      no_refs-marked allow (is_object_schema fs) (set_extra_fields allow fs)
        (ap is_reference (get-set_extra allow (text "$ref") fs)
          ∙ (ref_name-after allow (get_field (text "$ref") fs) ∙ and_left _ _ h))
        (no_refs_fields-set_extra allow fs (and_right _ _ h))
  no_refs-set_extra allow (list xs) h = no_refs_items-set_extra allow xs h
  no_refs-set_extra allow none_value h = refl
  no_refs-set_extra allow (str t) h = refl
  no_refs-set_extra allow (bool b) h = refl
  no_refs-set_extra allow (int sign n) h = refl
  no_refs-set_extra allow (float finite n) h = refl
  no_refs-set_extra allow (other n) h = refl

  no_refs_fields-set_extra :
      (allow : Bool) (fs : Fields)
      → no_refs_fields fs ≡ true
      → no_refs_fields (set_extra_fields allow fs) ≡ true
  no_refs_fields-set_extra allow end h = refl
  no_refs_fields-set_extra allow (field k v rest) h =
      rw
        (
          no_refs-set_extra allow v (and_first (no_refs v) _ h),
          no_refs_fields-set_extra allow rest (and_right (no_refs v) _ h),
        )
        refl

  no_refs_items-set_extra :
      (allow : Bool) (xs : Items)
      → no_refs_items xs ≡ true
      → no_refs_items (set_extra_items allow xs) ≡ true
  no_refs_items-set_extra allow nil h = refl
  no_refs_items-set_extra allow (cons v rest) h =
      rw
        (
          no_refs-set_extra allow v (and_first (no_refs v) _ h),
          no_refs_items-set_extra allow rest (and_right (no_refs v) _ h),
        )
        refl
