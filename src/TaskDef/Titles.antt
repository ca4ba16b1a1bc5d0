-- ===== src/TaskDef/Titles.antt =====
-- `perago/taskdef.py`: the schema of a model has no titles.
use perago.Base.{
  Bool, true, false, ◌&&◌, not, text, text_eq, text_in, if◌then◌else◌, ◌≡◌, refl, arith,
}
use perago.Value.{
  Value, none_value, str, bool, int, float, dict, list, other, Fields, end, field, Items, nil, cons,
  Key,
}
use perago.TaskDef.{
  put_field, key_in, is_object_schema, marked, set_extra, set_extra_fields, set_extra_items,
  strip_keys, strip_keys_fields, strip_keys_items,
}
use perago.TaskDef.Closed.{and_right, and_first}
use perago.TaskDef.Kept.{title_keys, mapping, strip_titles}

-- No title but the name of a property is left.
unfoldable mutual
  pub untitled : (in_mapping : Bool) → Value → Bool
  untitled m (dict fs) = untitled_fields m fs
  untitled m (list xs) = untitled_items m xs
  untitled m none_value = true
  untitled m (str t) = true
  untitled m (bool b) = true
  untitled m (int sign n) = true
  untitled m (float finite n) = true
  untitled m (other n) = true

  pub untitled_fields : (in_mapping : Bool) → Fields → Bool
  untitled_fields m end = true
  untitled_fields m (field k v rest) =
      not (not m && key_in k title_keys)
      && (untitled (key_in k mapping) v && untitled_fields m rest)

  pub untitled_items : (in_mapping : Bool) → Items → Bool
  untitled_items m nil = true
  untitled_items m (cons v rest) = untitled m v && untitled_items m rest

untitled_fields_if :
    (m dropped : Bool) (k : Key) (w : Value) (ws : Fields)
    → (not m && key_in k title_keys) ≡ dropped
    → untitled (key_in k mapping) w ≡ true
    → untitled_fields m ws ≡ true
    → untitled_fields m (if dropped then ws else field k w ws) ≡ true
unfolding untitled
untitled_fields_if m true k w ws e h g = g
untitled_fields_if m false k w ws e h g = rw (e, h, g) refl

mutual
  unfolding untitled strip_keys

  pub untitled-strip : (m : Bool) (v : Value) → untitled m (strip_titles m v) ≡ true
  untitled-strip m (dict fs) = untitled_fields-strip m fs
  untitled-strip m (list xs) = untitled_items-strip m xs
  untitled-strip m none_value = refl
  untitled-strip m (str t) = refl
  untitled-strip m (bool b) = refl
  untitled-strip m (int sign n) = refl
  untitled-strip m (float finite n) = refl
  untitled-strip m (other n) = refl

  untitled_fields-strip :
      (m : Bool) (fs : Fields)
      → untitled_fields m (strip_keys_fields title_keys mapping m fs) ≡ true
  untitled_fields-strip m end = refl
  untitled_fields-strip m (field k v rest) =
      untitled_fields_if m (not m && key_in k title_keys) k _ _ refl
        (untitled-strip (key_in k mapping) v) (untitled_fields-strip m rest)

  untitled_items-strip :
      (m : Bool) (xs : Items) → untitled_items m (strip_keys_items title_keys mapping m xs) ≡ true
  untitled_items-strip m nil = refl
  untitled_items-strip m (cons v rest) = rw (untitled-strip m v, untitled_items-strip m rest) refl

mark_is_no_title : text_in (text "additionalProperties") title_keys ≡ false
unfolding text_in text text_eq
mark_is_no_title = refl

untitled_fields-put :
    (m b : Bool) (fs : Fields)
    → untitled_fields m fs ≡ true
    → untitled_fields m (put_field (text "additionalProperties") (bool b) fs) ≡ true
unfolding untitled put_field
untitled_fields-put m b end h = rw mark_is_no_title (ground arith)
untitled_fields-put m b (field k v rest) h = ground (arith, untitled_fields-put m b rest)

untitled-marked :
    (m b is_schema : Bool) (fs : Fields)
    → untitled_fields m fs ≡ true
    → untitled m (dict (marked b is_schema fs)) ≡ true
unfolding untitled
untitled-marked m b false fs h = h
untitled-marked m b true fs h = untitled_fields-put m b fs h

mutual
  unfolding untitled set_extra

  pub untitled-set_extra :
      (m b : Bool) (v : Value) → untitled m v ≡ true → untitled m (set_extra b v) ≡ true
  untitled-set_extra m b (dict fs) h =
      untitled-marked m b (is_object_schema fs) _ (untitled_fields-set_extra m b fs h)
  untitled-set_extra m b (list xs) h = untitled_items-set_extra m b xs h
  untitled-set_extra m b none_value h = refl
  untitled-set_extra m b (str t) h = refl
  untitled-set_extra m b (bool c) h = refl
  untitled-set_extra m b (int sign n) h = refl
  untitled-set_extra m b (float finite n) h = refl
  untitled-set_extra m b (other n) h = refl

  untitled_fields-set_extra :
      (m b : Bool) (fs : Fields)
      → untitled_fields m fs ≡ true
      → untitled_fields m (set_extra_fields b fs) ≡ true
  untitled_fields-set_extra m b end h = refl
  untitled_fields-set_extra m b (field k v rest) h =
      let last = and_right (not (not m && key_in k title_keys)) _ h in
      rw
        (
          and_first (not (not m && key_in k title_keys)) _ h,
          untitled-set_extra (key_in k mapping) b v
              (and_first (untitled (key_in k mapping) v) _ last),
          untitled_fields-set_extra m b rest (and_right (untitled (key_in k mapping) v) _ last),
        )
        refl

  untitled_items-set_extra :
      (m b : Bool) (xs : Items)
      → untitled_items m xs ≡ true
      → untitled_items m (set_extra_items b xs) ≡ true
  untitled_items-set_extra m b nil h = refl
  untitled_items-set_extra m b (cons v rest) h =
      rw
        (
          untitled-set_extra m b v (and_first (untitled m v) _ h),
          untitled_items-set_extra m b rest (and_right (untitled m v) _ h),
        )
        refl
