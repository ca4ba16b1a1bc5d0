-- ===== src/TaskDef/Kept.antt =====
-- `perago/taskdef.py`: what the removal of generated metadata leaves.
use perago.Base.{
  Bool, true, false, ◌&&◌, not, some, Text, text, text_eq, text_in, text_eq_sound, List, [], ◌∷◌,
  if◌then◌else◌, ◌≡◌, refl, arith,
}
use perago.Value.{
  Value, none_value, str, bool, int, float, dict, list, other, Fields, end, field, Items, nil, cons,
  Key, str_key, other_key,
}
use perago.TaskDef.{get_field, is_key, key_in, strip_keys, strip_keys_fields, strip_keys_items}
use perago.TaskDef.Inlined.{is_reference, no_refs, no_refs_fields, no_refs_items}
use perago.TaskDef.Closed.{and_left, and_right, and_first}

abbrev pub title_keys : List Text
title_keys = text "title" ∷ []

abbrev pub mapping : List Text
mapping = text "properties" ∷ []

abbrev pub strip_titles : (in_mapping : Bool) → Value → Value
strip_titles m v = strip_keys title_keys mapping m v

ref_is_no_title : text_in (text "$ref") title_keys ≡ false
unfolding text_in text text_eq
ref_is_no_title = refl

ref_key : (k : Key) → is_key (text "$ref") k ≡ true → key_in k title_keys ≡ false
ref_key (str_key t) own =
    let e : text "$ref" ≡ t = text_eq_sound (text "$ref") t own in rw (← e) ref_is_no_title
ref_key (other_key n) own = refl

strip-kind :
    (m : Bool) (v : Value)
    → is_reference (some v) ≡ false
    → is_reference (some (strip_titles m v)) ≡ false
unfolding strip_keys
strip-kind m v h = ground arith

-- a field that may be dropped, if it is no reference
kept_field :
    (dropped : Bool) (k : Key) (w : Value) (ws : Fields) (o : Bool)
    → is_key (text "$ref") k ≡ o
    → (o ≡ true → dropped ≡ false)
    → (o ≡ true → is_reference (some w) ≡ false)
    → (o ≡ false → is_reference (get_field (text "$ref") ws) ≡ false)
    → is_reference (get_field (text "$ref") (if dropped then ws else field k w ws)) ≡ false
unfolding get_field
kept_field dropped k w ws true own a f g = rw (a refl) (rw own (f refl))
kept_field true k w ws false own a f g = g refl
kept_field false k w ws false own a f g = rw own (g refl)

key_kept :
    (m : Bool) (k : Key) → is_key (text "$ref") k ≡ true → (not m && key_in k title_keys) ≡ false
key_kept m k own = rw (ref_key k own) (ground arith)

get-strip :
    (m : Bool) (fs : Fields)
    → is_reference (get_field (text "$ref") fs) ≡ false
    → is_reference (get_field (text "$ref") (strip_keys_fields title_keys mapping m fs)) ≡ false
unfolding get_field strip_keys
get-strip m end h = refl
get-strip m (field k v rest) h =
    kept_field (not m && key_in k title_keys) k (strip_titles (key_in k mapping) v)
      (strip_keys_fields title_keys mapping m rest) (is_key (text "$ref") k) refl (key_kept m k)
      (λ own. strip-kind (key_in k mapping) v (rw own at h))
      (λ other. get-strip m rest (rw other at h))

no_refs_fields_if :
    (dropped : Bool) (k : Key) (w : Value) (ws : Fields)
    → no_refs w ≡ true
    → no_refs_fields ws ≡ true
    → no_refs_fields (if dropped then ws else field k w ws) ≡ true
unfolding no_refs
no_refs_fields_if true k w ws h g = g
no_refs_fields_if false k w ws h g = rw (h, g) refl

mutual
  unfolding no_refs strip_keys

  pub no_refs-strip : (m : Bool) (v : Value) → no_refs v ≡ true → no_refs (strip_titles m v) ≡ true
  no_refs-strip m (dict fs) h =
      let plain : is_reference (get_field (text "$ref") fs) ≡ false = and_left _ _ h in
      let plains : no_refs_fields fs ≡ true = and_right _ _ h in
      rw (get-strip m fs plain, no_refs_fields-strip m fs plains) refl
  no_refs-strip m (list xs) h = no_refs_items-strip m xs h
  no_refs-strip m none_value h = refl
  no_refs-strip m (str t) h = refl
  no_refs-strip m (bool b) h = refl
  no_refs-strip m (int sign n) h = refl
  no_refs-strip m (float finite n) h = refl
  no_refs-strip m (other n) h = refl

  no_refs_fields-strip :
      (m : Bool) (fs : Fields)
      → no_refs_fields fs ≡ true
      → no_refs_fields (strip_keys_fields title_keys mapping m fs) ≡ true
  no_refs_fields-strip m end h = refl
  no_refs_fields-strip m (field k v rest) h =
      no_refs_fields_if (not m && key_in k title_keys) k _ _
        (no_refs-strip (key_in k mapping) v (and_first (no_refs v) _ h))
        (no_refs_fields-strip m rest (and_right (no_refs v) _ h))

  no_refs_items-strip :
      (m : Bool) (xs : Items)
      → no_refs_items xs ≡ true
      → no_refs_items (strip_keys_items title_keys mapping m xs) ≡ true
  no_refs_items-strip m nil h = refl
  no_refs_items-strip m (cons v rest) h =
      rw
        (
          no_refs-strip m v (and_first (no_refs v) _ h),
          no_refs_items-strip m rest (and_right (no_refs v) _ h),
        )
        refl
