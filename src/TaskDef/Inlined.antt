-- ===== src/TaskDef/Inlined.antt =====
-- `perago/taskdef.py`: what `_inline_refs` leaves.
use perago.Base.{
  ℕ, zero, suc, Bool, true, false, ◌&&◌, not, Option, none, some, Text, text, if◌then◌else◌, ◌≡◌,
  refl,
}
use perago.Errors.{Outcome, ok, >>=-eq-ok}
use perago.Value.{
  Value, none_value, str, bool, int, float, dict, list, other, Fields, end, field, Items, nil, cons,
}
use perago.Config.Loaded.{ok-injective}
use perago.TaskDef.{
  get_field, pop_field, update_fields, definition, is_key, ref_name, updated, visit_fields,
  visit_items, visit_dict, visit_list, visit,
}

abbrev pub is_some {ℓ} : {A : Type ℓ} → Option A → Bool
is_some none = false
is_some (some a) = true

abbrev pub is_reference : Option Value → Bool
is_reference o = is_some (ref_name o)

-- No dictionary of the value refers to a definition.
unfoldable mutual
  pub no_refs : Value → Bool
  no_refs (dict fs) = not (is_reference (get_field (text "$ref") fs)) && no_refs_fields fs
  no_refs (list xs) = no_refs_items xs
  no_refs none_value = true
  no_refs (str t) = true
  no_refs (bool b) = true
  no_refs (int sign n) = true
  no_refs (float finite n) = true
  no_refs (other n) = true

  pub no_refs_fields : Fields → Bool
  no_refs_fields end = true
  no_refs_fields (field k v rest) = no_refs v && no_refs_fields rest

  pub no_refs_items : Items → Bool
  no_refs_items nil = true
  no_refs_items (cons v rest) = no_refs v && no_refs_items rest

-- A visited value is as the original where it is no container, and refers to nothing.
abbrev Visits : (nested : Value → Outcome Value) → Type 0
Visits nested =
    (v w : Value)
    → nested v ≡ ok w
    → (no_refs w ≡ true) × (is_reference (some v) ≡ false → is_reference (some w) ≡ false)

pub chosen :
    (b : Bool) (v w : Value) (o p : Option Value)
    → (is_reference (some v) ≡ false → is_reference (some w) ≡ false)
    → (is_reference o ≡ false → is_reference p ≡ false)
    → is_reference (if b then some v else o) ≡ false
    → is_reference (if b then some w else p) ≡ false
chosen true v w o p f g h = f h
chosen false v w o p f g h = g h

module _ (nested : Value → Outcome Value) (visits : Visits nested) where
  fields-refs :
      (fs ws : Fields)
      → visit_fields nested fs ≡ ok ws
      → (no_refs_fields ws ≡ true)
        × (is_reference (get_field (text "$ref") fs) ≡ false
            → is_reference (get_field (text "$ref") ws) ≡ false)
  unfolding visit_fields no_refs get_field
  fields-refs end ws h = let e : end ≡ ws = ok-injective h in rw (← e) (refl, λ x. refl)
  fields-refs (field k v rest) ws h =
      let (w, e1, h1) = >>=-eq-ok (nested v) _ h in
      let (later, e2, h2) = >>=-eq-ok (visit_fields nested rest) _ h1 in
      let e : field k w later ≡ ws = ok-injective h2 in
      let (plain, kept) = visits v w e1 in
      let (plains, keeps) = fields-refs rest later e2 in
      rw (← e) (rw (plain, plains) refl, chosen (is_key (text "$ref") k) v w _ _ kept keeps)

  items-refs : (xs ys : Items) → visit_items nested xs ≡ ok ys → no_refs_items ys ≡ true
  unfolding visit_items no_refs
  items-refs nil ys h = let e : nil ≡ ys = ok-injective h in rw (← e) refl
  items-refs (cons v rest) ys h =
      let (w, e1, h1) = >>=-eq-ok (nested v) _ h in
      let (later, e2, h2) = >>=-eq-ok (visit_items nested rest) _ h1 in
      let e : cons w later ≡ ys = ok-injective h2 in
      rw (← e) (rw ((visits v w e1).0, items-refs rest later e2) refl)

  -- what `update` gives is a dictionary
  merged-refs :
      (r : Value) (siblings : Fields) (m w : Value)
      → updated r siblings ≡ ok m
      → nested m ≡ ok w
      → (no_refs w ≡ true) × (is_reference (some w) ≡ false)
  merged-refs (dict fs) siblings m w h e =
      let made : dict (update_fields fs siblings) ≡ m = ok-injective h in
      let (plain, kept) = visits m w e in (plain, kept (rw (← made) refl))
  merged-refs none_value siblings m w h e = cc
  merged-refs (str t) siblings m w h e = cc
  merged-refs (bool b) siblings m w h e = cc
  merged-refs (int sign n) siblings m w h e = cc
  merged-refs (float finite n) siblings m w h e = cc
  merged-refs (list xs) siblings m w h e = cc
  merged-refs (other n) siblings m w h e = cc

  dict-refs :
      (defs : Value) (o : Option Text) (fs : Fields) (w : Value)
      → ref_name (get_field (text "$ref") fs) ≡ o
      → visit_dict nested defs o fs ≡ ok w
      → (no_refs w ≡ true) × (is_reference (some w) ≡ false)
  unfolding no_refs
  dict-refs defs none fs w own h =
      let (ws, e1, h1) = >>=-eq-ok (visit_fields nested fs) _ h in
      let (plains, keeps) = fields-refs fs ws e1 in
      let e : dict ws ≡ w = ok-injective h1 in
      rw (← e) (rw (plains, keeps (rw own refl)) refl, refl)
  dict-refs defs (some name) fs w own h =
      let (r, e1, h1) = >>=-eq-ok (definition name defs) _ h in
      let (siblings, e2, h2) = >>=-eq-ok (visit_fields nested (pop_field (text "$ref") fs)) _ h1 in
      let (m, e3, h3) = >>=-eq-ok (updated r siblings) _ h2 in merged-refs r siblings m w e3 h3

  list-refs :
      (xs : Items) (w : Value)
      → visit_list nested xs ≡ ok w
      → (no_refs w ≡ true) × (is_reference (some w) ≡ false)
  unfolding no_refs
  list-refs xs w h =
      let (ys, e1, h1) = >>=-eq-ok (visit_items nested xs) _ h in
      let e : list ys ≡ w = ok-injective h1 in rw (← e) (items-refs xs ys e1, refl)

itself :
    (v w : Value)
    → no_refs v ≡ true
    → ok v ≡ ok w
    → (no_refs w ≡ true) × (is_reference (some v) ≡ false → is_reference (some w) ≡ false)
itself v w plain h = let e : v ≡ w = ok-injective h in rw (← e) (plain, λ x. x)

-- Whatever the schema and its definitions are: a value that `visit` returns refers to no definition.
pub visit-Visits : (depth : ℕ) (defs : Value) → Visits (λ v. visit depth defs v)
unfolding visit no_refs
visit-Visits zero defs v w h = cc
visit-Visits (suc depth) defs (dict fs) w h =
    let (plain, kind) =
      dict-refs (λ v. visit depth defs v) (visit-Visits depth defs) defs _ fs w refl h in
    (plain, λ x. kind)
visit-Visits (suc depth) defs (list xs) w h =
    let (plain, kind) = list-refs (λ v. visit depth defs v) (visit-Visits depth defs) xs w h in
    (plain, λ x. kind)
visit-Visits (suc depth) defs none_value w h = itself none_value w refl h
visit-Visits (suc depth) defs (str t) w h = itself (str t) w refl h
visit-Visits (suc depth) defs (bool b) w h = itself (bool b) w refl h
visit-Visits (suc depth) defs (int sign n) w h = itself (int sign n) w refl h
visit-Visits (suc depth) defs (float finite n) w h = itself (float finite n) w refl h
visit-Visits (suc depth) defs (other n) w h = itself (other n) w refl h
