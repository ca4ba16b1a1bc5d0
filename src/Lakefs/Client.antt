-- ===== src/Lakefs/Client.antt =====
-- The LakeFS client and the local files, as the adapter calls them. `S` is the state of the world;
-- a call may raise, and may have changed the world when it raises.
use perago.Base.{ℕ, Text, ◌≡◌, refl, List, Option}
use perago.Errors.{Outcome, ok, raised}

-- A parent is given as a string, or as a mapping or an object that may have an `id`.
pub data Parent : Type 0 where
  parent_text : Text → Parent
  parent_record : (id : Option Text) → Parent

-- `parents` is none if the attribute is missing or is no sequence.
pub record Commit : Type 0 where
  pub id : Text
  pub parents : Option (List Parent)

abbrev pub Call : Type 0 → Type 0 → Type 0
Call S A = S → Outcome A × S

abbrev pub go_on : {S A B : Type 0} → Outcome A × S → (A → Call S B) → Outcome B × S
go_on (raised e, s) rest = (raised e, s)
go_on (ok a, s) rest = rest a s

infixl 5 ◌>>=◌ ◌>>◌
abbrev pub ◌>>=◌ : {S A B : Type 0} → Call S A → (A → Call S B) → Call S B
◌>>=◌ call rest s = go_on (call s) rest

abbrev pub ◌>>◌ : {S B : Type 0} → Call S (Unit {0}) → Call S B → Call S B
call >> rest = call >>= λ _. rest

-- what does not touch the world
abbrev pub lift : {S A : Type 0} → Outcome A → Call S A
lift r s = (r, s)

-- The operations that the adapter calls; the timeouts are those of the requests.
pub record Service (S : Type 0) : Type 0 where
  pub create_branch : (repository branch source : Text) → Call S (Unit {0})
  -- the paths of the listed objects whose `path_type` is "object"
  pub objects : (repository branch prefix : Text) → Call S (List Text)
  pub delete_object : (repository branch path : Text) → Call S (Unit {0})
  pub upload_object : (repository branch path content : Text) → Call S (Unit {0})
  pub commit : (repository branch message : Text) → Call S Text
  pub get_commit : (repository branch : Text) → Call S Commit
  pub merge_into : (repository source target : Text) → (timeout : Option ℕ) → Call S Text
  pub hard_reset_branch : (repository branch ref : Text) → (timeout : Option ℕ) → Call S (Unit {0})
  pub delete_branch : (repository branch : Text) → Call S (Unit {0})
  -- `local_path.read_bytes()`, of a path in the workspace directory
  pub read_bytes : (dir : Text) → List Text → Call S Text

pub >>=-eq-ok :
    {S A B : Type 0} (call : Call S A) (rest : A → Call S B) (s : S) {b : B} {s' : S}
    → (call >>= rest) s ≡ (ok b, s')
    → (a : A) × (t : S) × (call s ≡ (ok a, t)) × (rest a t ≡ (ok b, s'))
>>=-eq-ok {S = S} {A = A} call rest s {b} {s'} h = ended (call s) refl h
  where
    ended :
        (p : Outcome A × S)
        → call s ≡ p
        → go_on p rest ≡ (ok b, s')
        → (a : A) × (t : S) × (call s ≡ (ok a, t)) × (rest a t ≡ (ok b, s'))
    ended (ok a, t) e h = (a, t, e, h)
    ended (raised x, t) e h = cc

-- What holds of every returned value and the world then; nothing is said of an exception.
abbrev pub Gives : {S A : Type 0} → (A → S → Type 0) → Outcome A × S → Type 0
Gives Q (ok a, s) = Q a s
Gives Q (raised e, s) = Unit

pub Gives-bind :
    {S A B : Type 0} (Q : B → S → Type 0) (call : Call S A) (rest : A → Call S B) (s : S)
    → ((a : A) (t : S) → call s ≡ (ok a, t) → Gives Q (rest a t))
    → Gives Q ((call >>= rest) s)
Gives-bind {S = S} {A = A} Q call rest s k = step (call s) refl
  where
    step : (p : Outcome A × S) → call s ≡ p → Gives Q (go_on p rest)
    step (ok a, t) e = k a t e
    step (raised x, t) e = tt

pub Gives-eq :
    {S A : Type 0} (Q : A → S → Type 0) (p : Outcome A × S) {a : A} {t : S}
    → Gives Q p
    → p ≡ (ok a, t)
    → Q a t
Gives-eq Q p h e = rw e at h
