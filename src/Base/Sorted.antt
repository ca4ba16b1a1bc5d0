-- ===== src/Base/Sorted.antt =====
-- `sorted` on strings.
use mathlib.Core.Path.{◌≡◌, refl}
use mathlib.Core.Logic.{◌⊎◌, inl, inr}
use mathlib.Core.Bool.{Bool, true, false, ◌&&◌, ◌||◌}
use mathlib.Core.List.{List, [], ◌∷◌}
use native.Mathlib.Omega.{arith}
use perago.Base.Tests.{◌==◌, ltb, Bool-cases, if◌then◌else◌}
use perago.Base.Strings.{Text, text_eq, text_in, text_eq_sound, text_eq_refl}

-- `a <= b`: the order of the code points
unfoldable pub text_le : Text → Text → Bool
text_le [] b = true
text_le (x ∷ a) [] = false
text_le (x ∷ a) (y ∷ b) = ltb x y || (x == y && text_le a b)

unfoldable pub insert : Text → List Text → List Text
unfolding text_le
insert t [] = t ∷ []
insert t (u ∷ us) = let rest = insert t us in if text_le t u then t ∷ u ∷ us else u ∷ rest

unfoldable pub sorted : List Text → List Text
unfolding insert
sorted [] = []
sorted (t ∷ ts) = insert t (sorted ts)

pub text_in-cases :
    (o x : Text) (rest : List Text)
    → text_in o (x ∷ rest) ≡ true
    → (o ≡ x) ⊎ (text_in o rest ≡ true)
unfolding text_in
text_in-cases o x rest h = elim (Bool-cases (text_eq o x)) [
  | inl same ↦ inl (text_eq_sound o x same)
  | inr different ↦ inr (rw different at h)
]

pub not_in_nil : (o : Text) → text_in o [] ≡ true → ⊥
unfolding text_in
not_in_nil o h = cc

pub text_in_here : (o : Text) (rest : List Text) → text_in o (o ∷ rest) ≡ true
unfolding text_in
text_in_here o rest = rw (text_eq_refl o) refl

pub text_in_later :
    (o x : Text) (rest : List Text) → text_in o rest ≡ true → text_in o (x ∷ rest) ≡ true
unfolding text_in
text_in_later o x rest h = ground arith

text_in-insert :
    (o t : Text) (us : List Text) → text_in o (insert t us) ≡ (text_eq o t || text_in o us)
unfolding insert text_in
text_in-insert o t [] = refl
text_in-insert o t (u ∷ us) = ground (arith, text_in-insert o t us)

-- Sorting keeps the elements.
pub text_in-sorted : (o : Text) (ts : List Text) → text_in o (sorted ts) ≡ text_in o ts
unfolding sorted text_in
text_in-sorted o [] = refl
text_in-sorted o (t ∷ ts) = ground (arith, text_in-sorted o ts, text_in-insert o t (sorted ts))
