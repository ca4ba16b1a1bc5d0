-- ===== src/Base/Strings.antt =====
-- Python's `str`: a list of code points.
use Prim.Native.Nat.{ℕ}
use Prim.Native.Char.{code}
use Prim.Native.String.{String}
use mathlib.Core.Path.{◌≡◌, refl, ap₂}
use mathlib.Core.Logic.{◌↔◌}
use mathlib.Core.Bool.{Bool, true, false, ◌&&◌, ◌||◌, not}
use mathlib.Core.List.{List, [], ◌∷◌}
use native.Mathlib.Omega.{arith}
use perago.Base.Tests.{◌==◌, ==_iff, &&-eq-true}

abbrev pub Text : Type 0
Text = List ℕ

-- The code points of a literal. It is shut in proofs, where only that it is one text matters.
unfoldable pub text : String → Text
text String.[] = []
text (String.◌∷◌ c s) = code c ∷ text s

-- `a == b` on strings
unfoldable pub text_eq : Text → Text → Bool
text_eq [] [] = true
text_eq [] (y ∷ ys) = false
text_eq (x ∷ xs) [] = false
text_eq (x ∷ xs) (y ∷ ys) = x == y && text_eq xs ys

pub text_eq_sound : (a b : Text) → text_eq a b ≡ true → a ≡ b
unfolding text_eq
text_eq_sound [] [] h = refl
text_eq_sound [] (y ∷ ys) h = cc
text_eq_sound (x ∷ xs) [] h = cc
text_eq_sound (x ∷ xs) (y ∷ ys) h =
    let both : (x == y ≡ true) × (text_eq xs ys ≡ true) = &&-eq-true _ _ h in
    ap₂ ◌∷◌ ((==_iff x y).0 both.0) (text_eq_sound xs ys both.1)

pub text_eq_refl : (a : Text) → text_eq a a ≡ true
unfolding text_eq
text_eq_refl [] = refl
text_eq_refl (x ∷ xs) = ground (arith, text_eq_refl xs)

pub text_eq_iff : (a b : Text) → (text_eq a b ≡ true) ↔ (a ≡ b)
text_eq_iff a b = (text_eq_sound a b, λ e. ground (arith, text_eq_refl a))

-- `key in keys`
unfoldable pub text_in : Text → List Text → Bool
text_in k [] = false
text_in k (x ∷ xs) = text_eq k x || text_in k xs

-- No text occurs twice.
unfoldable pub distinct : List Text → Bool
unfolding text_in
distinct [] = true
distinct (x ∷ xs) = not (text_in x xs) && distinct xs
