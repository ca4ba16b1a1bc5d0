-- ===== src/Base/Decimal.antt =====
-- `str(n)` and `int(text)` for natural numbers, in decimal digits.
use Prim.Native.Nat.{ℕ, zero, suc, ◌+◌, ◌*◌, ◌/◌, ◌%◌, ◌-◌, ◌<◌}
use mathlib.Core.Path.{◌≡◌, refl, sym, ap, ◌∙◌}
use mathlib.Core.Logic.{inl, inr}
use mathlib.Core.Bool.{Bool, true, false, ◌&&◌}
use mathlib.Core.List.{[], ◌∷◌}
use native.Mathlib.Omega.{arith}
use perago.Base.Tests.{ltb, leb, if◌then◌else◌, Bool-cases}
use perago.Base.Lists.{all, is_empty}
use perago.Base.Strings.{Text}

-- The digits of `n` in front of `acc`. Each round divides by ten, so `suc n` rounds are enough.
unfoldable pub digits_onto : ℕ → ℕ → Text → Text
digits_onto zero n acc = acc
digits_onto (suc fuel) n acc =
    let rest = digits_onto fuel (n / 10) ((48 + n % 10) ∷ acc) in
    if ltb n 10 then (48 + n) ∷ acc else rest

unfoldable pub decimal : ℕ → Text
unfolding digits_onto
decimal n = digits_onto (suc n) n []

-- The number that digits stand for, after a number already read.
unfoldable pub read_onto : ℕ → Text → ℕ
read_onto acc [] = acc
read_onto acc (c ∷ rest) = read_onto (acc * 10 + (c - 48)) rest

unfoldable pub read_decimal : Text → ℕ
unfolding read_onto
read_decimal t = read_onto 0 t

abbrev pub is_digit : ℕ → Bool
is_digit c = leb 48 c && leb c 57

-- `[1-9][0-9]*`
unfoldable pub is_positive_number : Text → Bool
is_positive_number [] = false
is_positive_number (c ∷ rest) = leb 49 c && leb c 57 && all is_digit rest

read-digits_onto :
    (fuel n : ℕ) (acc : Text) → n < fuel → read_onto 0 (digits_onto fuel n acc) ≡ read_onto n acc
unfolding digits_onto read_onto
read-digits_onto zero n acc h = absurd (omega arith)
read-digits_onto (suc fuel) n acc h = elim (Bool-cases (ltb n 10)) [
  | inl small ↦ rw small (ap (λ (m : ℕ). read_onto m acc) (omega arith))
  | inr big ↦ rw big (
      read-digits_onto fuel (n / 10) ((48 + n % 10) ∷ acc) (ground arith)
      ∙ ap (λ (m : ℕ). read_onto m acc) (omega arith))
]

digits_onto-are_digits :
    (fuel n : ℕ) (acc : Text)
    → all is_digit acc ≡ true
    → all is_digit (digits_onto fuel n acc) ≡ true
unfolding digits_onto
digits_onto-are_digits zero n acc h = h
digits_onto-are_digits (suc fuel) n acc h =
    ground (arith, digits_onto-are_digits fuel (n / 10) ((48 + n % 10) ∷ acc))

pub decimal-are_digits : (n : ℕ) → all is_digit (decimal n) ≡ true
unfolding decimal
decimal-are_digits n = digits_onto-are_digits (suc n) n [] refl

digits_onto-ne-nil :
    (fuel n : ℕ) (acc : Text) → is_empty acc ≡ false → is_empty (digits_onto fuel n acc) ≡ false
unfolding digits_onto
digits_onto-ne-nil zero n acc h = h
digits_onto-ne-nil (suc fuel) n acc h =
    ground (arith, digits_onto-ne-nil fuel (n / 10) ((48 + n % 10) ∷ acc) refl)

pub decimal-ne-nil : (n : ℕ) → is_empty (decimal n) ≡ false
unfolding decimal digits_onto
decimal-ne-nil n = ground (arith, digits_onto-ne-nil n (n / 10) ((48 + n % 10) ∷ []) refl)

pub read_decimal-decimal : (n : ℕ) → read_decimal (decimal n) ≡ n
unfolding read_decimal decimal read_onto
read_decimal-decimal n = read-digits_onto (suc n) n [] (omega arith)

pub decimal-injective : (m n : ℕ) → decimal m ≡ decimal n → m ≡ n
decimal-injective m n h = sym (read_decimal-decimal m) ∙ ap read_decimal h ∙ read_decimal-decimal n
