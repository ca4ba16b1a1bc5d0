-- ===== src/Base/Digits.antt =====
-- What the decimal digits of a number look like.
use Prim.Native.Nat.{ℕ, zero, suc, ◌+◌, ◌*◌, ◌/◌, ◌%◌, ◌-◌, ◌^◌, ◌≤◌, ◌<◌}
use mathlib.Core.Path.{◌≡◌, refl, sym, ap, ap₂, ◌∙◌}
use mathlib.Core.Logic.{inl, inr}
use mathlib.Core.Bool.{true, false}
use mathlib.Core.List.{[], ◌∷◌, ◌++◌, append-nil, append_assoc}
use native.Mathlib.Omega.{arith}
use native.Mathlib.Nat.{pow-suc}
use perago.Base.Tests.{ltb, Bool-cases}
use perago.Base.Lists.{all, length}
use perago.Base.Strings.{Text}
use perago.Base.Decimal.{
  digits_onto, decimal, read_onto, read_decimal, is_digit, is_positive_number,
}

-- The rounds left over do not matter, and what stands behind stays there.
digits_onto-append :
    (fuel more n : ℕ) (acc rest : Text)
    → n < fuel
    → n < more
    → digits_onto fuel n (acc ++ rest) ≡ digits_onto more n acc ++ rest
unfolding digits_onto
digits_onto-append zero more n acc rest h k = absurd (omega arith)
digits_onto-append (suc fuel) zero n acc rest h k = absurd (omega arith)
digits_onto-append (suc fuel) (suc more) n acc rest h k = elim (Bool-cases (ltb n 10)) [
  | inl small ↦ rw small refl
  | inr big ↦ rw big (
      digits_onto-append fuel more (n / 10) ((48 + n % 10) ∷ acc) rest (ground arith)
        (ground arith))
]

digits_onto_more :
    (fuel n : ℕ) (acc : Text)
    → ltb n 10 ≡ false
    → digits_onto (suc fuel) n acc ≡ digits_onto fuel (n / 10) ((48 + n % 10) ∷ acc)
unfolding digits_onto
digits_onto_more fuel n acc h = rw h refl

decimal_one : (n : ℕ) → ltb n 10 ≡ true → decimal n ≡ (48 + n) ∷ []
unfolding decimal digits_onto
decimal_one n h = rw h refl

-- One more digit at the end.
pub decimal-snoc :
    (n c : ℕ) → 0 < n → is_digit c ≡ true → decimal (n * 10 + (c - 48)) ≡ decimal n ++ c ∷ []
unfolding decimal
decimal-snoc n c h digit = snoc (n * 10 + (c - 48)) (ground arith) (ground arith) (ground arith)
  where
    snoc :
        (m : ℕ)
        → ltb m 10 ≡ false
        → 48 + m % 10 ≡ c
        → m / 10 ≡ n
        → digits_onto (suc m) m [] ≡ digits_onto (suc n) n [] ++ c ∷ []
    snoc m big low high =
        digits_onto_more m m [] big
        ∙ ap₂ (λ (q d : ℕ). digits_onto m q (d ∷ [])) high low
        ∙ digits_onto-append m (suc n) n [] (c ∷ []) (omega arith) (omega arith)

decimal-read_onto :
    (n : ℕ) (t : Text) → 0 < n → all is_digit t ≡ true → decimal (read_onto n t) ≡ decimal n ++ t
unfolding read_onto
decimal-read_onto n [] h digits = sym (append-nil _)
decimal-read_onto n (c ∷ t) h digits =
    decimal-read_onto (n * 10 + (c - 48)) t (omega arith) (ground arith)
    ∙ ap (λ (p : Text). p ++ t) (decimal-snoc n c h (ground arith))
    ∙ append_assoc (decimal n) (c ∷ []) t

-- Digits that do not start with a zero are the ones that the number is printed with.
pub decimal-read_decimal : (t : Text) → is_positive_number t ≡ true → decimal (read_decimal t) ≡ t
unfolding read_decimal read_onto is_positive_number
decimal-read_decimal [] h = cc
decimal-read_decimal (c ∷ t) h =
    ap (λ (n : ℕ). decimal (read_onto n t)) (omega arith)
    ∙ decimal-read_onto (c - 48) t (ground arith) (ground arith)
    ∙ ap (λ (p : Text). p ++ t) (decimal_one (c - 48) (ground arith))
    ∙ ap (λ (d : ℕ). d ∷ t) (ground arith)

digits_onto-is_positive_number :
    (fuel n : ℕ) (acc : Text)
    → n < fuel
    → 0 < n
    → all is_digit acc ≡ true
    → is_positive_number (digits_onto fuel n acc) ≡ true
unfolding digits_onto is_positive_number
digits_onto-is_positive_number zero n acc h pos digits = absurd (omega arith)
digits_onto-is_positive_number (suc fuel) n acc h pos digits =
    ground (arith, digits_onto-is_positive_number fuel (n / 10) ((48 + n % 10) ∷ acc))

-- A positive number is printed without a leading zero.
pub decimal-is_positive_number : (n : ℕ) → 0 < n → is_positive_number (decimal n) ≡ true
unfolding decimal
decimal-is_positive_number n h = digits_onto-is_positive_number (suc n) n [] (omega arith) h refl

read_onto-ge : (n : ℕ) (t : Text) → n ≤ read_onto n t
unfolding read_onto
read_onto-ge n [] = omega arith
read_onto-ge n (c ∷ t) = omega (arith, read_onto-ge (n * 10 + (c - 48)) t)

pub read_decimal-positive : (t : Text) → is_positive_number t ≡ true → 0 < read_decimal t
unfolding read_decimal read_onto is_positive_number
read_decimal-positive [] h = cc
read_decimal-positive (c ∷ t) h = ground (arith, read_onto-ge (0 * 10 + (c - 48)) t)

digits_onto-length :
    (fuel n : ℕ) (acc : Text)
    → n < fuel
    → 0 < n
    → (k : ℕ) × (length (digits_onto fuel n acc) ≡ suc (k + length acc)) × (10 ^ k ≤ n)
unfolding digits_onto
digits_onto-length zero n acc h pos = absurd (omega arith)
digits_onto-length (suc fuel) n acc h pos = elim (Bool-cases (ltb n 10)) [
  | inl small ↦ (0, rw small (omega arith), omega arith)
  | inr big ↦
      more (digits_onto-length fuel (n / 10) ((48 + n % 10) ∷ acc) (ground arith) (ground arith))
        big
]
  where
    more :
        (k : ℕ) × (length (digits_onto fuel (n / 10) ((48 + n % 10) ∷ acc))
            ≡ suc (k + suc (length acc)))
          × (10 ^ k ≤ n / 10)
        → ltb n 10 ≡ false
        → (k : ℕ) × (length (digits_onto (suc fuel) n acc) ≡ suc (k + length acc)) × (10 ^ k ≤ n)
    more (k, long, below) big =
        (suc k, rw big (omega (arith, long)), rw (pow-suc 10 k) (omega (arith, below)))

-- A positive number is at least the power of ten that its number of digits tells.
pub decimal-length : (n : ℕ) → 0 < n → 10 ^ (length (decimal n) - 1) ≤ n
unfolding decimal
decimal-length n h = below (digits_onto-length (suc n) n [] (omega arith) h)
  where
    below :
        (k : ℕ) × (length (digits_onto (suc n) n []) ≡ suc (k + 0)) × (10 ^ k ≤ n)
        → 10 ^ (length (digits_onto (suc n) n []) - 1) ≤ n
    below (k, long, b) = let e : length (digits_onto (suc n) n []) - 1 ≡ k = omega arith in rw e b
