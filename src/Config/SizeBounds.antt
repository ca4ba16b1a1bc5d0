-- ===== src/Config/SizeBounds.antt =====
-- `perago/config.py`: a configured size is never zero.
use native.Mathlib.Nat.{le-div_iff_mul-le, one-le-pow, pow-le-pow_right, le_trans}
use perago.Base.{
  ℕ, ◌-◌, ◌*◌, ◌/◌, ◌%◌, ◌^◌, ◌≤◌, ◌<◌, leb, Option, none, some, Text, inl, inr, arith, length,
  decimal, decimal-length, strip_right, is_space, Bool-cases,
}
use perago.Errors.{Outcome, ok, raised, Returns}
use perago.Config.Environment.{given}
use perago.Config.Values.{split_last}
use perago.Config.Bounds.{Positive}
use perago.Config.Sizes.{
  Amount, log_size_unit, half_even, round_product, ceiling, size_of, sized, size_amount,
  match_amount, size_unit, size_at, size_from, parse_log_file_max_size,
}

ceiling-Positive : (c places : ℕ) → 0 < c → 0 < ceiling c places
unfolding ceiling
ceiling-Positive c places h =
    let unit : 1 ≤ 10 ^ places = one-le-pow places 10 (omega arith) in
    (le-div_iff_mul-le unit).1 (omega arith)

half_even-ge : (q r d : ℕ) → q ≤ half_even q r d
half_even-ge q r d = ground arith

rounded-Positive :
    (c k : ℕ) → 10 ^ k ≤ c → 0 < half_even (c / 10 ^ k) (c % 10 ^ k) (10 ^ k) * 10 ^ k
rounded-Positive c k h =
    let unit : 1 ≤ 10 ^ k = one-le-pow k 10 (omega arith) in
    let quotient : 1 ≤ c / 10 ^ k = (le-div_iff_mul-le unit).1 (omega arith) in
    product (half_even-ge (c / 10 ^ k) (c % 10 ^ k) (10 ^ k)) quotient unit
  where
    product : {q d r : ℕ} → q ≤ r → 1 ≤ q → 1 ≤ d → 0 < r * d
    product p q d = grind arith

round_product-Positive : (c : ℕ) → 0 < c → 0 < round_product c
unfolding round_product
round_product-Positive c h = elim (Bool-cases (leb (length (decimal c)) 28)) [
  | inl short ↦ rw short h
  | inr long ↦ rw long (
      rounded-Positive c (length (decimal c) - 28)
        (le_trans (pow-le-pow_right (omega arith) (omega arith)) (decimal-length c h)))
]

size_of-Positive :
    (amount : Amount) (unit : ℕ) → 0 < amount.coefficient → 0 < unit → 0 < size_of amount unit
unfolding size_of
size_of-Positive amount unit h k =
    ceiling-Positive _ amount.places
      (round_product-Positive (amount.coefficient * unit) (grind arith))

log_size_unit-Positive : (c : ℕ) → Returns Positive (log_size_unit c)
unfolding log_size_unit
log_size_unit-Positive c = ground arith

sized-Positive :
    (amount : Amount) (unit : Outcome ℕ)
    → 0 < amount.coefficient
    → Returns Positive unit
    → Returns Positive (sized amount unit)
sized-Positive amount (raised e) h k = tt
sized-Positive amount (ok unit) h k = size_of-Positive amount unit h k

size_amount-Positive :
    (amount : Option Amount) (unit : ℕ) → Returns Positive (size_amount amount unit)
size_amount-Positive none unit = tt
size_amount-Positive (some amount) unit =
    ground (arith, sized-Positive amount (log_size_unit unit), log_size_unit-Positive unit)

size_unit-Positive : (last : Option (Text × ℕ)) → Returns Positive (size_unit last)
size_unit-Positive none = tt
size_unit-Positive (some (front, unit)) =
    ground (arith, size_amount-Positive (match_amount (strip_right is_space front)) unit)

size_at-Positive : (last : Option (Text × ℕ)) → Returns Positive (size_at last)
size_at-Positive none = tt
size_at-Positive (some (front, last)) = ground (arith, size_unit-Positive (split_last front))

pub parse_log_file_max_size-Positive :
    (value : Option Text) → Returns Positive (parse_log_file_max_size value)
unfolding parse_log_file_max_size
parse_log_file_max_size-Positive value = from (given value)
  where
    from : (v : Option Text) → Returns Positive (size_from v)
    from none = omega arith
    from (some t) = size_at-Positive (split_last t)
