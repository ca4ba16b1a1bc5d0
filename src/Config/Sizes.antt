-- ===== src/Config/Sizes.antt =====
-- `perago/config.py`: `parse_log_file_max_size`, with the decimal arithmetic it relies on.
use perago.Base.{
  ℕ, ◌+◌, ◌-◌, ◌*◌, ◌/◌, ◌%◌, ◌^◌, ◌==◌, ltb, leb, Bool, ◌&&◌, ◌||◌, not, Option, none, some, Text,
  text, [], ◌∷◌, ◌++◌, all, length, is_empty, is_digit, decimal, read_decimal, is_positive_number,
  is_space, strip_right, if◌then◌else◌,
}
use perago.Errors.{other_error, Outcome, ok, raised}
use perago.Config.Environment.{given, config_error}
use perago.Config.Values.{split_last}

-- `c` for `K` with `re.IGNORECASE`, which takes the Kelvin sign for a `K`; and so on
unfoldable pub is_size_unit : ℕ → Bool
is_size_unit c =
    c == b'k' || c == b'K' || c == 8490 || c == b'm' || c == b'M' || c == b'g' || c == b'G'

-- `LOG_SIZE_UNITS[unit.upper()]` by the first letter of the unit; the upper case of the Kelvin sign
-- is the Kelvin sign, which is no key.
unfoldable pub log_size_unit : ℕ → Outcome ℕ
log_size_unit c =
    if c == b'k' || c == b'K'
    then ok 1024
    else if c == b'm' || c == b'M'
    then ok (1024 * 1024)
    else if c == b'g' || c == b'G'
    then ok (1024 * 1024 * 1024)
    else raised (other_error (39 ∷ c ∷ text "B'"))

-- A `Decimal`: `coefficient` divided by ten to the power `places`.
pub record Amount : Type 0 where
  pub coefficient : ℕ
  pub places : ℕ

-- the digits in front of the first dot, and those behind it if there is one
unfoldable pub split_dot : Text → Text × Option Text
split_dot [] = ([], none)
split_dot (c ∷ rest) =
    let later = split_dot rest in if c == b'.' then ([], some rest) else (c ∷ later.0, later.1)

abbrev pub is_whole : Text → Bool
is_whole (c ∷ []) = is_digit c
is_whole t = is_positive_number t

abbrev pub amount_at : Text × Option Text → Option Amount
amount_at (whole, none) =
    if is_whole whole then some (record { coefficient = read_decimal whole; places = 0 }) else none
amount_at (whole, some fraction) =
    if is_whole whole && not (is_empty fraction) && all is_digit fraction
    then some (record { coefficient = read_decimal (whole ++ fraction); places = length fraction })
    else none

-- `(?:0|[1-9][0-9]*)(?:\.[0-9]+)?`
unfoldable pub match_amount : Text → Option Amount
unfolding split_dot
match_amount t = amount_at (split_dot t)

-- half to even
abbrev pub half_even : (quotient remainder divisor : ℕ) → ℕ
half_even quotient remainder divisor =
    if ltb (remainder * 2) divisor
    then quotient
    else if ltb divisor (remainder * 2)
    then quotient + 1
    else quotient + quotient % 2

-- A product is rounded to the 28 digits of the default context.
unfoldable pub round_product : ℕ → ℕ
round_product c =
    let digits = length (decimal c) in
    let unit = 10 ^ (digits - 28) in
    if leb digits 28 then c else half_even (c / unit) (c % unit) unit * unit

-- `to_integral_value(rounding=ROUND_CEILING)`
unfoldable pub ceiling : ℕ → (places : ℕ) → ℕ
ceiling c places = (c + (10 ^ places - 1)) / 10 ^ places

unfoldable pub size_of : Amount → (unit_size : ℕ) → ℕ
unfolding round_product ceiling
size_of amount unit_size = ceiling (round_product (amount.coefficient * unit_size)) amount.places

abbrev pub default_log_file_max_size : ℕ
default_log_file_max_size = 100 * (1024 * 1024)

abbrev pub invalid_size {ℓ} : {A : Type ℓ} → Outcome A
invalid_size =
    config_error
      (text "PERAGO_LOG_FILE_MAX_SIZE must be a positive size such as '512KB', '100MB', or '1.5GB'")

abbrev pub sized : Amount → Outcome ℕ → Outcome ℕ
sized amount (raised e) = raised e
sized amount (ok unit_size) = ok (size_of amount unit_size)

abbrev pub size_amount : Option Amount → (unit : ℕ) → Outcome ℕ
size_amount none unit = invalid_size
size_amount (some amount) unit =
    if amount.coefficient == 0
    then config_error (text "PERAGO_LOG_FILE_MAX_SIZE must be greater than zero")
    else sized amount (log_size_unit unit)

-- behind the final `B`
abbrev pub size_unit : Option (Text × ℕ) → Outcome ℕ
size_unit none = invalid_size
size_unit (some (front, unit)) =
    if is_size_unit unit
    then size_amount (match_amount (strip_right is_space front)) unit
    else invalid_size

abbrev pub size_at : Option (Text × ℕ) → Outcome ℕ
size_at none = invalid_size
size_at (some (front, last)) =
    if last == b'b' || last == b'B' then size_unit (split_last front) else invalid_size

abbrev pub size_from : Option Text → Outcome ℕ
size_from none = ok default_log_file_max_size
size_from (some value) = size_at (split_last value)

unfoldable pub parse_log_file_max_size : Option Text → Outcome ℕ
unfolding given is_size_unit log_size_unit match_amount size_of
parse_log_file_max_size value = size_from (given value)
