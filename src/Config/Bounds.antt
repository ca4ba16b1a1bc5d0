-- ===== src/Config/Bounds.antt =====
-- `perago/config.py`: the bounds that every loaded configuration keeps.
use perago.Base.{
  ℕ, ◌*◌, ◌==◌, ◌<◌, true, ◌&&◌, Option, none, some, Text, ◌≡◌, inl, inr, arith, all, is_empty,
  read_decimal-positive, is_positive_number, Bool-cases, &&-eq-true, not, is_digit,
}
use perago.Errors.{◌>>=◌, Returns, Returns-bind, Returns-bind_any}
use perago.Config.Environment.{given}
use perago.Config.Values.{
  parse_int, timedelta, lower_char, is_duration_unit, split_last, unit_seconds, duration_of,
  duration_at, duration_from, retention_at, retention_from, optional_from, parse_duration,
  parse_optional_duration, parse_log_retention, positive_integer, reason_length_from,
  parse_failure_reason_max_length,
}

abbrev pub Positive : ℕ → Type 0
Positive n = 0 < n

parse_int-Positive : (t : Text) → is_positive_number t ≡ true → Returns Positive (parse_int t)
unfolding parse_int
parse_int-Positive t h = ground (arith, read_decimal-positive t h)

timedelta-Positive : (s : ℕ) → 0 < s → Returns Positive (timedelta s)
unfolding timedelta
timedelta-Positive s h = ground arith

scaled-Positive :
    (t : Text) (scale : ℕ)
    → 0 < scale
    → is_positive_number t ≡ true
    → Returns Positive (parse_int t >>= λ amount. timedelta (amount * scale))
scaled-Positive t scale h number =
    Returns-bind Positive (parse_int t) _ (parse_int-Positive t number)
      λ amount p. timedelta-Positive (amount * scale) (grind arith)

duration_of-Positive :
    (name digits : Text) (unit : ℕ) → Returns Positive (duration_of name digits unit)
duration_of-Positive name digits unit =
    elim (Bool-cases (is_positive_number digits && is_duration_unit unit)) [
      | inl good ↦ rw good (
          scaled-Positive digits (unit_seconds (lower_char unit)) (ground arith)
            (&&-eq-true _ _ good).0)
      | inr bad ↦ rw bad tt
    ]

duration_at-Positive :
    (name : Text) (last : Option (Text × ℕ)) → Returns Positive (duration_at name last)
duration_at-Positive name none = tt
duration_at-Positive name (some (digits, unit)) = duration_of-Positive name digits unit

pub parse_duration-Positive :
    (value : Option Text) (default : ℕ) (name : Text)
    → 0 < default
    → Returns Positive (parse_duration value default name)
unfolding parse_duration
parse_duration-Positive value default name h = from (given value)
  where
    from : (v : Option Text) → Returns Positive (duration_from default name v)
    from none = h
    from (some t) = duration_at-Positive name (split_last t)

retention_at-Positive : (last : Option (Text × ℕ)) → Returns Positive (retention_at last)
retention_at-Positive none = tt
retention_at-Positive (some (digits, unit)) =
    elim (Bool-cases (is_positive_number digits && lower_char unit == b'd')) [
      | inl good ↦ rw good (scaled-Positive digits 86400 (omega arith) (&&-eq-true _ _ good).0)
      | inr bad ↦ rw bad tt
    ]

pub parse_log_retention-Positive :
    (value : Option Text) → Returns Positive (parse_log_retention value)
unfolding parse_log_retention
parse_log_retention-Positive value = from (given value)
  where
    from : (v : Option Text) → Returns Positive (retention_from v)
    from none = omega arith
    from (some t) = retention_at-Positive (split_last t)

-- What holds of the number, if there is one.
abbrev pub IfAny {ℓ κ} : {A : Type ℓ} → (A → Type κ) → Option A → Type κ
IfAny P none = Unit
IfAny P (some a) = P a

pub parse_optional_duration-Positive :
    (value : Option Text) (name : Text)
    → Returns (IfAny Positive) (parse_optional_duration value name)
unfolding parse_optional_duration
parse_optional_duration-Positive value name = from (given value)
  where
    from : (v : Option Text) → Returns (IfAny Positive) (optional_from name value v)
    from none = tt
    from (some t) =
        Returns-bind (IfAny Positive) (parse_duration value 1 name) _
          (parse_duration-Positive value 1 name (omega arith)) λ n p. p

positive_integer-Positive : (e f t : Text) → Returns Positive (positive_integer e f t)
positive_integer-Positive e f t = elim (Bool-cases (not (is_empty t) && all is_digit t)) [
  | inl digits ↦ rw digits (Returns-bind_any Positive (parse_int t) _ λ n. ground arith)
  | inr other ↦ rw other tt
]

pub parse_failure_reason_max_length-Positive :
    (value : Option Text) → Returns Positive (parse_failure_reason_max_length value)
unfolding parse_failure_reason_max_length
parse_failure_reason_max_length-Positive value = from (given value)
  where
    from : (v : Option Text) → Returns Positive (reason_length_from v)
    from none = omega arith
    from (some t) = positive_integer-Positive _ _ t
