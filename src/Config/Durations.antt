-- ===== src/Config/Durations.antt =====
-- `perago/config.py`: what `parse_duration` accepts.
use perago.Base.{
  ℕ, ◌*◌, ◌/◌, ◌≤◌, ◌<◌, true, false, ◌&&◌, Option, none, some, Text, [], ◌∷◌, ◌++◌, ◌≡◌, ◌⊎◌, inl,
  inr, ◌↔◌, refl, sym, ap, arith, length, strip, is_blank, decimal, read_decimal,
  read_decimal-decimal, decimal-read_decimal, decimal-is_positive_number, read_decimal-positive,
  Bool-cases, &&-eq-true, is_positive_number,
}
use perago.Errors.{Exception, >>=-eq-ok, ok, raised}
use perago.Config.Environment.{given}
use perago.Config.Values.{
  parse_int, timedelta, max_days, lower_char, is_duration_unit, split_last, unit_seconds,
  duration_of, duration_at, behind, parse_duration,
}

-- How many seconds a unit stands for. The long s is accepted, and stands for a day.
abbrev pub Scale : (unit seconds : ℕ) → Type 0
Scale unit seconds =
    (((unit ≡ b's') ⊎ (unit ≡ b'S')) × (seconds ≡ 1))
    ⊎ (((unit ≡ b'm') ⊎ (unit ≡ b'M')) × (seconds ≡ 60))
    ⊎ (((unit ≡ b'h') ⊎ (unit ≡ b'H')) × (seconds ≡ 3600))
    ⊎ (((unit ≡ b'd') ⊎ (unit ≡ b'D') ⊎ (unit ≡ 383)) × (seconds ≡ 86400))

-- A positive number, printed without leading zeros, and a unit.
pub record IsDuration (value : Text) (seconds : ℕ) : Type 0 where
  pub amount : ℕ
  pub unit : ℕ
  pub scale : ℕ
  pub spelled : value ≡ decimal amount ++ unit ∷ []
  pub positive : 0 < amount
  pub scaled : Scale unit scale
  pub readable : length (decimal amount) ≤ 4300
  pub total : seconds ≡ amount * scale
  pub representable : seconds / 86400 ≤ max_days

Scale-iff :
    (c k : ℕ) → Scale c k ↔ ((is_duration_unit c ≡ true) × (unit_seconds (lower_char c) ≡ k))
unfolding is_duration_unit
Scale-iff c k = (λ h. ground arith, λ h. ground arith)

split_last-append : (t : Text) (c : ℕ) → split_last (t ++ c ∷ []) ≡ some (t, c)
unfolding split_last
split_last-append [] c = refl
split_last-append (x ∷ []) c = refl
split_last-append (x ∷ y ∷ t) c = rw (split_last-append (y ∷ t) c) refl

behind_sound :
    (x : ℕ) (last : Option (Text × ℕ)) {f : Text} {c : ℕ}
    → behind x last ≡ some (f, c)
    → (g : Text) × (last ≡ some (g, c)) × (f ≡ x ∷ g)
behind_sound x none h = cc
behind_sound x (some (g, d)) h = (g, ground arith, ground arith)

pub split_last_sound : (t f : Text) (c : ℕ) → split_last t ≡ some (f, c) → t ≡ f ++ c ∷ []
unfolding split_last
split_last_sound [] f c h = cc
split_last_sound (x ∷ []) f c h = ground arith
split_last_sound (x ∷ y ∷ t) f c h =
    let (g, later, front) = behind_sound x (split_last (y ∷ t)) h in
    rw front (ap (λ (r : Text). x ∷ r) (split_last_sound (y ∷ t) g c later))

parse_int_iff :
    (t : Text) (n : ℕ) → (parse_int t ≡ ok n) ↔ ((length t ≤ 4300) × (read_decimal t ≡ n))
unfolding parse_int
parse_int_iff t n = (λ h. ground arith, λ h. ground arith)

timedelta_iff : (s n : ℕ) → (timedelta s ≡ ok n) ↔ ((s ≡ n) × (s / 86400 ≤ max_days))
unfolding timedelta
timedelta_iff s n = (λ h. ground arith, λ h. ground arith)

duration_of_sound :
    (name digits : Text) (unit n : ℕ)
    → duration_of name digits unit ≡ ok n
    → IsDuration (digits ++ unit ∷ []) n
duration_of_sound name digits unit n h =
    elim (Bool-cases (is_positive_number digits && is_duration_unit unit)) [
      | inl good ↦ accepted (&&-eq-true _ _ good) (>>=-eq-ok (parse_int digits) _ (rw good at h))
      | inr bad ↦ absurd (refused (rw bad at h))
    ]
  where
    refused : {e : Exception} → raised e ≡ ok n → ⊥
    refused h = cc

    accepted :
        (is_positive_number digits ≡ true) × (is_duration_unit unit ≡ true)
        → (amount : ℕ) × (parse_int digits ≡ ok amount)
          × (timedelta (amount * unit_seconds (lower_char unit)) ≡ ok n)
        → IsDuration (digits ++ unit ∷ []) n
    accepted (number, is_unit) (amount, parsed, made) =
        let (short, read) = (parse_int_iff digits amount).0 parsed in
        let (total, fits) = (timedelta_iff _ n).0 made in
        let printed : decimal amount ≡ digits = rw (← read) (decimal-read_decimal digits number) in
        record {
          amount = amount;
          unit = unit;
          scale = unit_seconds (lower_char unit);
          spelled = ap (λ (t : Text). t ++ unit ∷ []) (sym printed);
          positive = rw (← read) (read_decimal-positive digits number);
          scaled = (Scale-iff unit _).1 (is_unit, refl);
          readable = rw printed short;
          total = sym total;
          representable = rw total at fits;
        }

duration_of_complete :
    (name : Text) (n amount unit scale : ℕ)
    → 0 < amount
    → Scale unit scale
    → length (decimal amount) ≤ 4300
    → n ≡ amount * scale
    → n / 86400 ≤ max_days
    → duration_of name (decimal amount) unit ≡ ok n
duration_of_complete name n amount unit scale p s r t f =
    let (is_unit, scaled) = (Scale-iff unit scale).0 s in
    let number = decimal-is_positive_number amount p in
    let parsed = (parse_int_iff (decimal amount) amount).1 (r, read_decimal-decimal amount) in
    let made = (timedelta_iff (amount * scale) n).1 (sym t, rw (← t) f) in
    rw (number, is_unit, scaled, parsed) made

-- A value that is neither absent nor blank is read as `n` seconds exactly if, stripped, it is a
-- positive number without leading zeros and a unit, `n` is their product, the number has at most
-- 4300 digits and `n` is at most 999999999 days.
pub parse_duration_iff :
    (value name : Text) (default n : ℕ)
    → is_blank value ≡ false
    → (parse_duration (some value) default name ≡ ok n) ↔ IsDuration (strip value) n
unfolding parse_duration given
parse_duration_iff value name default n filled =
    (λ h. sound (split_last (strip value)) refl (rw filled at h), complete)
  where
    sound :
        (last : Option (Text × ℕ))
        → split_last (strip value) ≡ last
        → duration_at name last ≡ ok n
        → IsDuration (strip value) n
    sound none e h = cc
    sound (some (digits, unit)) e h =
        rw (split_last_sound (strip value) digits unit e) (duration_of_sound name digits unit n h)

    complete : IsDuration (strip value) n → parse_duration (some value) default name ≡ ok n
    complete d =
        rw (filled, d.spelled, split_last-append (decimal d.amount) d.unit)
          (duration_of_complete name n d.amount d.unit d.scale d.positive d.scaled d.readable
            d.total d.representable)
