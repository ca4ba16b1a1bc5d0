-- ===== src/Config/Lines.antt =====
-- `perago/config.py`: the lemmas on texts behind the reading of a `.env` file.
use perago.Base.{
  ℕ, ◌==◌, Bool, true, false, ◌||◌, not, none, some, Text, [], ◌∷◌, ◌++◌, ◌≡◌, refl, ap, arith, all,
  has_char, strip_prefix, is_space, strip_left, strip_right, strip_chars, keep_front, strip,
  is_digit,
}
use perago.Guards.{is_letter}
use perago.Config.Dotenv.{is_line_break, splitlines, split_entry, prepend, without_last}

-- A character of a variable's name.
abbrev pub is_name_char : ℕ → Bool
is_name_char c = is_letter c || is_digit c || c == b'_'

pub name_plain : (c : ℕ) → is_name_char c ≡ true → (is_line_break c ≡ false) × (is_space c ≡ false)
unfolding is_line_break is_space
name_plain c h = ground arith

pub splitlines-append :
    (line rest : Text)
    → all (λ c. not (is_line_break c)) line ≡ true
    → splitlines (line ++ 10 ∷ rest) ≡ line ∷ splitlines rest
unfolding splitlines is_line_break
splitlines-append [] rest h = refl
splitlines-append (c ∷ line) rest h = rw (splitlines-append line rest (ground arith)) (ground arith)

pub strip_right-snoc :
    (t : Text) (q : ℕ) → is_space q ≡ false → strip_right is_space (t ++ q ∷ []) ≡ t ++ q ∷ []
unfolding strip_right
strip_right-snoc [] q h = rw h refl
strip_right-snoc (c ∷ t) q h = rw (strip_right-snoc t q h) (kept t)
  where
    kept : (t : Text) → keep_front is_space c (t ++ q ∷ []) ≡ c ∷ t ++ q ∷ []
    kept [] = refl
    kept (d ∷ t) = refl

pub strip-enclosed :
    (c q : ℕ) (t : Text)
    → is_space c ≡ false
    → is_space q ≡ false
    → strip (c ∷ t ++ q ∷ []) ≡ c ∷ t ++ q ∷ []
unfolding strip strip_chars strip_left
strip-enclosed c q t h k = rw h (strip_right-snoc (c ∷ t) q k)

pub strip_right_name : (key : Text) → all is_name_char key ≡ true → strip_right is_space key ≡ key
unfolding strip_right
strip_right_name [] h = refl
strip_right_name (c ∷ key) h = rw (strip_right_name key (ground arith)) (kept key)
  where
    kept : (t : Text) → keep_front is_space c t ≡ c ∷ t
    kept [] = rw (name_plain c (ground arith)).1 refl
    kept (d ∷ t) = refl

pub strip_name : (key : Text) → all is_name_char key ≡ true → strip key ≡ key
unfolding strip strip_chars strip_left
strip_name [] h = refl
strip_name (c ∷ key) h = rw (name_plain c (ground arith)).1 (strip_right_name (c ∷ key) h)

pub without_last-snoc : (q : ℕ) (t : Text) → without_last q (t ++ q ∷ []) ≡ some t
unfolding without_last
without_last-snoc q [] = ground arith
without_last-snoc q (c ∷ []) = ground arith
without_last-snoc q (c ∷ d ∷ t) = ap (prepend c) (without_last-snoc q (d ∷ t))

pub split_entry-append :
    (key value : Text)
    → all is_name_char key ≡ true
    → split_entry (key ++ 61 ∷ value) ≡ (key, value)
unfolding split_entry
split_entry-append [] value h = refl
split_entry-append (c ∷ key) value h =
    let other : (c == 61) ≡ false = ground arith in
    rw (other, split_entry-append key value (ground arith)) refl

pub has_equals : (key value : Text) → has_char 61 (key ++ 61 ∷ value) ≡ true
unfolding has_char
has_equals [] value = refl
has_equals (c ∷ key) value = ground (arith, has_equals key value)

pub no_export :
    (word key value : Text)
    → all is_letter word ≡ true
    → all is_name_char key ≡ true
    → strip_prefix (word ++ 32 ∷ []) (key ++ 61 ∷ value) ≡ none
unfolding strip_prefix
no_export [] [] value h k = refl
no_export [] (c ∷ key) value h k = ground arith
no_export (w ∷ word) [] value h k = ground arith
no_export (w ∷ word) (c ∷ key) value h k = ground (arith, no_export word key value)
