-- ===== src/Config/RoundTrip.antt =====
-- `perago/config.py`: `read_dotenv` reads back an environment that was written line by line.
use mathlib.Core.List.{append-nil, append_assoc}
use perago.Base.{
  ◌==◌, Bool, true, false, ◌&&◌, ◌||◌, not, some, Text, text, text_eq, text_eq_sound, text_in,
  distinct, List, [], ◌∷◌, ◌++◌, ◌≡◌, refl, sym, ap, ◌∙◌, inl, inr, arith, all, is_space, strip,
  is_empty, Bool-cases,
}
use perago.Config.Environment.{Env, put}
use perago.Config.Lookup.{keys}
use perago.Config.Dotenv.{
  is_line_break, splitlines, strip_env_value, read_line, read_lines, read_dotenv,
}
use perago.Config.Lines.{
  is_name_char, name_plain, splitlines-append, strip-enclosed, strip_name, without_last-snoc,
  split_entry-append, has_equals, no_export,
}

-- `name="value"` on a line of its own
unfoldable pub render : Env → Text
render [] = []
render ((key, value) ∷ rest) = key ++ (61 ∷ 34 ∷ (value ++ (34 ∷ 10 ∷ render rest)))

-- The names are of letters, digits and underscores, and no value holds a line break.
unfoldable pub is_printable : Env → Bool
is_printable [] = true
is_printable ((key, value) ∷ rest) =
    not (is_empty key)
    && all is_name_char key
    && all (λ c. not (is_line_break c)) value
    && is_printable rest

-- the line that an entry is written on
abbrev printed : (key value : Text) → Text
printed key value = key ++ (61 ∷ 34 ∷ (value ++ 34 ∷ []))

strip-printed :
    (key value : Text)
    → is_empty key ≡ false
    → all is_name_char key ≡ true
    → strip (printed key value) ≡ printed key value
unfolding is_space
strip-printed [] value f h = cc
strip-printed (c ∷ key) value f h =
    let same : printed (c ∷ key) value ≡ c ∷ (key ++ 61 ∷ 34 ∷ value) ++ 34 ∷ [] =
      ap (λ (r : Text). c ∷ r) (sym (append_assoc key (61 ∷ 34 ∷ value) (34 ∷ []))) in
    ap strip same
    ∙ strip-enclosed c 34 (key ++ 61 ∷ 34 ∷ value) (name_plain c (ground arith)).1 refl
    ∙ sym same

strip_env_value-quoted : (value : Text) → strip_env_value (34 ∷ (value ++ 34 ∷ [])) ≡ value
unfolding strip_env_value
strip_env_value-quoted value = rw (without_last-snoc 34 value) refl

read_line-printed :
    (key value : Text) (env : Env)
    → is_empty key ≡ false
    → all is_name_char key ≡ true
    → read_line (printed key value) env ≡ put key value env
unfolding read_line text
read_line-printed [] value env f h = cc
read_line-printed (c ∷ key) value env f h =
    let letter : (c == b'#') ≡ false = ground arith in
    let quoted = strip-enclosed 34 34 value (unfold is_space in refl) (unfold is_space in refl) in
    rw
      (
        letter,
        has_equals (c ∷ key) (34 ∷ (value ++ 34 ∷ [])),
        no_export (text "export") (c ∷ key) (34 ∷ (value ++ 34 ∷ [])) refl h,
        split_entry-append (c ∷ key) (34 ∷ (value ++ 34 ∷ [])) h,
        strip_name (c ∷ key) h,
        quoted,
        strip_env_value-quoted value,
      )
      refl

put_new :
    (key value : Text) (env : Env)
    → text_in key (keys env) ≡ false
    → put key value env ≡ env ++ (key, value) ∷ []
unfolding put text_in
put_new key value [] h = refl
put_new key value ((k, v) ∷ env) h =
    let other : text_eq key k ≡ false = ground arith in
    rw other (ap (λ (r : Env). (k, v) ∷ r) (put_new key value env (ground arith)))

line-printed :
    (key value rest : Text)
    → key ++ (61 ∷ 34 ∷ (value ++ (34 ∷ 10 ∷ rest))) ≡ printed key value ++ (10 ∷ rest)
line-printed key value rest =
    ap (λ (r : Text). key ++ (61 ∷ 34 ∷ r)) (sym (append_assoc value (34 ∷ []) (10 ∷ rest)))
    ∙ sym (append_assoc key (61 ∷ 34 ∷ (value ++ 34 ∷ [])) (10 ∷ rest))

abbrev on_one_line : Text → Bool
on_one_line t = all (λ c. not (is_line_break c)) t

on_one_line-append :
    (s t : Text) → on_one_line s ≡ true → on_one_line t ≡ true → on_one_line (s ++ t) ≡ true
on_one_line-append [] t h k = k
on_one_line-append (c ∷ s) t h k = ground (arith, on_one_line-append s t)

on_one_line-name : (key : Text) → all is_name_char key ≡ true → on_one_line key ≡ true
on_one_line-name [] h = refl
on_one_line-name (c ∷ key) h = ground (arith, on_one_line-name key, (name_plain c (ground arith)).0)

on_one_line-printed :
    (key value : Text)
    → all is_name_char key ≡ true
    → on_one_line value ≡ true
    → on_one_line (printed key value) ≡ true
unfolding is_line_break
on_one_line-printed key value h k =
    on_one_line-append key (61 ∷ 34 ∷ (value ++ 34 ∷ [])) (on_one_line-name key h)
      (on_one_line-append value (34 ∷ []) k refl)

keys-append : (s t : Env) → keys (s ++ t) ≡ keys s ++ keys t
keys-append [] t = refl
keys-append ((k, v) ∷ s) t = ap (λ (r : List Text). k ∷ r) (keys-append s t)

text_in-append : (x : Text) (s t : List Text) → text_in x (s ++ t) ≡ (text_in x s || text_in x t)
unfolding text_in
text_in-append x [] t = refl
text_in-append x (y ∷ s) t = ground (arith, text_in-append x s t)

-- A name behind others is none of them.
distinct_behind :
    (s : List Text) (x : Text) (t : List Text) → distinct (s ++ x ∷ t) ≡ true → text_in x s ≡ false
unfolding distinct text_in
distinct_behind [] x t h = refl
distinct_behind (y ∷ s) x t h =
    let listed = text_in-append y s (x ∷ t) in
    let rest = distinct_behind s x t (ground arith) in
    elim (Bool-cases (text_eq x y)) [
      | inl same ↦ cc (text_eq_sound x y same)
      | inr other ↦ rw other rest
    ]

keys_moved :
    (acc : Env) (key value : Text) (env : Env)
    → keys (acc ++ (key, value) ∷ []) ++ keys env ≡ keys acc ++ key ∷ keys env
keys_moved acc key value env =
    ap (λ (r : List Text). r ++ keys env) (keys-append acc ((key, value) ∷ []))
    ∙ append_assoc (keys acc) (key ∷ []) (keys env)

read_lines-render :
    (env acc : Env)
    → is_printable env ≡ true
    → distinct (keys acc ++ keys env) ≡ true
    → read_lines (splitlines (render env)) acc ≡ acc ++ env
unfolding is_printable render read_lines
read_lines-render [] acc p d = unfold splitlines read_lines in sym (append-nil acc)
read_lines-render ((key, value) ∷ env) acc p d =
    let lines = splitlines (render env) in
    let filled : is_empty key ≡ false = ground arith in
    let name : all is_name_char key ≡ true = ground arith in
    let new = distinct_behind (keys acc) key (keys env) d in
    ap (λ (t : Text). read_lines (splitlines t) acc) (line-printed key value (render env))
    ∙ ap (λ (ls : List Text). read_lines ls acc)
        (splitlines-append (printed key value) (render env)
          (on_one_line-printed key value name (ground arith)))
    ∙ ap (read_lines lines) (
        ap (λ (l : Text). read_line l acc) (strip-printed key value filled name)
        ∙ read_line-printed key value acc filled name
        ∙ put_new key value acc new)
    ∙ read_lines-render env (acc ++ (key, value) ∷ []) (ground arith)
        (ap distinct (keys_moved acc key value env) ∙ d)
    ∙ append_assoc acc ((key, value) ∷ []) env

-- An environment in which no name occurs twice, whose names are of letters, digits and underscores
-- and whose values, with or without quotes and blanks, hold no line break, is read back as it was
-- from a file with one line `name="value"` for each variable.
pub read_dotenv-render :
    (env : Env)
    → is_printable env ≡ true
    → distinct (keys env) ≡ true
    → read_dotenv (some (render env)) ≡ env
unfolding read_dotenv
read_dotenv-render env p d = read_lines-render env [] p d
