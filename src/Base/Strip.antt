-- ===== src/Base/Strip.antt =====
-- `str.strip()` and its variants with a set of characters.
use Prim.Native.Nat.{ℕ}
use mathlib.Core.Bool.{Bool, ◌&&◌, ◌||◌}
use mathlib.Core.List.{[], ◌∷◌}
use perago.Base.Tests.{leb, ◌==◌, if◌then◌else◌}
use perago.Base.Lists.{is_empty}
use perago.Base.Strings.{Text}

-- `str.isspace` of one code point
unfoldable pub is_space : ℕ → Bool
is_space c =
    (leb 9 c && leb c 13)
    || (leb 28 c && leb c 32)
    || c == 133
    || c == 160
    || c == 5760
    || (leb 8192 c && leb c 8202)
    || c == 8232
    || c == 8233
    || c == 8239
    || c == 8287
    || c == 12288

module _ (drop : ℕ → Bool) where
  unfoldable pub strip_left : Text → Text
  strip_left [] = []
  strip_left (c ∷ rest) = let shorter = strip_left rest in if drop c then shorter else c ∷ rest

  -- `c` in front of what is left of the rest
  abbrev pub keep_front : ℕ → Text → Text
  keep_front c [] = if drop c then [] else c ∷ []
  keep_front c (d ∷ rest) = c ∷ d ∷ rest

  unfoldable pub strip_right : Text → Text
  strip_right [] = []
  strip_right (c ∷ rest) = keep_front c (strip_right rest)

  unfoldable pub strip_chars : Text → Text
  unfolding strip_left strip_right
  strip_chars t = strip_right (strip_left t)

unfoldable pub strip : Text → Text
unfolding is_space strip_chars
strip t = strip_chars is_space t

-- `value.strip() == ""`
unfoldable pub is_blank : Text → Bool
unfolding strip
is_blank t = is_empty (strip t)
