-- ===== src/Base/Split.antt =====
-- `str.split(sep)` and `sep.join(parts)` for a separator of one character, and prefixes.
use Prim.Native.Nat.{ℕ}
use mathlib.Core.Path.{◌≡◌, refl, ap}
use mathlib.Core.Logic.{◌≢◌}
use mathlib.Core.Bool.{Bool, true, false, ◌||◌, not}
use mathlib.Core.Option.{Option, none, some}
use mathlib.Core.List.{List, [], ◌∷◌, ◌++◌}
use native.Mathlib.Omega.{arith}
use perago.Base.Tests.{◌==◌, if◌then◌else◌}
use perago.Base.Lists.{all}
use perago.Base.Strings.{Text}

-- The first part gets one more character in front.
abbrev pub push : ℕ → List Text → List Text
push x [] = (x ∷ []) ∷ []
push x (p ∷ ps) = (x ∷ p) ∷ ps

unfoldable pub split : ℕ → Text → List Text
split sep [] = [] ∷ []
split sep (x ∷ xs) = let rest = split sep xs in if x == sep then [] ∷ rest else push x rest

unfoldable pub join : ℕ → List Text → Text
join sep [] = []
join sep (p ∷ []) = p
join sep (p ∷ q ∷ ps) = p ++ sep ∷ join sep (q ∷ ps)

-- `sep in text`
unfoldable pub has_char : ℕ → Text → Bool
has_char c [] = false
has_char c (x ∷ xs) = x == c || has_char c xs

-- The rest of the text behind a prefix: `startswith` and `removeprefix` in one.
unfoldable pub strip_prefix : Text → Text → Option Text
strip_prefix [] t = some t
strip_prefix (p ∷ ps) [] = none
strip_prefix (p ∷ ps) (x ∷ xs) = let rest = strip_prefix ps xs in if p == x then rest else none

pub split-ne-nil : (sep : ℕ) (t : Text) → split sep t ≢ []
unfolding split
split-ne-nil sep [] h = cc
split-ne-nil sep (x ∷ xs) h = ground (arith, push-ne-nil x (split sep xs))
  where
    push-ne-nil : (x : ℕ) (ps : List Text) → push x ps ≢ []
    push-ne-nil x [] h = cc
    push-ne-nil x (p ∷ ps) h = cc

join-push : (sep x : ℕ) (ps : List Text) → ps ≢ [] → join sep (push x ps) ≡ x ∷ join sep ps
unfolding join
join-push sep x [] h = absurd (h refl)
join-push sep x (p ∷ []) h = refl
join-push sep x (p ∷ q ∷ ps) h = refl

join-cons_nil : (sep : ℕ) (ps : List Text) → ps ≢ [] → join sep ([] ∷ ps) ≡ sep ∷ join sep ps
unfolding join
join-cons_nil sep [] h = absurd (h refl)
join-cons_nil sep (p ∷ ps) h = refl

-- Joining what was split gives the text back.
pub join-split : (sep : ℕ) (t : Text) → join sep (split sep t) ≡ t
unfolding split join
join-split sep [] = refl
join-split sep (x ∷ xs) = ground (
  arith,
  join-split sep xs,
  join-push sep x (split sep xs) (split-ne-nil sep xs),
  join-cons_nil sep (split sep xs) (split-ne-nil sep xs),
)

split-plain : (sep : ℕ) (p : Text) → has_char sep p ≡ false → split sep p ≡ p ∷ []
unfolding split has_char
split-plain sep [] h = refl
split-plain sep (x ∷ p) h = ground (arith, split-plain sep p)

split-append :
    (sep : ℕ) (p r : Text) → has_char sep p ≡ false → split sep (p ++ sep ∷ r) ≡ p ∷ split sep r
unfolding split has_char
split-append sep [] r h = ground arith
split-append sep (x ∷ p) r h = ground (arith, split-append sep p r)

-- Splitting what was joined gives the parts back, if none of them holds the separator.
pub split-join :
    (sep : ℕ) (ps : List Text)
    → ps ≢ []
    → all (λ p. not (has_char sep p)) ps ≡ true
    → split sep (join sep ps) ≡ ps
unfolding join
split-join sep [] n h = absurd (n refl)
split-join sep (p ∷ []) n h = split-plain sep p (ground arith)
split-join sep (p ∷ q ∷ ps) n h =
    rw (split-append sep p (join sep (q ∷ ps)) (ground arith))
      (ap (λ (r : List Text). p ∷ r) (split-join sep (q ∷ ps) (λ e. cc) (ground arith)))

-- No part of a split text holds the separator.
pub split-plain_parts : (sep : ℕ) (t : Text) → all (λ p. not (has_char sep p)) (split sep t) ≡ true
unfolding split has_char
split-plain_parts sep [] = refl
split-plain_parts sep (x ∷ xs) = plain_push (split sep xs) (split-plain_parts sep xs)
  where
    plain_push :
        (ps : List Text)
        → all (λ p. not (has_char sep p)) ps ≡ true
        → all (λ p. not (has_char sep p)) (if x == sep then [] ∷ ps else push x ps) ≡ true
    plain_push [] h = ground arith
    plain_push (p ∷ ps) h = ground arith

pub strip_prefix-append : (p t : Text) → strip_prefix p (p ++ t) ≡ some t
unfolding strip_prefix
strip_prefix-append [] t = refl
strip_prefix-append (x ∷ p) t = ground (arith, strip_prefix-append p t)

pub strip_prefix_sound : (p t r : Text) → strip_prefix p t ≡ some r → t ≡ p ++ r
unfolding strip_prefix
strip_prefix_sound [] t r h = ground arith
strip_prefix_sound (x ∷ p) [] r h = cc
strip_prefix_sound (x ∷ p) (y ∷ t) r h = ground (arith, strip_prefix_sound p t r)
