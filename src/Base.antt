-- ===== src/Base.antt =====
-- The names that the other modules share: the libraries', passed on, and those of the children.
mod Tests
mod Lists
mod Strings
mod Split
mod Strip
mod Decimal
mod Digits
mod Sorted
pub use Tests.*
pub use Lists.*
pub use Strings.{Text, text_eq_sound, text_eq_refl, text_eq_iff}
unfoldable pub use Strings.{text, text_eq, text_in, distinct}
pub use Split.{split-ne-nil, join-split, split-join, split-plain_parts}
pub use Split.{strip_prefix-append, strip_prefix_sound}
unfoldable pub use Split.{split, join, has_char, strip_prefix}
pub use Decimal.{
  is_digit, decimal-are_digits, decimal-ne-nil, read_decimal-decimal, decimal-injective,
}
pub use Digits.{
  decimal-read_decimal, read_decimal-positive, decimal-is_positive_number, decimal-length,
}
unfoldable pub use Decimal.{decimal, read_decimal, read_onto, is_positive_number}
pub use Strip.{keep_front}
unfoldable pub use Strip.{is_space, strip_left, strip_right, strip_chars, strip, is_blank}
pub use Sorted.{text_in-sorted, text_in-cases, not_in_nil, text_in_here, text_in_later}
unfoldable pub use Sorted.{text_le, insert, sorted}
pub use Prim.Native.Nat.{ℕ, zero, suc, ◌+◌, ◌-◌, ◌*◌, ◌/◌, ◌%◌, ◌^◌, ◌≤◌, ◌<◌, min}
pub use Prim.Native.String.{String}
pub use mathlib.Core.Path.{◌≡◌, refl, sym, ap, ◌∙◌, subst}
pub use mathlib.Core.Logic.{◌≢◌, ◌↔◌, ◌⊎◌, inl, inr}
pub use mathlib.Core.Bool.{Bool, true, false, ◌&&◌, ◌||◌, not}
pub use mathlib.Core.Option.{Option, none, some}
pub use mathlib.Core.List.{List, [], ◌∷◌, ◌++◌, map}
pub use native.Mathlib.Omega.{arith}
