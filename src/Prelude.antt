-- ===== src/Prelude.antt =====
-- The names that the other modules share: the libraries', passed on, and those of four children.
mod Tests
mod Lists
mod Text
mod Lines
mod Words
pub mod Distinct
pub mod Int
pub mod StrSet
pub mod StrOrder
pub mod Counting
pub mod Fields
pub use Text.{keyed}
pub use Tests.*
pub use Lists.*
unfoldable pub use Text.{
  str_is_empty, contains, str_lt, is_whitespace, trim_start, trim_end, trim, map_chars, lower_char,
  to_ascii_lowercase, replace_char, take_chars, any_char, all_chars, mem_str, contains_any,
}
unfoldable pub use Lines.{lines, until, split}
unfoldable pub use Words.{ends_with, split_whitespace, join, decimal}
pub use Lines.{trim_idem, count-append, count-take_chars}
pub use Prim.Native.Nat.{ℕ, zero, suc, ◌+◌, ◌-◌, ◌*◌, ◌/◌, ◌%◌, ◌^◌, ◌≤◌, ◌<◌, min, max}
pub use Prim.Native.Char.{Char, code}
pub use Prim.Native.String.{String, len, count, ◌++◌ as push_str}
pub use mathlib.Core.Path.{◌≡◌, refl, sym, ap, subst, ◌∙◌}
pub use mathlib.Core.Logic.{◌≢◌, ◌↔◌, ◌⊎◌, inl, inr}
pub use mathlib.Core.Bool.{Bool, true, false, not, ◌&&◌, ◌||◌}
pub use mathlib.Core.Option.{Option, none, some}
pub use mathlib.Core.List.{List, [], ◌∷◌, ◌++◌, map}
pub use native.Mathlib.Omega.{arith}
pub use text.Mathlib.Text.{◌==◌ as str_eq, starts_with}
pub use text.Mathlib.TextEquality.{eq_iff}
pub use text.Mathlib.TextPositions.{eq_refl}
