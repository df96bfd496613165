-- ===== src/Prelude.antt =====
-- The names that the other modules share: the libraries', passed on, and those of the children.
mod Tests
mod Texts
pub mod Lists
pub mod Decimal
pub mod Map
pub mod Json
pub mod Results
pub mod Options
pub mod Splits
pub mod Listed
pub use Tests.{
  ltb, leb, ◌==◌, if◌then◌else◌, holds, Bool-cases, Option-cases, is_some, All, length, not_holds,
  holds-sound, xor_bool,
}
unfoldable pub use Tests.{any, all, keep}
pub use Texts.{Text, utf8_width, is_ascii_alphanumeric}
unfoldable pub use Texts.{
  text, Text-discrete, Texts-discrete, text_less, texts_less, text_len, is_ascii_hexdigit, is_blank,
  trim, to_ascii_lowercase, starts_with, strip_prefix, contains, join, to_string, is_whitespace,
}
pub use Prim.Native.Nat.{ℕ, zero, suc, ◌+◌, ◌-◌, ◌*◌, ◌/◌, ◌%◌, ◌^◌, ◌≤◌, ◌<◌}
pub use Prim.Native.String.{String}
pub use mathlib.Core.Path.{◌≡◌, refl, sym, ap, ◌∙◌, subst}
pub use mathlib.Core.Logic.{◌≢◌, ◌↔◌, ◌⊎◌, inl, inr, ite}
pub use mathlib.Core.Bool.{Bool, true, false, not, ◌&&◌, ◌||◌}
pub use mathlib.Core.Option.{Option, none, some}
pub use mathlib.Core.List.{List, [], ◌∷◌, ◌++◌, map}
pub use native.Mathlib.Omega.{arith}
unfoldable pub use native.Mathlib.Decide.{ℕ_discrete}
