-- ===== src/Prelude.antt =====
-- The names that the other modules share: the libraries', passed on, and those of the children.
mod Tests
mod Lists
mod Strings
pub mod Int
pub mod Split
pub mod Ascending
pub use Tests.*
pub use Lists.*
unfoldable pub use Strings.{
  Text, text, is_empty, text_eq, starts_with, remove_prefix, contains, mem_text, decimal, value,
  is_digits, truthy, or_text,
}
pub use Strings.{
  text_eq_iff, text_eq_refl, starts_with-append, remove_prefix-append, value-decimal,
  is_digits-decimal, mem_text-cons, mem_text-here, All-mem_text,
}
pub use Prim.Native.Nat.{ℕ, zero, suc, ◌+◌, ◌-◌, ◌*◌, ◌/◌, ◌%◌, ◌≤◌, ◌<◌, min, max}
pub use Prim.Native.String.{String}
pub use mathlib.Core.Path.{◌≡◌, refl, sym, ap, ◌∙◌}
pub use mathlib.Core.Logic.{◌≢◌, ◌↔◌, ◌⊎◌, inl, inr}
pub use mathlib.Core.Bool.{Bool, true, false, ◌&&◌, ◌||◌, not}
pub use mathlib.Core.Option.{Option, none, some}
pub use mathlib.Core.List.{List, [], ◌∷◌, ◌++◌, map, reverse, append_assoc, append-nil}
pub use native.Mathlib.Omega.{arith}
