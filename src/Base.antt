-- ===== src/Base.antt =====
-- The names that the other modules share: the libraries' names, passed on, Boolean tests on the
-- native numbers, lists measured by native numbers, and texts as lists of code points.
mod Tests
mod Lists
mod Texts
mod Sets
mod Maps
pub use Tests.*
pub use Lists.*
pub use Sets.*
unfoldable pub use Texts.{
  Text, codes, text_eq, text_lt, strip_suffix, starts_with, parse_digits, parse_u32, decimal_onto,
  decimal, join, find_char, rfind_char,
}
unfoldable pub use Maps.{lookup_entry, insert_entry}
pub use Maps.{lookup_entry-insert_entry}
pub use Texts.{text_eq_iff, text_eq_refl, text_eq-true, text_eq-false, text_eq_comm, parse_u32-lt}
pub use Prim.Native.Nat.{ℕ, zero, suc, ◌+◌, ◌-◌, ◌*◌, ◌/◌, ◌%◌, ◌^◌, ◌≤◌, ◌<◌, min}
pub use mathlib.Core.Path.{◌≡◌, refl, sym, ap, ◌∙◌, subst}
pub use mathlib.Core.Logic.{◌≢◌, ◌↔◌, ◌⊎◌, inl, inr}
pub use mathlib.Core.Bool.{Bool, true, false, not, ◌&&◌, ◌||◌}
pub use mathlib.Core.Option.{Option, none, some}
pub use mathlib.Core.List.{List, [], ◌∷◌, ◌++◌, map}
pub use native.Mathlib.Omega.{arith}
