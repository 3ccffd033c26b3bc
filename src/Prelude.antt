-- ===== src/Prelude.antt =====
-- The names that every module of the development shares: the library's, passed on, and those of
-- the children, on tests, keys, lists, integers and maps.
mod Tests
mod Lists
pub mod Eq
pub mod Int
pub mod Dict
pub use Tests.{
  ltb, leb, if◌then◌else◌, ltb→lt, lt→ltb, ltb-le, le→leb, leb→le, ==_iff, tests, Bool-cases,
  Option-cases,
}
pub use Lists.*
pub use Prim.Native.Nat.{ℕ, zero, suc, ◌+◌, ◌-◌, ◌*◌, ◌/◌, ◌%◌, ◌^◌, ◌≤◌, ◌<◌}
pub use Prim.Native.String.{String}
pub use mathlib.Core.Path.{◌≡◌, refl, sym, ap, ◌∙◌}
pub use mathlib.Core.Logic.{◌≢◌, ◌↔◌, ◌⊎◌, inl, inr}
pub use mathlib.Core.Bool.{Bool, true, false, not, ◌&&◌, ◌||◌}
pub use mathlib.Core.Option.{Option, none, some}
pub use mathlib.Core.List.{List, [], ◌∷◌, ◌++◌, map, reverse}
pub use native.Mathlib.Omega.{arith}
pub use text.Mathlib.TextEquality.{eq_iff}
