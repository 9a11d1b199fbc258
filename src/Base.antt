-- ===== src/Base.antt =====
-- Names that the other modules share: the libraries', passed on, the Boolean tests on numbers and
-- texts, the conditional, and the list functions over the native numbers.
mod Tests
mod Lists
pub mod Text
pub mod Int
pub mod Number
pub mod Errors
pub mod Split
pub mod Decimal
pub mod Strip
pub mod Library
pub mod Choices
pub mod Calls
pub use Tests.*
pub use Lists.*
pub use Prim.Native.Nat.{ℕ, zero, suc, ◌+◌, ◌-◌, ◌*◌, ◌/◌, ◌%◌, ◌^◌, ◌≤◌, ◌<◌}
pub use Prim.Native.String.{String, count}
pub use mathlib.Core.Path.{◌≡◌, refl, sym, ap, ◌∙◌}
pub use mathlib.Core.Logic.{◌≢◌, ◌↔◌, ◌⊎◌, inl, inr}
pub use mathlib.Core.Bool.{Bool, true, false, not, ◌&&◌, ◌||◌}
pub use mathlib.Core.Option.{Option, none, some}
pub use mathlib.Core.List.{List, [], ◌∷◌, ◌++◌, map}
pub use native.Mathlib.Omega.{arith}
pub use text.Mathlib.TextEquality.{eq_iff}
