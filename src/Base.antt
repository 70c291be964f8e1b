-- ===== src/Base.antt =====
-- The names that the other modules share: the libraries', passed on, and those of the children.
mod Checks
mod Lists
pub mod Raise
pub mod Stateful
pub mod Int
pub mod Text
pub mod Number
pub mod Json
pub mod Dynamic
pub mod Fixed
pub mod Effects
pub use Checks.*
pub use Lists.*
pub use Raise.{
  PyError, Result, ok, err, type_error, value_error, key_error, index_error, zero_division,
  overflow, attribute_error, http, client, runtime, config, lock_held, other, >>=-eq-ok,
  ok-injective, err-injective, or_raise,
}
pub use Stateful.{Exec}
pub use Prim.Native.Nat.{ℕ, zero, suc, ◌+◌, ◌-◌, ◌*◌, ◌/◌, ◌%◌, ◌≤◌, ◌<◌}
pub use Prim.Native.String.{String}
pub use mathlib.Core.Path.{◌≡◌, refl, sym, ap, ◌∙◌}
pub use mathlib.Core.Logic.{◌≢◌, ◌↔◌, ◌⊎◌, inl, inr}
pub use mathlib.Core.Bool.{Bool, true, false, not, ◌&&◌, ◌||◌}
pub use mathlib.Core.Option.{Option, none, some}
pub use mathlib.Core.List.{List, [], ◌∷◌, ◌++◌, map}
pub use native.Mathlib.Omega.{arith}
pub use text.Mathlib.Text.{◌==◌ as str_eq}
pub use text.Mathlib.TextEquality.{eq_iff}
pub use text.Mathlib.TextPositions.{eq_refl}
