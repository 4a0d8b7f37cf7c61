-- ===== src/Common.antt =====
-- The names that the other modules share: those of the libraries, passed on, and the tests, lists,
-- integers and byte strings of the child modules.
mod Tests
mod Lists
mod Int
mod ByteStrings
mod Decimal
pub use Tests.*
unfoldable pub use Decimal.*
unfoldable pub use Lists.*
unfoldable pub use Int.*
unfoldable pub use ByteStrings.*
pub use Prim.Native.Nat.{ℕ, zero, suc, ◌+◌, ◌-◌, ◌*◌, ◌/◌, ◌%◌, ◌^◌, ◌≤◌, ◌<◌}
pub use mathlib.Core.Path.{◌≡◌, refl, sym, ap, ◌∙◌}
pub use mathlib.Core.Logic.{◌≢◌, ◌↔◌, ◌⊎◌, inl, inr}
pub use mathlib.Core.Bool.{Bool, true, false, not, ◌&&◌, ◌||◌}
pub use mathlib.Core.Option.{Option, none, some}
pub use mathlib.Core.List.{List, [], ◌∷◌, ◌++◌, map}
pub use native.Mathlib.Omega.{arith}
