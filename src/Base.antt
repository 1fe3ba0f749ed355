-- ===== src/Base.antt =====
-- What the other modules share: names of the libraries, passed on, tests on numbers, lists over the
-- native numbers, byte strings with the calls of Go's package strings that the code makes, and maps.
mod Tests
mod Lists
pub mod Bytes
pub mod Table
pub mod Int
pub mod Decimal
pub mod Rows
pub mod Keys
pub mod Order
pub mod Time
pub mod Split
pub mod Filtered
pub use Tests.*
pub use Lists.*
pub use Prim.Native.Nat.{ℕ, zero, suc, ◌+◌, ◌-◌, ◌*◌, ◌/◌, ◌%◌, ◌^◌, ◌≤◌, ◌<◌}
pub use mathlib.Core.Path.{◌≡◌, refl, sym, ap, ◌∙◌, subst}
pub use mathlib.Core.Logic.{◌≢◌, ◌↔◌, ◌⊎◌, inl, inr}
pub use mathlib.Core.Bool.{Bool, true, false, not, ◌&&◌, ◌||◌}
pub use mathlib.Core.Option.{Option, none, some}
pub use mathlib.Core.List.{List, [], ◌∷◌, ◌++◌, map, append_assoc, append-nil}
pub use native.Mathlib.Omega.{arith}
unfoldable pub use native.Mathlib.Decide.{dec_lt, ℕ_discrete}
