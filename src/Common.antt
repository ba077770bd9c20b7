-- ===== src/Common.antt =====
-- What the modules share: the libraries' names passed on, Boolean tests, lists, BTreeMap and BTreeSet
-- over native keys, and the result of code that may fail or panic.
mod Tests
mod Lists
pub mod Dict
pub mod Ordered
pub mod Text
pub mod Outcome
pub mod Handler
pub mod Slices
pub mod Integers
pub use Tests.*
pub use Lists.*
pub use Prim.Native.Nat.{ℕ, zero, suc, ◌+◌, ◌-◌, ◌*◌, ◌/◌, ◌%◌, ◌^◌, ◌≤◌, ◌<◌}
pub use mathlib.Core.Path.{◌≡◌, refl, sym, ap, ◌∙◌}
pub use mathlib.Core.Logic.{◌≢◌, ◌↔◌, ◌⊎◌, inl, inr}
pub use mathlib.Core.Bool.{Bool, true, false, not, ◌&&◌, ◌||◌}
pub use mathlib.Core.Option.{Option, none, some}
pub use mathlib.Core.List.{List, [], ◌∷◌, ◌++◌, map}
pub use native.Mathlib.Omega.{arith}
