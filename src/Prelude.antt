-- ===== src/Prelude.antt =====
-- The names that the other modules share: the libraries' ones, passed on, and those of the child
-- modules, which model what the program uses of the Go language and its standard library.
mod Tests
mod Lists
mod Runs
pub mod Int
pub mod Order
pub mod Search
pub mod Str
pub mod Maps
pub mod Errors
pub mod Time
pub use Tests.*
unfoldable pub use Lists.*
pub use Runs.*
pub use Prim.Native.Nat.{ℕ, zero, suc, ◌+◌, ◌-◌, ◌*◌, ◌/◌, ◌%◌, ◌^◌, ◌≤◌, ◌<◌}
pub use mathlib.Core.Path.{◌≡◌, refl, sym, ap, ◌∙◌}
pub use mathlib.Core.Logic.{◌≢◌, ◌↔◌, ◌⊎◌, inl, inr}
pub use mathlib.Core.Bool.{Bool, true, false, not, ◌&&◌, ◌||◌}
pub use mathlib.Core.Option.{Option, none, some}
pub use mathlib.Core.List.{List, [], ◌∷◌, ◌++◌, map, Mem, Perm}
pub use native.Mathlib.Omega.{arith}
