-- ===== src/Common.antt =====
-- Shared names: the libraries', the Boolean tests, lists over native numbers, and C memory copies.
mod Tests
mod Lists
mod Split
mod Memory
mod Fault
pub mod Words
pub mod Int
pub mod Bytes
pub use Tests.*
pub use Lists.*
pub use Split.*
unfoldable pub use Memory.*
pub use Fault.*
pub use Prim.Native.Nat.{ℕ, zero, suc, ◌+◌, ◌-◌, ◌*◌, ◌/◌, ◌%◌, ◌^◌, ◌≤◌, ◌<◌, min, max}
pub use mathlib.Core.Path.{◌≡◌, refl, sym, ap, ap₂, ◌∙◌}
pub use mathlib.Core.Logic.{◌≢◌, ◌↔◌, ◌⊎◌, inl, inr}
pub use mathlib.Core.Bool.{Bool, true, false, not, ◌&&◌, ◌||◌}
pub use mathlib.Core.Option.{Option, none, some}
pub use mathlib.Core.List.{List, [], ◌∷◌, ◌++◌, map, append-nil, append_assoc}
pub use native.Mathlib.Omega.{arith}
