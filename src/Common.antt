-- ===== src/Common.antt =====
-- Shared vocabulary: the library's names passed on, Boolean tests, arrays as lists over the native
-- numbers, signed integers, machine words and bit masks.
mod Tests
mod Lists
mod Options
mod Arrays
mod Counts
mod BitLaws
mod Bits
pub mod Int
pub use Tests.*
pub use Options.*
unfoldable pub use Lists.*
pub use BitLaws.*
pub use Arrays.*
pub use Counts.*
unfoldable pub use Bits.*
pub use Prim.Native.Nat.{ℕ, zero, suc, ◌+◌, ◌-◌, ◌*◌, ◌/◌, ◌%◌, ◌^◌, ◌≤◌, ◌<◌, min, max, pred}
pub use mathlib.Core.Path.{◌≡◌, refl, sym, ap, ap₂, subst, ◌∙◌}
pub use mathlib.Core.Logic.{◌≢◌, ◌↔◌, ◌⊎◌, inl, inr}
pub use mathlib.Core.Bool.{Bool, true, false, not, ◌&&◌, ◌||◌}
pub use mathlib.Core.Option.{Option, none, some}
pub use mathlib.Core.List.{List, [], ◌∷◌, ◌++◌, map}
pub use native.Mathlib.Omega.{arith}
