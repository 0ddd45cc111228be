-- ===== src/Base.antt =====
-- Names shared by every module: library names, tests on numbers, lists over the native numbers,
-- and the outcome of a C function that may fail an assertion.
mod Tests
mod Lists
pub mod Ring
pub mod Renaming
pub mod Bits
pub mod Walk
pub mod Align
mod Result
pub use Tests.*
pub use Lists.*
pub use Result.*
pub use Prim.Native.Nat.{ℕ, zero, suc, ◌+◌, ◌-◌, ◌*◌, ◌/◌, ◌%◌, ◌^◌, ◌≤◌, ◌<◌, bit_and}
pub use mathlib.Core.Path.{◌≡◌, refl, sym, ap, ◌∙◌, subst, fun_ext}
pub use mathlib.Core.Logic.{◌≢◌, ◌↔◌, ◌⊎◌, inl, inr}
pub use mathlib.Core.Bool.{Bool, true, false, ◌&&◌, ◌||◌, not}
pub use mathlib.Core.Option.{Option, none, some}
pub use mathlib.Core.List.{List, [], ◌∷◌, ◌++◌, reverse, map}
pub use native.Mathlib.Omega.{arith}
