-- ===== src/Common.antt =====
-- The names that the components share: those of the libraries, passed on, and those of the
-- children (tests on numbers, lists, bits, machine words, integers, order, results).
mod Tests
mod Lists
mod Slices
pub mod Bits
pub mod Words
pub mod Ints
pub mod Arrays
pub mod Order
pub mod Result
pub use Tests.*
pub use Lists.*
pub use Slices.*
pub use Prim.Native.Nat.{
  ℕ, zero, suc, ◌+◌, ◌-◌, ◌*◌, ◌/◌, ◌%◌, ◌^◌, ◌≤◌, ◌<◌, min, max, bit_and, bit_or, bit_xor,
}
pub use mathlib.Core.Path.{◌≡◌, refl, sym, ap, ap₂, ◌∙◌}
pub use mathlib.Core.Logic.{◌≢◌, ◌↔◌, ◌⊎◌, inl, inr}
pub use mathlib.Core.Bool.{Bool, true, false, ◌&&◌, ◌||◌, not}
pub use mathlib.Core.Option.{Option, none, some}
pub use mathlib.Core.List.{List, [], ◌∷◌, ◌++◌, map, append-nil, append_assoc}
pub use native.Mathlib.Omega.{arith}
