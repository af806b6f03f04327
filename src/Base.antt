-- ===== src/Base.antt =====
-- The names that the modules share: the libraries', passed on, tests on numbers, lists indexed by
-- native numbers, slices of byte buffers, and machine words as little-endian bytes.
mod Tests
mod Lists
mod Slices
mod Bytes
mod Texts
pub use Tests.*
pub use Lists.*
unfoldable pub use Slices.*
pub use Bytes.*
pub use Texts.*
pub use Prim.Native.Nat.{ℕ, zero, suc, ◌+◌, ◌-◌, ◌*◌, ◌/◌, ◌%◌, ◌^◌, ◌≤◌, ◌<◌, min, max}
pub use mathlib.Core.Path.{◌≡◌, refl, sym, ap, ap₂, subst, ◌∙◌}
pub use mathlib.Core.Logic.{◌≢◌, ◌↔◌, ◌⊎◌, inl, inr}
pub use mathlib.Core.Bool.{Bool, true, false, not, ◌&&◌, ◌||◌}
pub use mathlib.Core.Option.{Option, none, some}
pub use mathlib.Core.List.{List, [], ◌∷◌, ◌++◌, map, append_assoc}
pub use native.Mathlib.Omega.{arith}
