-- ===== src/Base.antt =====
-- The names that all modules share: the libraries', passed on, and those of the children.
-- `Tests` has the Boolean tests, `Lists` the loops over arrays, `Counts` counting and the pigeonhole
-- principle, `Keys` tables by key, `Bits` exclusive or, `Words` machine words and `int`, `Text` C strings.
mod Tests
mod Lists
mod Counts
mod Keys
mod Bits
mod Words
mod Text
unfoldable pub use Tests.*
unfoldable pub use Lists.*
unfoldable pub use Counts.*
unfoldable pub use Keys.*
unfoldable pub use Bits.*
unfoldable pub use Words.*
unfoldable pub use Text.*
pub use Prim.Native.Nat.{ℕ, zero, suc, ◌+◌, ◌-◌, ◌*◌, ◌/◌, ◌%◌, ◌^◌, ◌≤◌, ◌<◌, bit_xor}
pub use mathlib.Core.Path.{◌≡◌, refl, sym, ap, ap₂, subst, ◌∙◌}
pub use mathlib.Core.Logic.{◌≢◌, ◌↔◌, ◌⊎◌, inl, inr}
pub use mathlib.Core.Bool.{Bool, true, false, not, ◌&&◌, ◌||◌}
pub use mathlib.Core.Option.{Option, none, some}
pub use mathlib.Core.List.{List, [], ◌∷◌, ◌++◌, map}
pub use native.Mathlib.Omega.{arith}
unfoldable pub use native.Mathlib.Decide.{ℕ_discrete}
