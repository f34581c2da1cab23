-- ===== src/Prelude.antt =====
-- Names that the other modules share: the libraries', passed on, and those of the modules below:
-- Boolean tests, measured lists, 64-bit integers, and texts as the byte sequences of Go strings.
mod Tests
mod Lists
pub mod Int
pub mod Text
pub mod Strings
pub mod Sort
pub mod Net
pub mod Time
pub use Tests.*
pub use Lists.*
pub use Prim.Native.Nat.{ℕ, zero, suc, ◌+◌, ◌-◌, ◌*◌, ◌/◌, ◌%◌, ◌^◌, ◌≤◌, ◌<◌}
pub use mathlib.Core.Path.{◌≡◌, refl, sym, ap, ◌∙◌}
pub use mathlib.Core.Logic.{◌≢◌, ◌↔◌, ◌⊎◌, inl, inr, if_pos, if_neg}
unfoldable pub use mathlib.Core.Logic.{ite}
pub use mathlib.Core.Bool.{Bool, true, false, not, ◌&&◌, ◌||◌}
pub use mathlib.Core.Option.{Option, none, some}
pub use mathlib.Core.List.{List, [], ◌∷◌, ◌++◌, map}
pub use native.Mathlib.Omega.{arith}
unfoldable pub use native.Mathlib.Decide.{dec_lt, ℕ_discrete}
pub use native.Mathlib.Nat.{mod-lt}
