-- ===== src/Base.antt =====
-- What the modules share: the libraries' names, Boolean tests, lists measured by native numbers, and
-- texts as lists of code points.
mod Tests
mod Lists
mod Integers
mod Texts
mod Loops
mod Trim
pub use Tests.*
pub use Lists.*
pub use Integers.*
unfoldable pub use Texts.*
unfoldable pub use Loops.*
pub use Trim.{trim_idem}
pub use Prim.Native.Nat.{ℕ, zero, suc, ◌+◌, ◌-◌, ◌*◌, ◌/◌, ◌%◌, ◌^◌, ◌≤◌, ◌<◌}
pub use mathlib.Core.Path.{◌≡◌, refl, sym, ap, subst, ◌∙◌}
pub use mathlib.Core.Logic.{◌≢◌, ◌↔◌, ◌⊎◌, inl, inr}
pub use mathlib.Core.Bool.{Bool, true, false, not, ◌&&◌, ◌||◌}
pub use mathlib.Core.Option.{Option, none, some}
pub use mathlib.Core.List.{List, [], ◌∷◌, ◌++◌, map}
pub use native.Mathlib.Omega.{arith}
