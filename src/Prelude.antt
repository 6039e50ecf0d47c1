-- ===== src/Prelude.antt =====
-- The names that the other modules share: the libraries', passed on, and those of the children.
mod Tests
mod Table
mod Predicates
mod Pairs
mod Order
mod Strings
mod Http
mod Dicts
mod Stripped
mod Numbers
mod Integers
mod Splits
pub use Tests.*
unfoldable pub use Table.*
unfoldable pub use Strings.*
pub use Predicates.*
pub use Pairs.*
unfoldable pub use Order.*
pub use Http.*
pub use Stripped.*
unfoldable pub use Numbers.*
unfoldable pub use Integers.*
unfoldable pub use Splits.*
unfoldable pub use Dicts.*
pub use Prim.Native.Nat.{ℕ, zero, suc, ◌+◌, ◌-◌, ◌*◌, ◌≤◌, ◌<◌}
pub use Prim.Native.String.{String}
pub use mathlib.Core.Path.{◌≡◌, refl, sym, ap, ◌∙◌}
pub use mathlib.Core.Logic.{◌≢◌, ◌↔◌, ◌⊎◌, inl, inr}
pub use mathlib.Core.Bool.{Bool, true, false, not, ◌&&◌, ◌||◌}
pub use mathlib.Core.Option.{Option, none, some}
pub use mathlib.Core.List.{List, [], ◌∷◌, ◌++◌, map}
pub use native.Mathlib.Omega.{arith}
pub use text.Mathlib.Text.{◌==◌ as str_eq}
pub use text.Mathlib.TextEquality.{eq_iff}
