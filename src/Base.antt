-- ===== src/Base.antt =====
-- Names, tests, outcomes and containers that all parts of the operator's model share.
mod Core
pub mod HashMap
pub mod HashSet
pub mod BTreeMap
pub mod Outcome
pub mod Exec
pub mod Keeps
pub mod Post
pub mod Runs
pub mod Lands
pub use Core.*
unfoldable pub use Core.{as_i32, to_string}
pub use Prim.Native.Nat.{ℕ, zero, suc, ◌+◌, ◌%◌, ◌≤◌, ◌<◌}
pub use Prim.Native.String.{String}
pub use mathlib.Core.Path.{◌≡◌, refl, sym, ap, ◌∙◌}
pub use mathlib.Core.Logic.{◌≢◌, ◌↔◌, ◌⊎◌, inl, inr}
pub use mathlib.Core.Bool.{Bool, true, false, not, ◌&&◌, ◌||◌}
pub use mathlib.Core.Option.{Option, none, some}
pub use mathlib.Core.List.{List, [], ◌∷◌, ◌++◌, map}
pub use native.Mathlib.Omega.{arith}
pub use text.Mathlib.Text.{◌==◌}
pub use text.Mathlib.TextEquality.{eq_iff}
pub use text.Mathlib.TextPositions.{eq_refl}
