-- ===== src/Base.antt =====
-- The names that all modules share: the libraries' names passed on, the tests and lists of its
-- children, and the results of runtime functions that may throw.
mod Tests
mod Lists
mod Results
mod Words
mod Families
pub use Tests.*
pub use Lists.*
pub use Results.*
pub use Words.*
pub use Families.*
pub use Prim.Native.Nat.{ℕ, zero, suc, ◌+◌, ◌-◌, ◌*◌, ◌/◌, ◌%◌, ◌^◌, ◌≤◌, ◌<◌, min}
pub use mathlib.Core.Path.{◌≡◌, refl, sym, ap, ◌∙◌}
pub use mathlib.Core.Logic.{◌≢◌, ◌↔◌, ◌⊎◌, inl, inr}
pub use mathlib.Core.Bool.{Bool, true, false, not, ◌&&◌, ◌||◌}
pub use mathlib.Core.Option.{Option, none, some}
pub use mathlib.Core.List.{List, [], ◌∷◌, ◌++◌, map, append_assoc, append-nil}
unfoldable pub use mathlib.Core.List.{foldl}
pub use native.Mathlib.Omega.{arith}
