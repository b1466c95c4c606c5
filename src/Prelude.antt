-- ===== src/Prelude.antt =====
-- Names that every other module shares: the libraries', passed on, tests on numbers,
-- C arrays as functions, lists measured by native numbers, and machine words.
mod Tests
mod Arrays
mod Lists
mod Words
mod Tables
pub use Tests.*
pub use Arrays.*
pub use Lists.*
pub use Words.*
unfoldable pub use Tables.{holds_below}
pub use Tables.{holds_below_sound}
pub use Prim.Native.Nat.{ℕ, zero, suc, ◌+◌, ◌-◌, ◌*◌, ◌/◌, ◌%◌, ◌^◌, ◌≤◌, ◌<◌}
pub use mathlib.Core.Path.{◌≡◌, refl, sym, ap, ap₂, subst, ◌∙◌}
pub use mathlib.Core.Logic.{◌≢◌, ◌↔◌, ◌⊎◌, inl, inr}
pub use mathlib.Core.Bool.{Bool, true, false, ◌&&◌, ◌||◌}
pub use mathlib.Core.Option.{Option, none, some}
pub use mathlib.Core.List.{List, [], ◌∷◌, ◌++◌}
pub use native.Mathlib.Omega.{arith}
