-- ===== src/Prelude.antt =====
-- Names that every module shares: the libraries', passed on, and those of the children.
-- Text (`std::string`) is a list of bytes; a file of its own holds tests, lists, integers, decimal
-- numerals and the results of code that may throw.
mod Tests
mod Lists
mod Text
pub mod Int
pub mod Decimal
pub mod Result
pub mod Words
pub mod Exec
pub use Tests.*
pub use Lists.*
unfoldable pub use Text.*
pub use Prim.Native.Nat.{ℕ, zero, suc, ◌+◌, ◌-◌, ◌*◌, ◌/◌, ◌%◌, ◌^◌, ◌≤◌, ◌<◌}
pub use mathlib.Core.Path.{◌≡◌, refl, sym, ap, ◌∙◌, subst}
pub use mathlib.Core.Logic.{◌≢◌, ◌↔◌, ◌⊎◌, inl, inr}
pub use mathlib.Core.Bool.{Bool, true, false, not, ◌&&◌, ◌||◌}
pub use mathlib.Core.Option.{Option, none, some}
pub use mathlib.Core.List.{List, [], ◌∷◌, ◌++◌, map, append-nil, append_assoc}
pub use native.Mathlib.Omega.{arith}
