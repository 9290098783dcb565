-- ===== src/Base.antt =====
-- The names that every module shares: the libraries', passed on, and the children's: Boolean tests
-- (Base/Tests), results (Base/Results), tables
-- as lists of rows (Base/Table), sorting (Base/Sorting, Base/Order), membership (Base/Members), JSON values
-- (Base/Values) and string methods (Base/Text).
mod Tests
mod Results
mod Table
mod TableLaws
mod Sorting
mod Values
mod Text
mod Members
mod Order
unfoldable pub use Tests.*
pub use Results.*
unfoldable pub use Table.*
pub use TableLaws.*
unfoldable pub use Sorting.*
pub use Values.*
pub use Members.*
pub use Order.*
unfoldable pub use Text.*
pub use Prim.Native.Nat.{ℕ, zero, suc, ◌+◌, ◌-◌, ◌*◌, ◌/◌, ◌%◌, ◌^◌, ◌≤◌, ◌<◌, min, max}
pub use Prim.Native.String.{String}
pub use Prim.Native.String.{◌++◌ as concat}
pub use mathlib.Core.Path.{◌≡◌, refl, sym, ap, ◌∙◌, subst, fun_ext}
pub use mathlib.Core.Logic.{◌≢◌, ◌↔◌, ◌⊎◌, inl, inr}
pub use mathlib.Core.Bool.{Bool, true, false, not, ◌&&◌, ◌||◌}
pub use mathlib.Core.Option.{Option, none, some}
pub use mathlib.Core.List.{List, [], ◌∷◌, ◌++◌, map, reverse}
pub use native.Mathlib.Omega.{arith}
pub use text.Mathlib.TextEquality.{eq_iff}
