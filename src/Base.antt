-- ===== src/Base.antt =====
-- The names that every other module shares: the libraries', passed on, with Python's equality and
-- truth tests, lists measured by native numbers, dictionaries and results.
mod Equality
mod Numbers
mod Lists
mod Truth
mod Text
mod TextOrder
pub mod Bytes
pub mod Json
pub mod Sorting
pub mod Dict
pub mod Result
unfoldable pub use Equality.*
pub use Numbers.*
pub use Lists.*
unfoldable pub use Text.*
pub use TextOrder.*
unfoldable pub use Truth.*
pub use Prim.Native.Nat.{ℕ, zero, suc, ◌+◌, ◌-◌, ◌*◌, ◌≤◌, ◌<◌}
pub use Prim.Native.String.{String, ◌++◌ as ◌<>◌}
pub use mathlib.Core.Path.{◌≡◌, refl, sym, ap, ◌∙◌}
pub use mathlib.Core.Logic.{◌≢◌, ◌↔◌, ◌⊎◌, inl, inr}
pub use mathlib.Core.Bool.{Bool, true, false, not, ◌&&◌, ◌||◌}
pub use mathlib.Core.Option.{Option, none, some}
pub use mathlib.Core.List.{Memᴰ, List, [], ◌∷◌, ◌++◌, map}
pub use native.Mathlib.Omega.{arith}
