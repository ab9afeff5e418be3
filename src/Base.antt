-- ===== src/Base.antt =====
-- The names that the other modules share: the libraries', passed on, and those of the children.
pub mod Test
pub mod Equality
pub mod Int
pub mod Lists
pub mod Errors
pub mod Order
pub mod Sorted
pub mod Codes
pub mod Decimal
unfoldable pub use Test.*
unfoldable pub use Equality.*
unfoldable pub use Int.*
unfoldable pub use Lists.*
unfoldable pub use Errors.*
unfoldable pub use Order.*
unfoldable pub use Sorted.*
unfoldable pub use Codes.*
unfoldable pub use Decimal.*
pub use Prim.Native.Nat.{ℕ, zero, suc, ◌+◌, ◌-◌, ◌*◌, ◌/◌, ◌%◌, ◌^◌, ◌≤◌, ◌<◌}
pub use mathlib.Core.Path.{◌≡◌, refl, sym, ap, ◌∙◌, subst, fun_ext}
pub use mathlib.Core.Logic.{◌≢◌, ◌↔◌, ◌⊎◌, inl, inr, ite}
pub use mathlib.Core.Bool.{Bool, true, false, ◌&&◌, ◌||◌, not}
pub use mathlib.Core.Option.{Option, none, some}
pub use mathlib.Core.List.{List, [], ◌∷◌, ◌++◌, map, reverse, append-nil, append_assoc}
pub use native.Mathlib.Omega.{arith}
