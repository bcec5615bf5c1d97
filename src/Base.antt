-- ===== src/Base.antt =====
-- Names that every module shares: the libraries', passed on, and those of the children. No code of
-- the repository is modelled here.
mod Tests
mod Lists
mod Outcome
pub mod Order
pub mod Map
mod Word
mod Decimal
pub use Tests.*
unfoldable pub use Lists.*
pub use Outcome.*
unfoldable pub use Word.*
unfoldable pub use Decimal.{to_decimal, parse_u128}
pub use Decimal.{parse_u128-to_decimal, parse_u128-bound}
pub use Prim.Native.Nat.{
  ℕ, zero, suc, ◌+◌, ◌-◌, ◌*◌, ◌/◌, ◌%◌, ◌^◌, ◌≤◌, ◌<◌, min, max, compare, Ordering,
}
pub use Prim.Native.String.{String}
pub use mathlib.Core.Path.{◌≡◌, refl, sym, ap, ap₂, ◌∙◌, subst}
pub use mathlib.Core.Logic.{◌≢◌, ◌↔◌, ◌⊎◌, inl, inr}
pub use mathlib.Core.Bool.{Bool, true, false, ◌&&◌, ◌||◌, not}
pub use mathlib.Core.Option.{Option, none, some}
pub use mathlib.Core.List.{List, [], ◌∷◌, ◌++◌, map, reverse, append_assoc, append-nil}
pub use native.Mathlib.Omega.{arith}
