-- ===== src/Common.antt =====
-- The names that the other modules share: the libraries', passed on, and those of the children.
mod Tests
mod Lists
mod Equality
mod Maps
mod Words
pub mod Bytes
pub mod Int
pub mod Decimal
pub use Tests.*
pub use Lists.*
pub use Equality.*
pub use Words.*
pub use Maps.{
  Map, Distinct, lookup-insert, lookup-erase, Distinct-insert, Distinct-erase, length-insert,
  length-erase-le, lookup_nonempty, sum_by, measure_or_zero, sum_by-insert, sum_by-erase, tally,
  tally-insert, tally-erase, changed_value, lookup-map_values, lookup-keep_keys, keys,
  Distinct-map_values,
}
unfoldable pub use Maps.{lookup, insert, erase, map_values, keep_keys}
pub use Prim.Native.Nat.{ℕ, zero, suc, ◌+◌, ◌-◌, ◌*◌, ◌/◌, ◌%◌, ◌^◌, ◌≤◌, ◌<◌}
pub use Prim.Native.String.{String}
pub use mathlib.Core.Path.{◌≡◌, refl, sym, ap, ◌∙◌}
pub use mathlib.Core.Logic.{◌≢◌, ◌↔◌, ◌⊎◌, inl, inr}
pub use mathlib.Core.Bool.{Bool, true, false, not, ◌&&◌, ◌||◌}
pub use mathlib.Core.Option.{Option, none, some}
pub use mathlib.Core.List.{List, [], ◌∷◌, ◌++◌, map}
pub use native.Mathlib.Omega.{arith}
