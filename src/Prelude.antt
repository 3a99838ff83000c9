-- ===== src/Prelude.antt =====
-- The names that the other modules share: the libraries', passed on, and those of the children.
mod Tests
mod Lists
mod ByteStrings
mod Int
mod Maps
mod Sorting
mod UniqueKeys
pub use Tests.*
pub use Lists.*
unfoldable pub use ByteStrings.{bytes_eq, to_le_bytes}
pub use ByteStrings.{
  Bytes, bytes_eq_refl, eq_of_bytes_eq, bytes_eq_iff, bytes_eq_comm, u64_le_bytes, u32_le_bytes,
}
pub use Int.*
pub use Maps.*
pub use UniqueKeys.{
  Distinct, Distinct-append, Distinct-retain, any-retain, any-update_where, any-append, any-counted,
  uncounted, Distinct-update_where,
}
pub use Sorting.{
  insert_by, Ascends, Ascends-weaken, Ascends-retain, Ascends-append, Ascends-update_where,
  order_by_sorted, All-order_by, length-order_by, any-order_by,
}
unfoldable pub use Sorting.{order_by}
pub use Prim.Native.Nat.{ℕ, zero, suc, ◌+◌, ◌-◌, ◌*◌, ◌/◌, ◌%◌, ◌^◌, ◌≤◌, ◌<◌}
pub use Prim.Native.String.{String}
pub use mathlib.Core.Path.{◌≡◌, refl, sym, ap, ◌∙◌}
pub use mathlib.Core.Logic.{◌≢◌, ◌↔◌, ◌⊎◌, inl, inr}
pub use mathlib.Core.Bool.{Bool, true, false, ◌&&◌, ◌||◌, not}
pub use mathlib.Core.Option.{Option, none, some}
pub use mathlib.Core.List.{List, [], ◌∷◌, ◌++◌, map}
pub use native.Mathlib.Omega.{arith}
pub use text.Mathlib.Text.{◌==◌ as str_eq}
