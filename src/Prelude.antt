-- ===== src/Prelude.antt =====
-- The names that the other modules share: the libraries', passed on, and those of the children.
mod Tests
mod Lists
mod Results
mod Words
mod Dict
pub mod Bits
pub mod Splice
pub mod Exec
pub mod Integers
pub use Tests.*
pub use Lists.*
pub use Results.*
unfoldable pub use Words.{le_bytes, le_value, pack_uint, unpack_uint, not_all_zero, bytes_eq}
unfoldable pub use Dict.{lookup, insert}
pub use Dict.{lookup-insert, lookup-insert_other, bytes_eq_iff}
pub use Words.{
  Bytes, IsByte, length-le_bytes, le_bytes-All, le_value-le_bytes, le_bytes-le_value, le_value-lt,
  bytes_eq→eq, bytes_eq_refl, pack_uint-ok, pack_uint_fits, pack_uint-unpack_uint,
}
pub use Prim.Native.Nat.{
  ℕ, zero, suc, ◌+◌, ◌-◌, ◌*◌, ◌/◌, ◌%◌, ◌^◌, ◌≤◌, ◌<◌, min, max, bit_and, bit_or,
}
pub use mathlib.Core.Path.{◌≡◌, refl, sym, ap, ap₂, ◌∙◌, subst}
pub use mathlib.Core.Logic.{◌≢◌, ◌↔◌, ◌⊎◌, inl, inr}
pub use mathlib.Core.Bool.{Bool, true, false, ◌&&◌, ◌||◌, not}
pub use mathlib.Core.Option.{Option, none, some}
pub use mathlib.Core.List.{List, [], ◌∷◌, ◌++◌, map, append-nil, append_assoc}
pub use native.Mathlib.Omega.{arith}
unfoldable pub use native.Mathlib.Decide.{dec_lt, dec_le, ℕ_discrete}
