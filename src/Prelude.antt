-- ===== src/Prelude.antt =====
-- The names that the other modules share: the libraries', passed on, and those of the children,
-- which hold Boolean tests, lists, 64-bit integers and texts. Go's `int64` is an `ℤ` that every
-- operation brings back into range by `wrap64`.
mod Tests
mod Lists
mod Int
pub mod Text
pub mod Dict
pub mod Keyed
pub mod Sorting
pub mod Format
pub mod Blank
pub mod Trim
pub mod Numerals
pub mod Casing
pub mod Search
pub mod Reading
pub use Tests.*
pub use Lists.*
pub use Int.{
  ℤ, pos, negsuc, pos_part, neg_part, sub_ℕ, ◌≤ℤ◌, ◌<ℤ◌, ltb_ℤ, leb_ℤ, eqb_ℤ, InRange64, wrap64_id,
  wrap64-InRange64, +ℤ_parts, -ℤ_parts, eq_of_parts, int_laws, max_int64, add64_id, sub64_id,
  add64_comm, add64_assoc, add64-InRange64, sub64-InRange64, wrap64-sum,
}
unfoldable pub use Int.{◌+ℤ◌, ◌-ℤ◌, ◌*ℤ◌, quot, wrap64, add64, sub64, mul64, quot64}
pub use Text.{
  String, ◌==◌, eq_iff, eq_refl, ne-eq, numbered_inj, digits_value-decimal, all_digits-decimal,
  all_digits-append,
}
unfoldable pub use Text.{decimal, numbered, digits_value, all_digits}
pub use Prim.Native.Nat.{ℕ, zero, suc, ◌+◌, ◌-◌, ◌*◌, ◌/◌, ◌%◌, ◌^◌, ◌≤◌, ◌<◌}
pub use mathlib.Core.Path.{◌≡◌, refl, sym, ap, ◌∙◌, subst}
pub use mathlib.Core.Logic.{◌≢◌, ◌⊎◌, inl, inr}
pub use mathlib.Core.Bool.{Bool, true, false, ◌&&◌, ◌||◌, not}
pub use mathlib.Core.Option.{Option, none, some}
pub use mathlib.Core.List.{List, [], ◌∷◌, ◌++◌, map}
pub use native.Mathlib.Omega.{arith}
