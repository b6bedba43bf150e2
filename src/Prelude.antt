-- ===== src/Prelude.antt =====
-- The names that the other modules share: the libraries', passed on, and those of the children.
mod Tests
mod Lists
mod Int
mod Results
mod Texts
mod Members
pub use Tests.*
pub use Lists.*
pub use Results.*
unfoldable pub use Members.{first_best}
pub use Members.{
  first_best-mem, first_best-above, filter-mem, mem-filter, any-mem, mem-any, all-mem, mem-map,
  map-mem,
}
unfoldable pub use Texts.{insert_text, sorted_set, discard_text}
pub use Texts.{str_lt, has_text, has_text-insert, has_text-sorted_set, has_text-discard}
unfoldable pub use Int.{◌+ℤ◌, ◌-ℤ◌, ◌*ℤ◌, floor_div, floor_mod, abs_ℤ}
pub use Int.{
  ℤ, pos, negsuc, pos_part, neg_part, sub_ℕ, ltb_ℤ, leb_ℤ, eq_ℤ, ◌≤ℤ◌, ◌<ℤ◌, eq_ℤ_iff, +ℤ_parts,
  -ℤ_parts, eq_of_parts, leb_ℤ→le, ltb_ℤ→lt, int_laws,
}
pub use Prim.Native.Nat.{ℕ, zero, suc, ◌+◌, ◌-◌, ◌*◌, ◌/◌, ◌%◌, ◌^◌, ◌≤◌, ◌<◌, min, max}
pub use Prim.Native.String.{String}
pub use mathlib.Core.Path.{◌≡◌, refl, sym, ap, ◌∙◌}
pub use mathlib.Core.Logic.{◌≢◌, ◌↔◌, ◌⊎◌, inl, inr}
pub use mathlib.Core.Bool.{Bool, true, false, ◌&&◌, ◌||◌, not}
pub use mathlib.Core.Option.{Option, none, some}
pub use mathlib.Core.List.{List, [], ◌∷◌, ◌++◌, map, Memᴰ}
pub use native.Mathlib.Omega.{arith}
pub use text.Mathlib.Text.{◌==◌ as str_eq}
pub use text.Mathlib.TextEquality.{eq_iff}
