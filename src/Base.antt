-- ===== src/Base.antt =====
-- The names that the other modules share: the libraries', passed on, and those of the children.
mod Tests
mod Lists
mod Equal
mod Words
mod Maps
mod Unique
mod Members
mod Windows
mod Strips
pub use Tests.*
pub use Lists.*
pub use Equal.{Equality, ◌==◌, eq_iff, eq_self}
unfoldable pub use Equal.{nat_eq, list_beq, list_eq, pair_beq, pair_eq, contains}
pub use Equal.{contains-append}
pub use Words.{Text, codes, text_or, ℤ, pos, negsuc}
unfoldable pub use Words.{
  is_space, is_break, lstrip, strip, rstrip, join, lstrip_of, show, show_int, splitlines,
}
pub use Words.{lstrip_idem, show-All}
pub use Maps.{Dict}
unfoldable pub use Maps.{lookup, insert, get}
pub use Maps.{lookup-insert, get-insert}
pub use Strips.{unlines, splitlines-unlines, splitlines-plain, strip_visible, strip-space}
pub use Unique.*
pub use Windows.{drop_of_nil, last_n-append}
unfoldable pub use Members.{count}
pub use Members.{
  count-append, contains-filter, count-filter, count_absent, not_in_empty, some_element,
  length-filter_lt,
}
pub use Prim.Native.Nat.{ℕ, zero, suc, ◌+◌, ◌-◌, ◌*◌, ◌/◌, ◌%◌, ◌^◌, ◌≤◌, ◌<◌, min, max}
pub use Prim.Native.String.{String}
pub use mathlib.Core.Path.{◌≡◌, refl, sym, ap, ◌∙◌}
pub use mathlib.Core.Logic.{◌≢◌, ◌↔◌, ◌⊎◌, inl, inr}
pub use mathlib.Core.Bool.{Bool, true, false, not, ◌&&◌, ◌||◌}
pub use mathlib.Core.Option.{Option, none, some}
pub use mathlib.Core.List.{List, [], ◌∷◌, ◌++◌, map, append-nil, append_assoc}
pub use native.Mathlib.Omega.{arith}
pub use native.Mathlib.Decide.{ℕ_discrete}
