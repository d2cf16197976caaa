-- ===== src/Base.antt =====
-- The names that the other modules share: the libraries', passed on, and those of the children.
mod Tests
mod Lists
mod Texts
mod Maps
mod Sorting
mod Results
mod Int
pub use Tests.*
pub use Results.*
pub use Lists.*
unfoldable pub use Texts.{text_eq, text_leb, decimal}
pub use Texts.{
  Text, codes, starts_with, starts_with-append, text_eq_iff, text_eq_refl, text_eq_ne,
  text_leb_total, text_leb_antisym, text_leb_trans,
}
unfoldable pub use Int.{format_int}
pub use Int.{ℤ, pos, negsuc}
unfoldable pub use Maps.{get, insert, remove, contains_key}
pub use Maps.{
  Map, get-insert, get-insert_self, get-remove, get-remove_self, IsMap, insert-IsMap, remove-IsMap,
  All-insert, All-remove, All-get,
}
unfoldable pub use Sorting.{sort}
pub use Sorting.{sort-Permᴰ}
pub use Prim.Native.Nat.{ℕ, zero, suc, ◌+◌, ◌-◌, ◌*◌, ◌/◌, ◌%◌, ◌^◌, ◌≤◌, ◌<◌, min, max}
pub use mathlib.Core.Path.{◌≡◌, refl, sym, ap, subst, ◌∙◌}
pub use mathlib.Core.Logic.{◌≢◌, ◌↔◌, ◌⊎◌, inl, inr}
pub use mathlib.Core.Bool.{Bool, true, false, not, ◌&&◌, ◌||◌}
pub use mathlib.Core.Option.{Option, none, some}
pub use mathlib.Core.List.{List, [], ◌∷◌, ◌++◌, map, append-nil, append_assoc}
pub use native.Mathlib.Omega.{arith}
