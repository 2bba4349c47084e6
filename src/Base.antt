-- ===== src/Base.antt =====
-- The names that the other modules share: the libraries' names, and those of the children.
mod Tests
mod Integers
mod Maps
mod Sets
mod Sort
mod Texts
pub use Tests.*
pub use Integers.{ℤ, pos, negsuc}
pub use Prim.Native.Nat.{ℕ, zero, suc, ◌+◌, ◌-◌, ◌≤◌, ◌<◌}
pub use Prim.Native.String.{String}
pub use mathlib.Core.Path.{◌≡◌, refl, sym, ap, ◌∙◌, subst}
pub use mathlib.Core.Logic.{◌≢◌, ◌↔◌, ◌⊎◌, inl, inr}
pub use mathlib.Core.Bool.{Bool, true, false, not, ◌&&◌, ◌||◌}
pub use mathlib.Core.Option.{Option, none, some}
pub use mathlib.Core.List.{List, [], ◌∷◌, ◌++◌}
pub use native.Mathlib.Omega.{arith}
pub use text.Mathlib.Text.{◌==◌}
pub use text.Mathlib.TextEquality.{eq_iff}
pub use text.Mathlib.TextPositions.{eq_refl}
pub use Maps.{Map, passes, lookup-insert, lookup-remove, length-insert_old, keys-insert_old}
unfoldable pub use Maps.{lookup, insert, remove, keys, select, values}
pub use Maps.{UniqueKeys, select-contains, insert-UniqueKeys, remove-UniqueKeys, lookup_of_select}
unfoldable pub use Sets.{contains, dedupe_from}
pub use Sets.{all-contains, all_of_contains, contains-append, contains-dedupe_from}
unfoldable pub use Sort.{insert_sorted, sort_by}
pub use Sort.{text_less, sort_strings, any-sort_by, contains-sort_strings}
pub use Texts.{has_suffix}
