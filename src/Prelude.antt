-- ===== src/Prelude.antt =====
-- The names that the other modules share: the libraries', passed on, and those of the children.
mod Tests
mod Lists
mod Maps
mod Values
mod Text
pub use Tests.*
pub use Lists.*
pub use Values.{Num, Json, Items, Fields, Metadata, fields_of}
unfoldable pub use Maps.{lookup, insert, remove, has, includes}
pub use Maps.{
  Dict, lookup-insert, lookup-remove, lookup-has, lookup-insert_new, All-insert, All-remove,
  includes-snoc, includes-snoc_self, includes-keep_if, All-includes, All-at, All-lookup,
}
unfoldable pub use Text.{lower, occurs, same_text, trim, first_token, join}
pub use Prim.Native.Nat.{ℕ, zero, suc, ◌+◌, ◌-◌, ◌*◌, ◌/◌, ◌%◌, ◌≤◌, ◌<◌, min, max}
pub use Prim.Native.String.{String, ◌++◌ as str_append}
pub use mathlib.Core.Path.{◌≡◌, refl, sym, ap, subst, ◌∙◌}
pub use mathlib.Core.Logic.{◌≢◌, ◌↔◌, ◌⊎◌, inl, inr}
pub use mathlib.Core.Bool.{Bool, true, false, not, ◌&&◌, ◌||◌}
pub use mathlib.Core.Option.{Option, none, some}
pub use mathlib.Core.List.{List, [], ◌∷◌, ◌++◌, map}
pub use native.Mathlib.Omega.{arith}
pub use text.Mathlib.Text.{◌==◌ as str_eq}
pub use text.Mathlib.TextEquality.{eq_iff}
pub use text.Mathlib.TextPositions.{eq_refl}
