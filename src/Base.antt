-- ===== src/Base.antt =====
-- Names that the other modules share: the libraries', passed on, and those of its children.
mod Tests
mod Lists
mod Text
mod Int
mod Maps
unfoldable pub use Maps.{find, remove, put}
pub use Maps.{find-remove, find-remove_other, find-put, find-put_other, find-filled}
pub use Tests.*
pub use Lists.*
unfoldable pub use Text.{is_space, trim_space, to_lower, equal_fold, parse_uint, atoi, decimal}
pub use Text.{parse_uint-le, other_fold, equal_fold_refl}
pub use Int.{ℤ, pos, negsuc, ==ℤ-eq, ==ℤ_refl}
unfoldable pub use Int.{◌==ℤ◌}
pub use Prim.Native.Nat.{ℕ, zero, suc, ◌+◌, ◌-◌, ◌*◌, ◌/◌, ◌%◌, ◌^◌, ◌≤◌, ◌<◌}
pub use Prim.Native.String.{String, ◌++◌ as ◌+++◌}
pub use text.Mathlib.Text.{◌==◌ as str_eq}
pub use text.Mathlib.TextEquality.{eq_iff}
pub use text.Mathlib.TextPositions.{eq_refl}
pub use mathlib.Core.Path.{◌≡◌, refl, sym, ap, subst, ◌∙◌}
pub use mathlib.Core.Logic.{◌≢◌, ◌↔◌, ◌⊎◌, inl, inr}
pub use mathlib.Core.Bool.{Bool, true, false, not, ◌&&◌, ◌||◌}
pub use mathlib.Core.Option.{Option, none, some}
pub use mathlib.Core.List.{List, [], ◌∷◌, ◌++◌, map}
pub use native.Mathlib.Omega.{arith}
