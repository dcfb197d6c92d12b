-- ===== src/Prelude.antt =====
-- The names that the other modules share: the libraries', passed on, and those of the children.
mod Tests
mod Lists
mod Strings
mod Member
mod Distinct
mod Sorting
mod Ranking
pub mod Int
mod Results
pub use Results.{Result, ok, err, ok-injective, err-ok, bound, passed}
unfoldable pub use Results.{◌>>=◌, ◌>>◌, refuse_if}
pub use Tests.*
pub use Member.*
pub use Distinct.*
pub use Sorting.{
  sort_by, sort_by-In, In-sort_by, length-sort_by, Ascending, smaller, sort_by-Ascending,
}
pub use Ranking.*
pub use Lists.*
pub use Prim.Native.Nat.{ℕ, zero, suc, ◌+◌, ◌-◌, ◌*◌, ◌/◌, ◌%◌, ◌^◌, ◌≤◌, ◌<◌, min, max}
pub use Prim.Native.String.{String}
unfoldable pub use Strings.{codes, split, parts, join, is_space, trim_left, trim_space}
pub use Strings.{parts-append, parts_single}
pub use mathlib.Core.Path.{◌≡◌, refl, sym, ap, ◌∙◌, subst}
pub use mathlib.Core.Logic.{◌≢◌, ◌↔◌, ◌⊎◌, inl, inr}
pub use mathlib.Core.Bool.{Bool, true, false, ◌&&◌, ◌||◌, not, false≢true}
pub use mathlib.Core.Option.{Option, none, some, some-injective}
pub use mathlib.Core.List.{List, [], ◌∷◌, ◌++◌, map, append_assoc, append-nil}
pub use native.Mathlib.Omega.{arith}
pub use text.Mathlib.Text.{◌==◌ as str_eq}
pub use text.Mathlib.TextEquality.{eq_iff as str_eq_iff}
pub use text.Mathlib.TextPositions.{eq_refl as str_eq_refl}
