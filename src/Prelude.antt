-- ===== src/Prelude.antt =====
-- The names that the other modules share: the libraries', passed on, and those of the children:
-- tests on numbers, equality as an interface, lists, Python's `str` as code points, results.
mod Tests
mod Equality
mod Lists
mod Text
mod Results
pub mod Worklist
pub mod Dict
pub mod Sorting
pub use Tests.*
pub use Equality.*
pub use Lists.*
unfoldable pub use Lists.{
  take, filter, any, all, contains, dedupe, dedupe_from, last?, take_last, remove_first, distinct,
  dedupe_by_from, dedupe_by,
}
pub use Sorting.*
unfoldable pub use Sorting.{insert_by, sort_by}
unfoldable pub use Equality.{list_beq, option_beq, pair_beq}
unfoldable pub use Text.{
  starts_with, ends_with, replace, replace_from, split_slash, split_slash_from, join_slash, posix,
  rstrip_slash, strip_front_slash, suffix, lower, is_space, rfind_dot, path_name, components, root,
  has_part,
}
pub use Text.*
pub use Results.*
pub use Prim.Native.Nat.{ℕ, zero, suc, ◌+◌, ◌-◌, ◌*◌, ◌≤◌, ◌<◌}
pub use mathlib.Core.Path.{◌≡◌, refl, sym, ap, ◌∙◌, subst}
pub use mathlib.Core.Logic.{◌≢◌, ◌↔◌, ◌⊎◌, inl, inr}
pub use mathlib.Core.Bool.{Bool, true, false, not, ◌&&◌, ◌||◌}
pub use mathlib.Core.Option.{Option, none, some}
pub use mathlib.Core.List.{List, [], ◌∷◌, ◌++◌, map}
pub use native.Mathlib.Omega.{arith}
