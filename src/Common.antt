-- ===== src/Common.antt =====
-- The names that the other modules share: the libraries', passed on, and those of two children.
mod Tests
mod Lists
mod Sets
mod Sorting
mod Grouping
mod Texts
pub use Tests.*
pub use Lists.*
unfoldable pub use Texts.{
  Text, codes, same_text, split_on, is_space, trim_start, trim_end, trim, starts_with, includes,
}
pub use Texts.{same_text_iff}
unfoldable pub use Sets.{has, add, delete, set_of}
unfoldable pub use Sorting.{sort}
pub use Sorting.{IsSorted, sort-perm, All-sort, sort-IsSorted}
unfoldable pub use Grouping.{group_by, add_to_group}
pub use Grouping.{
  Group, categories, all_members, IsGroup, group_by-perm, group_by-IsGroup, group_by-IsSetLike,
  All-group_by, all_members-sort, sort-IsSetLike,
}
pub use Sets.{
  IsSetLike, has_same, has-append, has-delete, has-add, has-set_of, delete-IsSetLike, add-IsSetLike,
}
pub use Prim.Native.Nat.{ℕ, zero, suc, ◌+◌, ◌-◌, ◌*◌, ◌/◌, ◌%◌, ◌≤◌, ◌<◌, min, max}
pub use Prim.Native.String.{String}
pub use mathlib.Core.Path.{◌≡◌, refl, sym, ◌∙◌, ap, subst, ◌≡⟨◌⟩◌, ◌∎}
pub use mathlib.Core.Logic.{◌≢◌, ◌↔◌, ◌⊎◌, inl, inr}
pub use mathlib.Core.Bool.{Bool, true, false, not, ◌&&◌, ◌||◌, false≢true}
pub use mathlib.Core.Option.{Option, none, some}
pub use mathlib.Core.List.{List, [], ◌∷◌, ◌++◌, map, append_assoc, append-nil, Perm}
pub use native.Mathlib.Omega.{arith}
pub use text.Mathlib.TextEquality.{eq_iff}
pub use text.Mathlib.TextPositions.{eq_refl}
