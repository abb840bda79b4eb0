-- ===== src/Catalog/Filtering.antt =====
-- The list of tables and its groups.
use etl_nexus.Common.{
  Bool, String, List, [], ◌∷◌, map, Group, group_by, all_members, group_by-perm, all_members-sort,
  sort-perm, Perm, All, All-sort, IsGroup, group_by-IsGroup, ◌≡◌,
}
use mathlib.Core.List.Perm
use etl_nexus.Catalog.{TableListItem, grouped_tables, sort_group, by_name}

all_members-sort_group :
    (le : String → String → Bool) (gs : List (Group TableListItem))
    → Perm (all_members (map (sort_group le) gs)) (all_members gs)
all_members-sort_group le [] = Perm.refl []
all_members-sort_group le (g ∷ gs) =
    Perm.append (sort-perm (by_name le) g.members) (all_members-sort_group le gs)

-- Every table that passes the filters stands in the groups once, and no other does.
pub grouped_tables-perm :
    (le : String → String → Bool) (filtered : List TableListItem)
    → Perm (all_members (grouped_tables le filtered)) filtered
unfolding grouped_tables
grouped_tables-perm le filtered =
    let groups = group_by (λ t. t.namespace) filtered in
    Perm.trans (all_members-sort (λ a b. le a.category b.category) (map (sort_group le) groups))
      (Perm.trans (all_members-sort_group le groups) (group_by-perm (λ t. t.namespace) filtered))

sort_group-namespaces :
    (le : String → String → Bool) (gs : List (Group TableListItem))
    → All (IsGroup (λ t. t.namespace)) gs
    → All (λ g. All (λ t. t.namespace ≡ g.category) g.members) (map (sort_group le) gs)
sort_group-namespaces le [] h = tt
sort_group-namespaces le (g ∷ gs) (q, h) = (
  All-sort (by_name le) (λ t. t.namespace ≡ g.category) g.members q.same_key,
  sort_group-namespaces le gs h,
)

-- The name over a group is the namespace of its tables.
pub grouped_tables-namespaces :
    (le : String → String → Bool) (filtered : List TableListItem)
    → All (λ g. All (λ t. t.namespace ≡ g.category) g.members) (grouped_tables le filtered)
unfolding grouped_tables
grouped_tables-namespaces le filtered =
    All-sort (λ a b. le a.category b.category) (λ g. All (λ t. t.namespace ≡ g.category) g.members)
      _ (sort_group-namespaces le _ (group_by-IsGroup (λ t. t.namespace) filtered))
