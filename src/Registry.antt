-- ===== src/Registry.antt =====
-- frontend/src/components/data-products/DataProductRegistry.tsx: filtering, grouping and
-- selecting data products. `le` stands for the order of `localeCompare`, and `unit_le` for the
-- order of `sort()` without an argument.
pub mod Filtering
pub mod Grouped
pub mod Selection
pub mod SearchBox
pub mod View
mod Tests
use mathlib.Core.Option
use etl_nexus.Common.{
  ℕ, Bool, true, false, not, ◌&&◌, ◌||◌, String, List, [], ◌∷◌, ◌++◌, map, Option, none, some,
  if◌then◌else◌, ◌===◌, non_empty, truthy, length, any, filter, has, add, ltb, sort, Group,
  group_by, non_empty_list,
}
use etl_nexus.Stores.DataProductStore.{DataProductState}

-- `PipelineListItem`
pub record ListItem : Type 0 where
  pub id : String
  pub name : String
  pub description : Option String
  pub schedule_type : Option String
  pub team : Option String

-- `PipelineFilterParams`
pub record FilterParams : Type 0 where
  pub team : Option (List String)
  pub schedule : Option (List String)

abbrev pub selected_only : List String → Option (List String)
selected_only set = if non_empty_list set then some set else none

unfoldable pub server_filters : List String → List String → Option FilterParams
server_filters teams schedules =
    if non_empty_list teams || non_empty_list schedules
    then some (record { team = selected_only teams; schedule = selected_only schedules })
    else none

unfoldable pub has_active_filters : List String → List String → Bool
has_active_filters teams schedules = non_empty_list teams || non_empty_list schedules

-- the values of one field that are not empty, as a set
pub available_from : (ListItem → Option String) → List String → List ListItem → List String
available_from field set [] = set
available_from field set (p ∷ products) =
    available_from field
      (elim (field p) [ none ↦ set | some value ↦ if non_empty value then add value set else set ])
      products

unfoldable pub available_teams : (String → String → Bool) → List ListItem → List String
unfolding available_from
available_teams unit_le products = sort unit_le (available_from (λ p. p.team) [] products)

unfoldable pub available_schedules : (String → String → Bool) → List ListItem → List String
unfolding available_from
available_schedules unit_le products =
    sort unit_le (available_from (λ p. p.schedule_type) [] products)

-- `set.size > 0 && (!value || !set.has(value))`
unfoldable pub is_filtered_out : List String → Option String → Bool
is_filtered_out set none = non_empty_list set
is_filtered_out set (some value) =
    non_empty_list set && (not (non_empty value) || not (has value set))

unfoldable pub is_kept : List String → List String → ListItem → Bool
unfolding is_filtered_out
is_kept teams schedules p =
    if is_filtered_out teams p.team then false else not (is_filtered_out schedules p.schedule_type)

unfoldable pub filtered_products : List String → List String → List ListItem → List ListItem
unfolding is_kept has_active_filters
filtered_products teams schedules [] = []
filtered_products teams schedules products =
    if has_active_filters teams schedules
    then filter (is_kept teams schedules) products
    else products

-- `product.team || "Unassigned"`
unfoldable pub group_of : ListItem → String
group_of p = elim p.team [
  | none ↦ "Unassigned"
  | some team ↦ if non_empty team then team else "Unassigned"
]

-- the group of favourites, which is there if it is not empty
abbrev pub shown_favorites : List ListItem → List (Group ListItem)
shown_favorites [] = []
shown_favorites (p ∷ ps) = record { category = "★ Favorites"; members = p ∷ ps } ∷ []

unfoldable pub favorites_group : List String → List ListItem → List (Group ListItem)
favorites_group favorite_ids filtered =
    shown_favorites (filter (λ p. has p.id favorite_ids) filtered)

module _ (le : String → String → Bool) where
  abbrev pub by_name : ListItem → ListItem → Bool
  by_name p q = le p.name q.name

  abbrev pub by_category : Group ListItem → Group ListItem → Bool
  by_category g h = le g.category h.category

  abbrev pub sort_members : Group ListItem → Group ListItem
  sort_members g = record g { members = sort by_name g.members }

  -- the groups by team, each sorted, in the order of the teams
  unfoldable pub team_groups : List ListItem → List (Group ListItem)
  unfolding group_of
  team_groups filtered = sort by_category (map sort_members (group_by group_of filtered))

  unfoldable pub grouped_products : List String → List ListItem → List (Group ListItem)
  unfolding team_groups favorites_group
  grouped_products favorite_ids [] = []
  grouped_products favorite_ids filtered =
      favorites_group favorite_ids filtered ++ team_groups filtered

-- `groups[0].pipelines[0].id`; `none` stands for the exception on an empty group.
abbrev pub head_id : List ListItem → Option String
head_id [] = none
head_id (p ∷ ps) = some p.id

unfoldable pub first_id : List (Group ListItem) → Option String
first_id [] = none
first_id (g ∷ gs) = head_id g.members

-- What an effect does to the selection; `none` stands for the exception.
-- The first effect: nothing is selected, and there is a group.
unfoldable pub auto_select : List (Group ListItem) → Option String → Option (Option String)
unfolding first_id
auto_select groups selected =
    if non_empty_list groups && not (truthy selected)
    then elim (first_id groups) [ none ↦ none | some id ↦ some (some id) ]
    else some selected

-- `products.some((p) => p.id === id)`
abbrev pub shows : List ListItem → Option String → Bool
shows products none = false
shows products (some id) = any (λ p. p.id === id) products

-- The second effect: what was selected at the render is not in the list any more. `current` is the
-- selection that the first effect leaves.
unfoldable pub keep_visible : List ListItem → Option String → Option String → Option String
keep_visible [] selected current = current
keep_visible (p ∷ ps) selected current =
    if truthy selected && not (shows (p ∷ ps) selected) then some p.id else current

-- Both effects of one render, in their order; both read the selection of the render.
unfoldable pub selection_effects :
    List (Group ListItem) → List ListItem → Option String → Option (Option String)
unfolding auto_select keep_visible
selection_effects groups filtered selected =
    Option.map (keep_visible filtered selected) (auto_select groups selected)
