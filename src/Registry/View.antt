-- ===== src/Registry/View.antt =====
-- frontend/src/components/data-products/DataProductRegistry.tsx, DataProductFilters.tsx and
-- DataProductListItem.tsx: what the list of products shows, and its handlers. `strip` stands for
-- `stripDummy`.
mod Tests
use Prim.Native.String
use etl_nexus.Common.{
  ℕ, Bool, true, false, not, ◌&&◌, ◌||◌, ◌==◌, String, List, [], ◌∷◌, ◌++◌, map, Option, none, some,
  if◌then◌else◌, ◌===◌, has, length, ltb, non_empty, non_empty_list, Group,
}
use etl_nexus.Stores.DataProductStore.{
  DataProductState, Dimension, team, schedule, toggle_filter, clear_all_filters,
  set_selected_product_id,
}
use etl_nexus.Registry.{ListItem, has_active_filters}

-- `texts.join(sep)`
unfoldable pub join_texts : String → List String → String
join_texts sep [] = ""
join_texts sep (text ∷ []) = text
join_texts sep (text ∷ next ∷ texts) =
    String.◌++◌ text (String.◌++◌ sep (join_texts sep (next ∷ texts)))

abbrev part_of : List String → List String
part_of [] = []
part_of (value ∷ values) = join_texts ", " (value ∷ values) ∷ []

-- `filterSummary`
unfoldable pub filter_summary : List String → List String → Option String
unfolding has_active_filters join_texts
filter_summary teams schedules =
    if has_active_filters teams schedules
    then some (join_texts " · " (part_of teams ++ part_of schedules))
    else none

-- `isFiltered`
unfoldable pub is_filtered : DataProductState → List ListItem → List ListItem → Bool
unfolding has_active_filters
is_filtered store products filtered =
    has_active_filters store.team_filters store.schedule_filters
    && (ltb 0 (length products) && not (length filtered == length products))

-- `useDataProducts`, as far as the list shows it
pub record ListQuery : Type 0 where
  pub is_loading : Bool
  pub is_error : Bool
  pub has_next_page : Bool
  pub is_fetching_next_page : Bool

-- DataProductListItem
pub record ItemView : Type 0 where
  pub title : String
  pub is_active : Bool
  pub favorite_mark : Bool
  pub team : Option String
  pub schedule : Option String

abbrev is_selected : Option String → String → Bool
is_selected none id = false
is_selected (some selected) id = id === selected

abbrev shown_text : Option String → Option String
shown_text none = none
shown_text (some text) = if non_empty text then some text else none

unfoldable pub item_view : (String → String) → List String → Option String → ListItem → ItemView
unfolding has
item_view strip favorite_ids selected p = record {
  title = strip p.name;
  is_active = is_selected selected p.id;
  favorite_mark = has p.id favorite_ids;
  team = shown_text p.team;
  schedule = shown_text p.schedule_type;
}

-- DataProductFilters: a pill for each value, and "Clear all"
pub record FiltersView : Type 0 where
  pub clear_offered : Bool
  pub team_pills : List (String × Bool)
  pub schedule_pills : List (String × Bool)

unfoldable pub filters_view : List String → List String → DataProductState → FiltersView
unfolding has
filters_view teams schedules store = record {
  clear_offered = non_empty_list store.team_filters || non_empty_list store.schedule_filters;
  team_pills = map (λ value. (value, has value store.team_filters)) teams;
  schedule_pills = map (λ value. (value, has value store.schedule_filters)) schedules;
}

-- the whole list
pub record RegistryView : Type 0 where
  pub filters : FiltersView
  pub drawer_open : Bool
  pub strip_text : Option String
  pub showing : Option (ℕ × ℕ)
  pub spinner : Bool
  pub failed : Bool
  pub no_products : Bool
  pub groups : List (String × List ItemView)
  pub load_more : Option Bool

-- what the list is rendered from
pub record RegistryProps : Type 0 where
  pub store : DataProductState
  pub favorite_ids : List String
  pub query : ListQuery
  pub products : List ListItem
  pub filtered : List ListItem
  pub groups : List (Group ListItem)
  pub teams : List String
  pub schedules : List String

unfoldable pub registry_view : (String → String) → RegistryProps → RegistryView
unfolding filters_view filter_summary is_filtered item_view
registry_view strip p = record {
  filters = filters_view p.teams p.schedules p.store;
  drawer_open = p.store.filters_open;
  strip_text =
      if p.store.filters_open
      then none
      else filter_summary p.store.team_filters p.store.schedule_filters;
  showing =
      if is_filtered p.store p.products p.filtered
      then some (length p.filtered, length p.products)
      else none;
  spinner = p.query.is_loading;
  failed = p.query.is_error;
  no_products = not p.query.is_loading && (not p.query.is_error && not (ltb 0 (length p.groups)));
  groups =
      map
        (λ group. (
          group.category,
          map (item_view strip p.favorite_ids p.store.selected_product_id) group.members,
        ))
        p.groups;
  load_more = if p.query.has_next_page then some (not p.query.is_fetching_next_page) else none;
}

-- the store, and whether the modal for a new product is open
pub record RegistryState : Type 0 where
  pub store : DataProductState
  pub create_open : Bool

unfoldable pub open_create : RegistryState → RegistryState
open_create w = record w { create_open = true }

unfoldable pub close_create : RegistryState → RegistryState
close_create w = record w { create_open = false }

-- `handleSelectProduct`
unfoldable pub handle_select_product : String → RegistryState → RegistryState
unfolding set_selected_product_id
handle_select_product id w = record w { store = (set_selected_product_id (some id) w.store).0 }

-- `onCreated`
unfoldable pub on_created : String → RegistryState → RegistryState
unfolding set_selected_product_id
on_created id w = record {
  store = (set_selected_product_id (some id) w.store).0;
  create_open = false;
}
