-- ===== src/Catalog.antt =====
-- The tables of the catalogue: frontend/src/components/tables/TablesView.tsx,
-- frontend/src/components/data-products/TableSelect.tsx and frontend/src/types/table.ts. `lower`,
-- `trim` and `contains` stand for `toLowerCase`, `trim` and `includes`, `le` for the order of
-- `localeCompare` and `unit_le` for that of `sort()`.
pub mod Selecting
pub mod View
mod Showing
mod Filtering
mod Tests
use Prim.Native.String
use etl_nexus.Common.{
  ℕ, Bool, true, false, not, ◌&&◌, ◌||◌, String, List, [], ◌∷◌, ◌++◌, Option, none, some,
  if◌then◌else◌, ◌===◌, non_empty, filter, any, all, map, has, add, delete, set_of, sort, Group,
  group_by, non_empty_list, truthy,
}

pub record TableListItem : Type 0 where
  pub namespace : String
  pub table_name : String

-- `tableKey`, and `fqn` of TableSelect
unfoldable pub table_key : TableListItem → String
table_key t = String.◌++◌ t.namespace (String.◌++◌ "." t.table_name)

-- the state of the view
pub record TablesState : Type 0 where
  pub search : String
  pub team_filters : List String
  pub selected_key : Option String

unfoldable pub toggle_team : String → List String → List String
unfolding has delete add
toggle_team team set = if has team set then delete team set else add team set

unfoldable pub teams_of : (String → String → Bool) → List TableListItem → List String
unfolding set_of sort
teams_of unit_le tables = sort unit_le (set_of (map (λ t. t.namespace) tables))

module _ (lower trim : String → String) (contains : String → String → Bool) where
  -- the predicate of the filter, at the trimmed and lowered search
  unfoldable pub is_listed : String → List String → TableListItem → Bool
  unfolding has
  is_listed q team_filters t =
      if non_empty_list team_filters && not (has t.namespace team_filters)
      then false
      else if non_empty q && not (contains q (lower t.table_name))
      then false
      else true

  unfoldable pub filtered_tables : TablesState → List TableListItem → List TableListItem
  unfolding is_listed
  filtered_tables s tables = filter (is_listed (lower (trim s.search)) s.team_filters) tables

  -- the tables of TableSelect: the name or the namespace has the search in it
  unfoldable pub searched_tables : String → List TableListItem → List TableListItem
  searched_tables search tables =
      let q = lower (trim search) in
      filter
        (λ t.
          not (non_empty q) || contains q (lower t.table_name) || contains q (lower t.namespace))
        tables

abbrev pub by_name : (String → String → Bool) → TableListItem → TableListItem → Bool
by_name le a b = le a.table_name b.table_name

abbrev pub sort_group : (String → String → Bool) → Group TableListItem → Group TableListItem
sort_group le g = record g { members = sort (by_name le) g.members }

unfoldable pub grouped_tables :
    (String → String → Bool) → List TableListItem → List (Group TableListItem)
unfolding group_by sort
grouped_tables le filtered =
    sort (λ a b. le a.category b.category)
      (map (sort_group le) (group_by (λ t. t.namespace) filtered))

unfoldable pub is_key_of : Option String → TableListItem → Bool
unfolding table_key
is_key_of none t = false
is_key_of (some key) t = table_key t === key

-- the effect that keeps a valid selection; that of DataProductWorkspace.tsx is the same
unfoldable pub keep_selection : List TableListItem → Option String → Option String
unfolding is_key_of table_key
keep_selection [] selected_key = none
keep_selection (t ∷ ts) selected_key =
    if not (truthy selected_key) || not (any (is_key_of selected_key) (t ∷ ts))
    then some (table_key t)
    else selected_key

-- `filtered.find(...) ?? null`
unfoldable pub find_selected : Option String → List TableListItem → Option TableListItem
unfolding is_key_of
find_selected selected_key [] = none
find_selected selected_key (t ∷ ts) =
    if is_key_of selected_key t then some t else find_selected selected_key ts

-- TableSelect: the next value after a click on one table, or on "Select all" or "Deselect"
unfoldable pub toggle_table : String → List String → List String
unfolding has delete
toggle_table name value = if has name value then delete name value else value ++ name ∷ []

unfoldable pub toggle_all_filtered : List String → List String → List String
unfolding has
toggle_all_filtered filtered_names value =
    if non_empty_list filtered_names && all (λ n. has n value) filtered_names
    then filter (λ v. not (has v filtered_names)) value
    else value ++ filter (λ n. not (has n value)) filtered_names

pub record TableColumn : Type 0 where
  pub name : String
  pub data_type : Option String
  pub ordinal_position : ℕ

pub record TableSchema : Type 0 where
  pub table : TableListItem
  pub columns : List TableColumn
  pub consume_snippet : String

pub record PipelineField : Type 0 where
  pub id : String
  pub name : String
  pub data_type : Option String
  pub ordinal_position : ℕ

unfoldable pub columns_to_fields : TableSchema → List PipelineField
unfolding table_key
columns_to_fields schema =
    map
      (λ c. record {
        id = String.◌++◌ (table_key schema.table) (String.◌++◌ "." c.name);
        name = c.name;
        data_type = c.data_type;
        ordinal_position = c.ordinal_position;
      })
      schema.columns
