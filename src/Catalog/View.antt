-- ===== src/Catalog/View.antt =====
-- frontend/src/components/tables/TablesView.tsx: what is shown of the tables, and the handlers; and
-- what frontend/src/components/data-products/TableSelect.tsx shows. The parameters are those of the
-- filters; `schema_of` stands for the answer of `useTableSchema`.
use etl_nexus.Common.{
  ℕ, Bool, true, false, not, ◌&&◌, String, List, [], ◌∷◌, Option, none, some, if◌then◌else◌, map,
  has, all, length, non_empty_list, Group,
}
use etl_nexus.Catalog.{
  TableListItem, TablesState, PipelineField, table_key, toggle_team, teams_of, filtered_tables,
  searched_tables, grouped_tables, is_key_of, keep_selection, find_selected,
}
use etl_nexus.Workspace.{SchemaQuery, SchemaPanel, schema_panel}

-- `useTables`; `tables_failed` is an error
pub data TablesQuery : Type 0 where
  tables_loading tables_failed : TablesQuery
  tables_loaded : List TableListItem → TablesQuery

-- `data?.items ?? []`
abbrev pub items_of : TablesQuery → List TableListItem
items_of tables_loading = []
items_of tables_failed = []
items_of (tables_loaded tables) = tables

abbrev is_loading : TablesQuery → Bool
is_loading tables_loading = true
is_loading tables_failed = false
is_loading (tables_loaded tables) = false

abbrev is_failed : TablesQuery → Bool
is_failed tables_loading = false
is_failed tables_failed = true
is_failed (tables_loaded tables) = false

unfoldable pub type_table_search : String → TablesState → TablesState
type_table_search search w = record w { search = search }

-- the button "all"
unfoldable pub clear_teams : TablesState → TablesState
clear_teams w = record w { team_filters = [] }

unfoldable pub click_team : String → TablesState → TablesState
unfolding toggle_team
click_team team w = record w { team_filters = toggle_team team w.team_filters }

unfoldable pub click_table : TableListItem → TablesState → TablesState
click_table t w = record w { selected_key = some (table_key t) }

pub record TableItem : Type 0 where
  pub name : String
  pub active : Bool

pub data TableDetail : Type 0 where
  prompt : TableDetail
  shown_table : (name namespace : String) → SchemaPanel → TableDetail

pub record TablesScreen : Type 0 where
  pub all_pill : Option Bool
  pub team_pills : List (String × Bool)
  pub spinner : Bool
  pub failure : Bool
  pub none_found : Bool
  pub groups : List (String × (ℕ × List TableItem))
  pub detail : TableDetail

unfoldable pub table_item : Option String → TableListItem → TableItem
unfolding is_key_of
table_item selected_key t = record { name = t.table_name; active = is_key_of selected_key t }

abbrev pub group_view : Option String → Group TableListItem → String × (ℕ × List TableItem)
group_view selected_key g =
    (g.category, (length g.members, map (table_item selected_key) g.members))

-- the parts of TableSelect
pub data SelectBody : Type 0 where
  select_spinner nothing_found : SelectBody
  choices : List (TableListItem × Bool) → SelectBody

pub record SelectView : Type 0 where
  pub toggle_all : Option (String × ℕ)
  pub body : SelectBody
  pub selected_count : Option ℕ

abbrev body_of : Bool → List String → List TableListItem → SelectBody
body_of true value tables = select_spinner
body_of false value [] = nothing_found
body_of false value (t ∷ ts) = choices (map (λ u. (u, has (table_key u) value)) (t ∷ ts))

module _ (lower trim : String → String) (contains : String → String → Bool) where
  abbrev pub listed : TablesQuery → TablesState → List TableListItem
  listed query w = filtered_tables lower trim contains w (items_of query)

  -- the effect that keeps a valid selection
  unfoldable pub settle_tables : TablesQuery → TablesState → TablesState
  unfolding filtered_tables keep_selection
  settle_tables query w = record w { selected_key = keep_selection (listed query w) w.selected_key }

  unfoldable pub select_view : TablesQuery → String → List String → SelectView
  unfolding searched_tables has
  select_view query search value =
      let tables = searched_tables lower trim contains search (items_of query) in
      record {
        toggle_all =
            if non_empty_list tables
            then some (
              (if all (λ t. has (table_key t) value) tables then "Deselect" else "Select all"),
              length tables,
            )
            else none;
        body = body_of (is_loading query) value tables;
        selected_count = if non_empty_list value then some (length value) else none;
      }

module _ (lower trim : String → String) (contains : String → String → Bool)
    (le unit_le : String → String → Bool) (type_of : PipelineField → String)
    (schema_of : TableListItem → SchemaQuery) where
  abbrev detail_of : Option TableListItem → TableDetail
  detail_of none = prompt
  detail_of (some t) = shown_table t.table_name t.namespace (schema_panel type_of (schema_of t))

  -- TablesView
  unfoldable pub tables_screen : TablesQuery → TablesState → TablesScreen
  unfolding filtered_tables grouped_tables find_selected teams_of table_item schema_panel has
  tables_screen query w =
      let filtered = listed lower trim contains query w in
      let teams = teams_of unit_le (items_of query) in
      record {
        all_pill =
            if non_empty_list teams then some (not (non_empty_list w.team_filters)) else none;
        team_pills = map (λ team. (team, has team w.team_filters)) teams;
        spinner = is_loading query;
        failure = is_failed query;
        none_found =
            not (is_loading query) && not (is_failed query) && not (non_empty_list filtered);
        groups = map (group_view w.selected_key) (grouped_tables le filtered);
        detail = detail_of (find_selected w.selected_key filtered);
      }
