-- ===== src/Catalog/Showing.antt =====
-- The table under the list, and its mark in the list.
use mathlib.Core.List.{filter_map}
use mathlib.Core.List.Perm
use etl_nexus.Common.{
  ℕ, Bool, true, String, List, [], ◌∷◌, ◌++◌, map, filter, Option, none, some, if◌then◌else◌, Group,
  all_members, Perm, All, ◌===◌, eq_iff, ◌≡◌, ◌≢◌, refl, sym, arith, ap,
}
use etl_nexus.Catalog.{
  TableListItem, TablesState, PipelineField, grouped_tables, table_key, is_key_of, keep_selection,
  find_selected,
}
use etl_nexus.Catalog.Filtering.{grouped_tables-perm, grouped_tables-namespaces}
use etl_nexus.Catalog.Selecting.{keep_selection-IsSettled}
use etl_nexus.Catalog.View.{
  TablesQuery, listed, TableItem, shown_table, table_item, group_view, settle_tables, tables_screen,
}
use etl_nexus.Workspace.{SchemaQuery, schema_panel}
use etl_nexus.Workspace.Tabs.{find_selected-found}

-- a row of the list: the name over its group, and its own
abbrev pub ListRow : Type 0
ListRow = String × String

abbrev pub row_of : TableListItem → ListRow
row_of t = (t.namespace, t.table_name)

-- the rows of the list that are marked
abbrev rows_in : String → List TableItem → List ListRow
rows_in namespace [] = []
rows_in namespace (item ∷ items) =
    let rest = rows_in namespace items in
    if item.active then (namespace, item.name) ∷ rest else rest

abbrev pub marked_rows : List (String × (ℕ × List TableItem)) → List ListRow
marked_rows [] = []
marked_rows ((namespace, (count, items)) ∷ groups) = rows_in namespace items ++ marked_rows groups

-- the rows of the tables of a list that have a key
abbrev pub rows_with : String → List TableListItem → List ListRow
rows_with key ts = map row_of (filter (λ t. table_key t === key) ts)

rows_with-append :
    (key : String) (ts us : List TableListItem)
    → rows_with key (ts ++ us) ≡ rows_with key ts ++ rows_with key us
rows_with-append key [] us = refl
rows_with-append key (t ∷ ts) us = ground (arith, rows_with-append key ts us)

-- the row of a table that has a key
abbrev row_with : String → TableListItem → Option ListRow
row_with key t = if table_key t === key then some (row_of t) else none

rows_with-filter_map :
    (key : String) (ts : List TableListItem) → rows_with key ts ≡ filter_map (row_with key) ts
unfolding filter_map
rows_with-filter_map key [] = refl
rows_with-filter_map key (t ∷ ts) = ground (arith, rows_with-filter_map key ts)

rows_with-perm :
    (key : String) {ts us : List TableListItem}
    → Perm ts us
    → Perm (rows_with key ts) (rows_with key us)
rows_with-perm key {ts} {us} same =
    rw (rows_with-filter_map key ts, rows_with-filter_map key us)
      (Perm.filter_map (row_with key) same)

rows_in-table_item :
    (key namespace : String) (ts : List TableListItem)
    → All (λ t. t.namespace ≡ namespace) ts
    → rows_in namespace (map (table_item (some key)) ts) ≡ rows_with key ts
unfolding table_item is_key_of
rows_in-table_item key namespace [] h = refl
rows_in-table_item key namespace (t ∷ ts) (same, h) =
    ground (arith, rows_in-table_item key namespace ts h)

marked_rows-group_view :
    (key : String) (gs : List (Group TableListItem))
    → All (λ g. All (λ t. t.namespace ≡ g.category) g.members) gs
    → marked_rows (map (group_view (some key)) gs) ≡ rows_with key (all_members gs)
marked_rows-group_view key [] h = refl
marked_rows-group_view key (g ∷ gs) (same, h) = ground (
  arith,
  rows_in-table_item key g.category g.members same,
  marked_rows-group_view key gs h,
  rows_with-append key g.members (all_members gs),
)

-- a selected key that is that of a table
key_of_table :
    (key : Option String) (t : TableListItem) → is_key_of key t ≡ true → key ≡ some (table_key t)
unfolding is_key_of
key_of_table none t h = cc
key_of_table (some key) t h = ap some (sym ((eq_iff (table_key t) key).0 h))

module _ (lower trim : String → String) (contains : String → String → Bool)
    (le unit_le : String → String → Bool) (type_of : PipelineField → String)
    (schema_of : TableListItem → SchemaQuery) where
  -- The part under the list is a table that passes the filters, with its own schema; and the marked
  -- rows of the list are those of the tables that pass and have its key, each in its group.
  pub record IsShown (query : TablesQuery) (w : TablesState) : Type 0 where
    pub table : TableListItem
    pub found : find_selected w.selected_key (listed lower trim contains query w) ≡ some table
    pub detail :
        (tables_screen lower trim contains le unit_le type_of schema_of query w).detail
        ≡ shown_table table.table_name table.namespace (schema_panel type_of (schema_of table))
    pub marked :
        Perm
          (marked_rows
            (tables_screen lower trim contains le unit_le type_of schema_of query w).groups)
          (rows_with (table_key table) (listed lower trim contains query w))

  screen_marked :
      (query : TablesQuery) (w : TablesState) (key : String)
      → w.selected_key ≡ some key
      → Perm
          (marked_rows
            (tables_screen lower trim contains le unit_le type_of schema_of query w).groups)
          (rows_with key (listed lower trim contains query w))
  unfolding tables_screen
  screen_marked query w key selected =
      let filtered = listed lower trim contains query w in
      rw
        (
          selected,
          marked_rows-group_view key (grouped_tables le filtered)
              (grouped_tables-namespaces le filtered),
        )
        (rows_with-perm key (grouped_tables-perm le filtered))

  detail_found :
      (query : TablesQuery) (w : TablesState) (table : TableListItem)
      → find_selected w.selected_key (listed lower trim contains query w) ≡ some table
      → (tables_screen lower trim contains le unit_le type_of schema_of query w).detail
        ≡ shown_table table.table_name table.namespace (schema_panel type_of (schema_of table))
  unfolding tables_screen
  detail_found query w table found = rw found refl

  -- Whatever was selected, searched and filtered before: once the effect has run, if some table
  -- passes the filters then the part under the list is one that passes, with its own schema; the rows
  -- that the list marks, by the name over their group and their own, are those of the tables that
  -- pass and have the key of that table, and no others; and the effect changes nothing more.
  pub settle_tables-IsShown :
      (query : TablesQuery) (w : TablesState)
      → listed lower trim contains query w ≢ []
      → let settled = settle_tables lower trim contains query w in
        IsShown query settled × (settle_tables lower trim contains query settled ≡ settled)
  unfolding settle_tables
  settle_tables-IsShown query w h =
      let filtered = listed lower trim contains query w in
      let key = keep_selection filtered w.selected_key in
      let (kept, stable) = keep_selection-IsSettled filtered w.selected_key in
      let (table, found, has_key) = find_selected-found key filtered (kept h) in
      let settled = settle_tables lower trim contains query w in
      (
        record {
          table = table;
          found = found;
          detail = detail_found query settled table found;
          marked = screen_marked query settled (table_key table) (key_of_table key table has_key);
        },
        ap (λ selected. record w { selected_key = selected }) stable,
      )
