-- ===== src/Workspace/Tests.antt =====
-- The page of a product with two tables.
use etl_nexus.Common.{true, false, [], ◌∷◌, none, some, codes, ◌≡◌, refl}
use etl_nexus.Catalog.{TableListItem}
use etl_nexus.Workspace.{
  ProductDetail, fetched, WorkspaceState, tables_effect, tables_part, tabs, workspace_view,
  nothing_selected, page_view,
}

abbrev orders : TableListItem
orders = record { namespace = "sales"; table_name = "orders" }

abbrev items : TableListItem
items = record { namespace = "sales"; table_name = "items" }

abbrev product : ProductDetail
product = record {
  id = "7";
  name = "Sales";
  description = none;
  tables = orders ∷ items ∷ [];
  documentation = some (codes "# Sales");
  team = some "bi";
  schedule_type = none;
  can_edit = false;
  default_import_snippet = "read";
}

abbrev other_table : WorkspaceState
other_table = record { active_key = some "sales.refunds"; edit_open = true }

first_table :
    tables_part product (tables_effect (fetched product) other_table).active_key
    ≡ tabs (("orders", true) ∷ ("items", false) ∷ []) (some orders)
unfolding tables_part tables_effect
first_table = refl

nothing_shown :
    workspace_view (λ name. name) false none (fetched product) other_table ≡ nothing_selected
unfolding workspace_view
nothing_shown = refl

-- a modal that was opened at another product stays, although this one cannot be edited
edit_modal_stays : (page_view (λ name. name) false product other_table).edit_modal ≡ true
unfolding page_view
edit_modal_stays = refl
