-- ===== src/Workspace.antt =====
-- frontend/src/components/data-products/DataProductWorkspace.tsx without its edit modal (which is
-- in Products), frontend/src/components/bento-workspace/BentoHeader.tsx, and the table of fields of
-- SchemaViewer.tsx beside it: what the page of a product shows. `strip` stands for `stripDummy`.
pub mod Tabs
mod Tests
use etl_nexus.Common.{
  ℕ, Bool, true, false, not, ◌&&◌, String, List, [], ◌∷◌, map, Option, none, some, if◌then◌else◌,
  truthy, non_empty, Text,
}
use etl_nexus.Catalog.{
  TableListItem, table_key, is_key_of, keep_selection, find_selected, TableSchema, PipelineField,
  columns_to_fields,
}
use etl_nexus.Documentation.{DocProps}

-- what the page shows of `PipelineDetail`
pub record ProductDetail : Type 0 where
  pub id : String
  pub name : String
  pub description : Option String
  pub tables : List TableListItem
  pub documentation : Option Text
  pub team : Option String
  pub schedule_type : Option String
  pub can_edit : Bool
  pub default_import_snippet : String

-- `usePipelineDetail`; `failed` is an error or no data
pub data DetailQuery : Type 0 where
  loading failed : DetailQuery
  fetched : ProductDetail → DetailQuery

pub record WorkspaceState : Type 0 where
  pub active_key : Option String
  pub edit_open : Bool

-- `pipeline?.tables ?? []`
abbrev pub tables_of : DetailQuery → List TableListItem
tables_of loading = []
tables_of failed = []
tables_of (fetched product) = product.tables

-- the effect of `[tables, activeKey]`
unfoldable pub tables_effect : DetailQuery → WorkspaceState → WorkspaceState
unfolding keep_selection
tables_effect query w = record w { active_key = keep_selection (tables_of query) w.active_key }

-- the tab of a table
unfoldable pub click_table_tab : TableListItem → WorkspaceState → WorkspaceState
click_table_tab t w = record w { active_key = some (table_key t) }

-- the button "Edit", and `onClose` of the edit modal
unfoldable pub click_edit : ProductDetail → WorkspaceState → WorkspaceState
click_edit product w = if product.can_edit then record w { edit_open = true } else w

unfoldable pub close_edit : WorkspaceState → WorkspaceState
close_edit w = record w { edit_open = false }

-- BentoHeader; a team or a schedule is shown unless it is empty
pub record HeaderView : Type 0 where
  pub title : String
  pub team : Option String
  pub schedule : Option String
  pub description : Option String
  pub can_edit : Bool

abbrev shown_text : Option String → Option String
shown_text none = none
shown_text (some text) = if non_empty text then some text else none

unfoldable pub bento_header : (String → String) → ProductDetail → HeaderView
bento_header strip product = record {
  title = strip product.name;
  team = shown_text product.team;
  schedule = shown_text product.schedule_type;
  description = product.description;
  can_edit = product.can_edit;
}

-- the tables of the product: a text where there are none, else the tabs and the table under them
pub data TablesPart : Type 0 where
  no_tables : String → TablesPart
  tabs : (names : List (String × Bool)) → (active : Option TableListItem) → TablesPart

pub record PageView : Type 0 where
  pub header : HeaderView
  pub documentation_name : String
  pub documentation : DocProps
  pub snippet : String
  pub edit_offered : Bool
  pub tables : TablesPart
  pub edit_modal : Bool

pub data WorkspaceScreen : Type 0 where
  nothing_selected skeletons load_failed : WorkspaceScreen
  product_page : PageView → WorkspaceScreen

unfoldable pub tables_part : ProductDetail → Option String → TablesPart
unfolding is_key_of find_selected
tables_part product active_key = elim product.tables [
  | [] ↦
      no_tables
        (if product.can_edit then "No tables yet. Use “Edit” to add some." else "No tables yet.")
  | t ∷ ts ↦
      tabs (map (λ table. (table.table_name, is_key_of active_key table)) (t ∷ ts))
        (find_selected active_key (t ∷ ts))
]

unfoldable pub page_view : (String → String) → Bool → ProductDetail → WorkspaceState → PageView
unfolding bento_header tables_part
page_view strip is_saving product w = record {
  header = bento_header strip product;
  documentation_name = strip product.name;
  documentation = record {
    documentation = product.documentation;
    is_saving = is_saving;
    can_edit = product.can_edit;
  };
  snippet = product.default_import_snippet;
  edit_offered = product.can_edit;
  tables = tables_part product w.active_key;
  edit_modal = w.edit_open;
}

abbrev screen_of : (String → String) → Bool → DetailQuery → WorkspaceState → WorkspaceScreen
screen_of strip is_saving loading w = skeletons
screen_of strip is_saving failed w = load_failed
screen_of strip is_saving (fetched product) w = product_page (page_view strip is_saving product w)

-- DataProductWorkspace
unfoldable pub workspace_view :
    (String → String) → Bool → Option String → DetailQuery → WorkspaceState → WorkspaceScreen
unfolding page_view
workspace_view strip is_saving selected query w =
    if truthy selected then screen_of strip is_saving query w else nothing_selected

-- `useTableSchema`; `failed` is an error or no data
pub data SchemaQuery : Type 0 where
  reading unavailable : SchemaQuery
  read : TableSchema → SchemaQuery

-- what SchemaViewer shows: the name and the type of each field, and whether it can be edited
pub data FieldsView : Type 0 where
  no_fields : FieldsView
  fields : List (String × String) → FieldsView

unfoldable pub fields_view : (PipelineField → String) → List PipelineField → FieldsView
fields_view type_of [] = no_fields
fields_view type_of (f ∷ fs) = fields (map (λ field. (field.name, type_of field)) (f ∷ fs))

-- the button that opens the editor: `canEdit && pipelineId`
unfoldable pub can_edit_schema : Bool → Option String → Bool
can_edit_schema can_edit pipeline_id = can_edit && truthy pipeline_id

-- TableSchemaPanel, whose fields cannot be edited
pub data SchemaPanel : Type 0 where
  schema_spinner schema_unavailable : SchemaPanel
  schema_fields : FieldsView → (snippet : String) → SchemaPanel

unfoldable pub schema_panel : (PipelineField → String) → SchemaQuery → SchemaPanel
unfolding fields_view columns_to_fields
schema_panel type_of reading = schema_spinner
schema_panel type_of unavailable = schema_unavailable
schema_panel type_of (read schema) =
    schema_fields (fields_view type_of (columns_to_fields schema)) schema.consume_snippet
