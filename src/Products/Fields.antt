-- ===== src/Products/Fields.antt =====
-- The fields of the two forms in frontend/src/components/data-products/CreateDataProductModal.tsx
-- and the EditProductModal of DataProductWorkspace.tsx, and what their buttons show. `slice` stands
-- for JavaScript's `slice` at two positions.
use Prim.Native.String.{len}
use etl_nexus.Common.{
  ℕ, Bool, true, false, not, ◌||◌, String, List, ◌∷◌, map, Option, none, some, if◌then◌else◌, ◌≡◌,
  arith,
}
use etl_nexus.Catalog.{TableListItem, table_key}
use etl_nexus.Products.{
  CreateForm, CreateRequest, EditForm, must_choose_team, can_create, click_create, can_save,
}

-- a change of a field of the form for a new product
pub data CreateChange : Type 0 where
  new_name new_description new_documentation new_schedule new_team : String → CreateChange
  new_tables : List String → CreateChange

unfoldable pub change_create : (ℕ → ℕ → String → String) → CreateChange → CreateForm → CreateForm
change_create slice (new_name value) form = record form { name = value }
change_create slice (new_description value) form = record form { description = slice 0 270 value }
change_create slice (new_documentation value) form = record form { documentation = value }
change_create slice (new_schedule value) form = record form { schedule_type = value }
change_create slice (new_team value) form = record form { team = value }
change_create slice (new_tables value) form = record form { tables = value }

-- the X of the form, which keeps the fields
unfoldable pub close_create_modal : CreateForm → CreateForm
close_create_modal form = form

-- the form, if it is open
pub record CreateView : Type 0 where
  pub description_length : ℕ
  pub team_options : Option (List String)
  pub create_enabled : Bool
  pub create_label : String

unfoldable pub create_view : (String → String) → List String → Bool → CreateForm → Option CreateView
unfolding can_create
create_view trim user_teams is_open form =
    if is_open
    then some (record {
      description_length = len form.description;
      team_options = if must_choose_team user_teams then some ("" ∷ user_teams) else none;
      create_enabled = can_create trim user_teams form;
      create_label = if form.is_pending then "Creating..." else "Create";
    })
    else none

-- the fields of the edit modal as it is mounted
abbrev or_blank : Option String → String
or_blank none = ""
or_blank (some text) = text

unfoldable pub initial_edit : String → Option String → Option String → List TableListItem → EditForm
unfolding table_key
initial_edit name schedule_type documentation tables = record {
  name = name;
  schedule_type = or_blank schedule_type;
  documentation = or_blank documentation;
  tables = map table_key tables;
  confirm_delete = false;
}

pub data EditChange : Type 0 where
  edit_name edit_schedule edit_documentation : String → EditChange
  edit_tables : List String → EditChange

unfoldable pub change_edit : EditChange → EditForm → EditForm
change_edit (edit_name value) form = record form { name = value }
change_edit (edit_schedule value) form = record form { schedule_type = value }
change_edit (edit_documentation value) form = record form { documentation = value }
change_edit (edit_tables value) form = record form { tables = value }

-- the buttons of the edit modal
pub record EditView : Type 0 where
  pub delete_enabled : Bool
  pub delete_label : String
  pub save_enabled : Bool
  pub save_label : String

unfoldable pub edit_view : (String → String) → Bool → Bool → EditForm → EditView
unfolding can_save
edit_view trim is_saving is_removing form = record {
  delete_enabled = not (is_saving || is_removing);
  delete_label =
      if is_removing
      then "Deleting..."
      else if form.confirm_delete
      then "Click to confirm delete"
      else "Delete";
  save_enabled = can_save trim (is_saving || is_removing) form;
  save_label = if is_saving then "Saving..." else "Save";
}

abbrev is_sent : Option CreateRequest → Bool
is_sent none = false
is_sent (some request) = true

abbrev enables_create : Option CreateView → Bool
enables_create none = false
enables_create (some view) = view.create_enabled

-- In the open form the button "Create" can be pressed exactly when pressing it sends a request.
create_view-sends :
    (trim : String → String) (user_teams : List String) (form : CreateForm)
    → enables_create (create_view trim user_teams true form)
      ≡ is_sent (click_create trim user_teams form).0
unfolding create_view click_create
create_view-sends trim user_teams form = ground arith
