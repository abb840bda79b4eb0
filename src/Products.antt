-- ===== src/Products.antt =====
-- frontend/src/components/data-products/CreateDataProductModal.tsx and the EditProductModal of
-- frontend/src/components/data-products/DataProductWorkspace.tsx. `trim` stands for the trimming of
-- a text. A call of the server gives a new server, or the detail of an error and the server as it
-- is then; the messages and the queries that are fetched again are recorded.
mod Creating
mod Fields
mod Editing
mod Tests
use etl_nexus.Common.{
  ℕ, Bool, true, false, not, ◌&&◌, ◌||◌, String, List, [], ◌∷◌, ◌++◌, Option, none, some,
  if◌then◌else◌, ltb, non_empty, length,
}

-- `text || null`
abbrev pub or_null : String → Option String
or_null text = if non_empty text then some text else none

-- the body of the POST
pub record CreateRequest : Type 0 where
  pub name : String
  pub description : Option String
  pub documentation : Option String
  pub schedule_type : Option String
  pub team : Option String
  pub tables : List String

-- the fields of the form, and whether the call is pending
pub record CreateForm : Type 0 where
  pub name : String
  pub description : String
  pub documentation : String
  pub schedule_type : String
  pub tables : List String
  pub team : String
  pub is_pending : Bool

unfoldable pub reset_form : CreateForm → CreateForm
reset_form form = record {
  name = "";
  description = "";
  documentation = "";
  schedule_type = "";
  tables = [];
  team = "";
  is_pending = form.is_pending;
}

unfoldable pub create_request : CreateForm → CreateRequest
create_request form = record {
  name = form.name;
  description = or_null form.description;
  documentation = or_null form.documentation;
  schedule_type = or_null form.schedule_type;
  team = or_null form.team;
  tables = form.tables;
}

abbrev pub must_choose_team : List String → Bool
must_choose_team user_teams = ltb 1 (length user_teams)

unfoldable pub can_create : (String → String) → List String → CreateForm → Bool
can_create trim user_teams form = not (
    not (non_empty (trim form.name))
    || (must_choose_team user_teams && not (non_empty form.team))
    || form.is_pending)

-- a click on "Create": the request that is sent, if the button is enabled
unfoldable pub click_create :
    (String → String) → List String → CreateForm → Option CreateRequest × CreateForm
unfolding can_create create_request
click_create trim user_teams form =
    if can_create trim user_teams form
    then (some (create_request form), record form { is_pending = true })
    else (none, form)

-- the end of the call; an error leaves the fields
unfoldable pub create_settled : Bool → CreateForm → CreateForm
unfolding reset_form
create_settled succeeded form =
    if succeeded
    then record (reset_form form) { is_pending = false }
    else record form { is_pending = false }

-- a click on "Cancel", which closes the modal
unfoldable pub click_cancel : CreateForm → CreateForm
unfolding reset_form
click_cancel form = reset_form form

-- The edit modal.
pub record EditForm : Type 0 where
  pub name : String
  pub schedule_type : String
  pub documentation : String
  pub tables : List String
  pub confirm_delete : Bool

pub record PatchBody : Type 0 where
  pub name : String
  pub schedule_type : Option String
  pub documentation : Option String

-- What a call does to the server `S`; an exception carries the detail of its response if it has one.
pub data Answer {ℓ} (S : Type ℓ) : Type ℓ where
  done : S → Answer S
  refused : Option String → S → Answer S

pub data Query : Type 0 where
  pipeline data_products : Query

-- what the user sees of a call, and the queries that are fetched again
pub record Effects : Type 0 where
  pub message : String
  pub invalidated : List Query
  pub closed : Bool
  pub deselected : Bool

-- `detail || fallback`
abbrev detail_or : Option String → String → String
detail_or none fallback = fallback
detail_or (some detail) fallback = if non_empty detail then detail else fallback

unfoldable pub err_toast : Option String → String → Effects
err_toast detail fallback = record {
  message = detail_or detail fallback;
  invalidated = [];
  closed = false;
  deselected = false;
}

unfoldable pub patch_body : (String → String) → EditForm → PatchBody
patch_body trim form = record {
  name = trim form.name;
  schedule_type = or_null form.schedule_type;
  documentation = or_null form.documentation;
}

-- the button "Save" is enabled, and no call is pending
unfoldable pub can_save : (String → String) → Bool → EditForm → Bool
can_save trim busy form = not (busy || not (non_empty (trim form.name)))

module _ {ℓ} {S : Type ℓ} where
  unfoldable pub saved : Answer S → S × Effects
  unfolding err_toast
  saved (done s) = (
    s,
    record {
      message = "Data product updated";
      invalidated = pipeline ∷ data_products ∷ [];
      closed = true;
      deselected = false;
    },
  )
  saved (refused detail s) = (s, err_toast detail "Failed to update data product")

  unfoldable pub removed : Answer S → S × Effects
  unfolding err_toast
  removed (done s) = (
    s,
    record {
      message = "Data product deleted";
      invalidated = data_products ∷ [];
      closed = true;
      deselected = true;
    },
  )
  removed (refused detail s) = (s, err_toast detail "Failed to delete data product")

  -- the second call is made if the first one did not throw
  unfoldable pub and_then : Answer S → (S → Answer S) → Answer S
  and_then (done s) next = next s
  and_then (refused detail s) next = refused detail s

  -- `save`: first the PATCH of the fields, then the PUT of the tables
  unfoldable pub save :
      (PatchBody → S → Answer S)
      → (List String → S → Answer S)
      → (String → String)
      → EditForm
      → S
      → S × Effects
  unfolding patch_body saved and_then
  save patch put_tables trim form s =
      saved (and_then (patch (patch_body trim form) s) (put_tables form.tables))

  -- a click on the delete button while no call is pending
  unfoldable pub click_delete : (S → Answer S) → EditForm → S → EditForm × (S × Option Effects)
  unfolding removed
  click_delete delete_product form s =
      let (after, effects) = removed (delete_product s) in
      if form.confirm_delete
      then (form, (after, some effects))
      else (record form { confirm_delete = true }, (s, none))
