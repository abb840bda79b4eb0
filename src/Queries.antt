-- ===== src/Queries.antt =====
-- frontend/src/hooks: the keys of the cached queries (use-data-products.ts, use-pipeline-detail.ts,
-- use-revisions.ts, use-tables.ts, use-table-schema.ts), and the queries that are fetched again
-- after a change (use-update-pipeline.ts, use-revisions.ts, and the mutations of
-- frontend/src/components/data-products/DataProductWorkspace.tsx, CreateDataProductModal.tsx and
-- frontend/src/components/bento-workspace/SchemaViewer.tsx).
pub mod Coverage
pub mod Prefixes
mod Tests
use etl_nexus.Common.{
  Bool, true, false, ◌||◌, String, List, [], ◌∷◌, Option, none, some, if◌then◌else◌,
}
use etl_nexus.Registry.{FilterParams}

pub data RevisionField : Type 0 where
  description documentation : RevisionField

-- an element of a key; `absent` stands for null and undefined
pub data Part : Type 0 where
  absent : Part
  text : String → Part
  texts : List String → Part
  filters : FilterParams → Part
  field : RevisionField → Part

abbrev pub QueryKey : Type 0
QueryKey = List Part

abbrev text_or_absent : Option String → Part
text_or_absent none = absent
text_or_absent (some t) = text t

abbrev texts_or_absent : Option (List String) → Part
texts_or_absent none = absent
texts_or_absent (some ts) = texts ts

abbrev pub field_or_absent : Option RevisionField → Part
field_or_absent none = absent
field_or_absent (some f) = field f

abbrev filters_or_absent : Option FilterParams → Part
filters_or_absent none = absent
filters_or_absent (some params) = filters params

-- A query that a component shows: each constructor is a hook with its arguments.
pub data View : Type 0 where
  data_products : String → Option FilterParams → View
  pipeline_detail : Option String → View
  revisions : String → Option RevisionField → View
  tables : Option (List String) → Option String → View
  table_schema : Option String → Option String → View

-- `queryKey`
unfoldable pub key_of : View → QueryKey
key_of (data_products query params) =
    text "data-products" ∷ text query ∷ filters_or_absent params ∷ []
key_of (pipeline_detail id) = text "pipeline" ∷ text_or_absent id ∷ []
key_of (revisions id f) = text "revisions" ∷ text id ∷ field_or_absent f ∷ []
key_of (tables teams query) = text "tables" ∷ texts_or_absent teams ∷ text_or_absent query ∷ []
key_of (table_schema namespace table) =
    text "table-schema" ∷ text_or_absent namespace ∷ text_or_absent table ∷ []

-- what a settled mutation tells the user, and the keys it hands to `invalidateQueries`
pub record MutationResult : Type 0 where
  pub succeeded : Bool
  pub message : String
  pub invalidated : List QueryKey

-- `useUpdatePipeline`
unfoldable pub update_settled : String → Bool → MutationResult
update_settled id true = record {
  succeeded = true;
  message = "Data product updated";
  invalidated =
      (text "pipeline" ∷ text id ∷ [])
      ∷ (text "data-products" ∷ [])
      ∷ (text "revisions" ∷ text id ∷ [])
      ∷ [];
}
update_settled id false = record {
  succeeded = false;
  message = "Failed to update data product";
  invalidated = [];
}

-- `useRestoreRevision`
unfoldable pub restore_settled : String → Bool → MutationResult
restore_settled id true = record {
  succeeded = true;
  message = "Revision restored";
  invalidated =
      (text "pipeline" ∷ text id ∷ [])
      ∷ (text "revisions" ∷ text id ∷ [])
      ∷ (text "data-products" ∷ [])
      ∷ [];
}
restore_settled id false = record {
  succeeded = false;
  message = "Failed to restore revision";
  invalidated = [];
}

-- `save` of EditProductModal when both calls succeed
unfoldable pub edit_saved : String → List QueryKey
edit_saved id = (text "pipeline" ∷ text id ∷ []) ∷ (text "data-products" ∷ []) ∷ []

-- `handleSave` of SchemaEditorModal
unfoldable pub schema_settled : String → Bool → MutationResult
schema_settled id true = record {
  succeeded = true;
  message = "Schema updated";
  invalidated = (text "pipeline" ∷ text id ∷ []) ∷ [];
}
schema_settled id false = record {
  succeeded = false;
  message = "Failed to update schema";
  invalidated = [];
}

-- `remove` of EditProductModal and `createMutation` of CreateDataProductModal
unfoldable pub list_changed : List QueryKey
list_changed = (text "data-products" ∷ []) ∷ []

-- Whether a view is fetched again: `matches` is the query library's, from an invalidated key and
-- the key of a query.
unfoldable pub is_invalidated : (QueryKey → QueryKey → Bool) → List QueryKey → View → Bool
is_invalidated matches [] view = false
is_invalidated matches (key ∷ keys) view =
    matches key (key_of view) || is_invalidated matches keys view
