-- ===== src/Api.antt =====
-- frontend/src/api/pipelines.ts, tables.ts, auth.ts and ai.ts, and the calls of the client in
-- frontend/src/components/data-products/DataProductWorkspace.tsx, CreateDataProductModal.tsx and
-- frontend/src/components/bento-workspace/SchemaViewer.tsx: the requests that are made, and the routes
-- of backend/app/routers. A path is the list of its segments; an id has no slash. Bodies are those
-- of the components, and how axios writes the parameters is left out.
mod Routing
mod Sending
mod Tests
use etl_nexus.Common.{
  ℕ, Bool, true, false, ◌&&◌, String, List, [], ◌∷◌, ◌++◌, map, any, Option, none, some,
  if◌then◌else◌, ◌===◌, non_empty, non_empty_list,
}
use etl_nexus.Client.{bearer}
use etl_nexus.Queries.{RevisionField}
use etl_nexus.Registry.{FilterParams}

pub data Method : Type 0 where
  get post put patch delete_method : Method

-- a value of `params`; `absent` is undefined
pub data Param : Type 0 where
  absent : Param
  text : String → Param
  number : ℕ → Param
  texts : List String → Param
  field : RevisionField → Param

pub record ApiRequest : Type 0 where
  pub method : Method
  pub path : List String
  pub params : List (String × Param)
  pub authorization : Option String

-- each function of the four files with its arguments, and the calls of the components
pub data Call : Type 0 where
  fetch_pipelines :
      (query : Option String)
      → (skip limit : ℕ) → (date_params : List (String × String)) → (filters : Option FilterParams)
      → Call
  fetch_pipeline_detail update_pipeline : (product_id : String) → Call
  fetch_revisions : (product_id : String) → Option RevisionField → (skip limit : ℕ) → Call
  restore_revision : (product_id revision_id : String) → Call
  fetch_tables : (teams : Option (List String)) → (q : Option String) → Call
  fetch_table_schema : (namespace table : String) → Call
  fetch_namespaces fetch_auth_config : Call
  fetch_me : (token : String) → Call
  send_ai_message : Call
  create_product : Call
  save_tables delete_product : (product_id : String) → Call
  save_fields : (pipeline_id : String) → Call

abbrev plain : Method → List String → ApiRequest
plain method path = record { method = method; path = path; params = []; authorization = none }

abbrev text_or_absent : Option String → Param
text_or_absent none = absent
text_or_absent (some t) = text t

abbrev texts_or_absent : Option (List String) → Param
texts_or_absent none = absent
texts_or_absent (some ts) = texts ts

abbrev field_or_absent : Option RevisionField → Param
field_or_absent none = absent
field_or_absent (some f) = field f

-- `...filters`
abbrev filter_params : Option FilterParams → List (String × Param)
filter_params none = []
filter_params (some filters) =
    ("team", texts_or_absent filters.team) ∷ ("schedule", texts_or_absent filters.schedule) ∷ []

-- `teams && teams.length ? teams : undefined`
abbrev some_teams : Option (List String) → Param
some_teams none = absent
some_teams (some teams) = if non_empty_list teams then texts teams else absent

-- `q || undefined`
abbrev some_query : Option String → Param
some_query none = absent
some_query (some q) = if non_empty q then text q else absent

abbrev products_path : List String → List String
products_path rest = "data-products" ∷ rest

unfoldable pub request_of : Call → ApiRequest
request_of (fetch_pipelines query skip limit date_params filters) =
    record (plain get (products_path [])) {
      params =
          ("q", text_or_absent query) ∷ ("skip", number skip) ∷ ("limit", number limit) ∷ []
          ++ (map (λ p. (p.0, text p.1)) date_params ++ filter_params filters);
    }
request_of (fetch_pipeline_detail id) = plain get (products_path (id ∷ []))
request_of (update_pipeline id) = plain patch (products_path (id ∷ []))
request_of (fetch_revisions id f skip limit) =
    record (plain get (products_path (id ∷ "revisions" ∷ []))) {
      params = ("field", field_or_absent f) ∷ ("skip", number skip) ∷ ("limit", number limit) ∷ [];
    }
request_of (restore_revision id revision_id) =
    plain post (products_path (id ∷ "revisions" ∷ revision_id ∷ "restore" ∷ []))
request_of (fetch_tables teams q) = record (plain get ("tables" ∷ [])) {
  params = ("team", some_teams teams) ∷ ("q", some_query q) ∷ [];
}
request_of (fetch_table_schema namespace table) = record (plain get ("tables" ∷ "schema" ∷ [])) {
  params = ("namespace", text namespace) ∷ ("table", text table) ∷ [];
}
request_of fetch_namespaces = plain get ("tables" ∷ "namespaces" ∷ [])
request_of fetch_auth_config = plain get ("auth" ∷ "config" ∷ [])
request_of (fetch_me token) = record (plain get ("auth" ∷ "me" ∷ [])) {
  authorization = some (bearer token);
}
request_of send_ai_message = plain post ("ai" ∷ "chat" ∷ [])
request_of create_product = plain post (products_path [])
request_of (save_tables id) = plain put (products_path (id ∷ "tables" ∷ []))
request_of (delete_product id) = plain delete_method (products_path (id ∷ []))
request_of (save_fields id) = plain put ("pipelines" ∷ id ∷ "fields" ∷ [])

-- A segment of a route of the backend: a literal, or a parameter.
pub data Segment : Type 0 where
  literal : String → Segment
  parameter : Segment

abbrev pub Route : Type 0
Route = Method × List Segment

-- the routers of the backend under "/api", in the order in which main.py includes them
unfoldable pub routes : List Route
routes =
    (get, literal "health" ∷ [])
    ∷ (get, literal "health" ∷ literal "detail" ∷ [])
    ∷ (get, literal "data-products" ∷ [])
    ∷ (get, literal "data-products" ∷ parameter ∷ [])
    ∷ (post, literal "data-products" ∷ [])
    ∷ (patch, literal "data-products" ∷ parameter ∷ [])
    ∷ (put, literal "data-products" ∷ parameter ∷ literal "tables" ∷ [])
    ∷ (delete_method, literal "data-products" ∷ parameter ∷ [])
    ∷ (get, literal "data-products" ∷ parameter ∷ literal "revisions" ∷ [])
    ∷ (
      post,
      literal "data-products"
          ∷ parameter
          ∷ literal "revisions"
          ∷ parameter
          ∷ literal "restore"
          ∷ [],
    )
    ∷ (get, literal "tables" ∷ [])
    ∷ (get, literal "tables" ∷ literal "namespaces" ∷ [])
    ∷ (get, literal "tables" ∷ literal "schema" ∷ [])
    ∷ (post, literal "ai" ∷ literal "chat" ∷ [])
    ∷ (get, literal "auth" ∷ literal "config" ∷ [])
    ∷ (get, literal "auth" ∷ literal "me" ∷ [])
    ∷ (get, literal "metrics" ∷ [])
    ∷ []
