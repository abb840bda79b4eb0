-- ===== src/Api/Routing.antt =====
-- Which requests reach a route of the backend.
use etl_nexus.Common.{
  Bool, true, false, not, ◌&&◌, String, List, [], ◌∷◌, any, non_empty, ◌===◌, ◌≡◌, ◌≢◌, refl, arith,
  eq_iff,
}
use etl_nexus.Api.{
  Method, get, post, put, patch, delete_method, ApiRequest, Segment, literal, parameter, routes,
  Call, fetch_pipelines, fetch_pipeline_detail, update_pipeline, fetch_revisions, restore_revision,
  fetch_tables, fetch_table_schema, fetch_namespaces, fetch_auth_config, fetch_me, send_ai_message,
  create_product, save_tables, delete_product, save_fields, request_of,
}

abbrev same_method : Method → Method → Bool
same_method get get = true
same_method post post = true
same_method put put = true
same_method patch patch = true
same_method delete_method delete_method = true
same_method _ _ = false

-- A parameter takes a segment that is not empty.
abbrev takes : Segment → String → Bool
takes (literal name) segment = name === segment
takes parameter segment = non_empty segment

abbrev fits : List Segment → List String → Bool
fits [] [] = true
fits [] (segment ∷ path) = false
fits (s ∷ route) [] = false
fits (s ∷ route) (segment ∷ path) = takes s segment && fits route path

abbrev pub has_route : ApiRequest → Bool
has_route request =
    any (λ route. same_method route.0 request.method && fits route.1 request.path) routes

abbrev pub is_save_fields : Call → Bool
is_save_fields (save_fields id) = true
is_save_fields _ = false

-- the ids in the path of a call are not empty
abbrev pub HasIds : Call → Type 0
HasIds (fetch_pipeline_detail id) = id ≢ ""
HasIds (update_pipeline id) = id ≢ ""
HasIds (fetch_revisions id f skip limit) = id ≢ ""
HasIds (restore_revision id revision_id) = (id ≢ "") × (revision_id ≢ "")
HasIds (save_tables id) = id ≢ ""
HasIds (delete_product id) = id ≢ ""
HasIds (save_fields id) = id ≢ ""
HasIds _ = Unit

-- Every request of the application whose ids are not empty has a route in the backend, but for the
-- one that saves the fields of the schema editor, which has none.
pub request_of-HasRoute :
    (call : Call) → HasIds call → has_route (request_of call) ≡ not (is_save_fields call)
unfolding request_of routes
request_of-HasRoute (fetch_pipelines query skip limit date_params filters) h = refl
request_of-HasRoute (fetch_pipeline_detail id) h = ground (arith, eq_iff id "")
request_of-HasRoute (update_pipeline id) h = ground (arith, eq_iff id "")
request_of-HasRoute (fetch_revisions id f skip limit) h = ground (arith, eq_iff id "")
request_of-HasRoute (restore_revision id revision_id) (h, k) =
    ground (arith, eq_iff id "", eq_iff revision_id "")
request_of-HasRoute (fetch_tables teams q) h = refl
request_of-HasRoute (fetch_table_schema namespace table) h = refl
request_of-HasRoute fetch_namespaces h = refl
request_of-HasRoute fetch_auth_config h = refl
request_of-HasRoute (fetch_me token) h = refl
request_of-HasRoute send_ai_message h = refl
request_of-HasRoute create_product h = refl
request_of-HasRoute (save_tables id) h = ground (arith, eq_iff id "")
request_of-HasRoute (delete_product id) h = ground (arith, eq_iff id "")
request_of-HasRoute (save_fields id) h = refl
