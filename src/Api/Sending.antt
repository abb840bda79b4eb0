-- ===== src/Api/Sending.antt =====
-- Which requests the client sends again.
use etl_nexus.Common.{Bool, true, false, String, Option, some, ◌≡◌, refl, ◌∙◌}
use etl_nexus.Client.{Env, Settled, request, is_idempotent, method_of, fresh_config}
use etl_nexus.Client.Attempts.{IsCheap, request-IsCheap, IsSentOnce, request-IsSentOnce}
use etl_nexus.Client.Budget.{Settles}
use etl_nexus.Stores.AuthStore.{AuthState}
use etl_nexus.Api.{
  Method, get, post, put, patch, delete_method, Call, fetch_pipelines, fetch_pipeline_detail,
  update_pipeline, fetch_revisions, restore_revision, fetch_tables, fetch_table_schema,
  fetch_namespaces, fetch_auth_config, fetch_me, send_ai_message, create_product, save_tables,
  delete_product, save_fields, request_of,
}

abbrev pub method_text : Method → String
method_text get = "get"
method_text post = "post"
method_text put = "put"
method_text patch = "patch"
method_text delete_method = "delete"

-- the calls that add, change or remove something at the server, or ask the assistant
abbrev pub is_change : Call → Bool
is_change (update_pipeline id) = true
is_change (restore_revision id revision_id) = true
is_change send_ai_message = true
is_change create_product = true
is_change (delete_product id) = true
is_change (save_tables id) = true
is_change (save_fields id) = true
is_change _ = false

-- the changes that replace a whole list
abbrev pub replaces_list : Call → Bool
replaces_list (save_tables id) = true
replaces_list (save_fields id) = true
replaces_list _ = false

-- a method that is written in small letters already
abbrev pub Fixes : (String → String) → Type 0
Fixes lower = (method : Method) → lower (method_text method) ≡ method_text method

abbrev is_repeatable : Method → Bool
is_repeatable get = true
is_repeatable put = true
is_repeatable post = false
is_repeatable patch = false
is_repeatable delete_method = false

change-method :
    (call : Call)
    → is_change call ≡ true
    → is_repeatable (request_of call).method ≡ replaces_list call
unfolding request_of
change-method (update_pipeline id) h = refl
change-method (restore_revision id revision_id) h = refl
change-method send_ai_message h = refl
change-method create_product h = refl
change-method (delete_product id) h = refl
change-method (fetch_pipelines query skip limit date_params filters) h = cc
change-method (fetch_pipeline_detail id) h = cc
change-method (fetch_revisions id f skip limit) h = cc
change-method (fetch_tables teams q) h = cc
change-method (fetch_table_schema namespace table) h = cc
change-method fetch_namespaces h = cc
change-method fetch_auth_config h = cc
change-method (fetch_me token) h = cc
change-method (save_tables id) h = refl
change-method (save_fields id) h = refl

-- What the transmissions of a change may be, by whether it replaces a list.
abbrev pub IsSentAs : Bool → Settled → Type 0
IsSentAs true r = IsCheap r
IsSentAs false r = IsSentOnce r

sent_as :
    (lower : String → String) (env : Env) (method : Option String) (s : AuthState) (replaces : Bool)
    → is_idempotent (method_of lower (fresh_config method)) ≡ replaces
    → Settles (IsSentAs replaces) (request lower env method s)
sent_as lower env method s true e = request-IsCheap lower env method s
sent_as lower env method s false e = request-IsSentOnce lower env method s e

module _ (lower : String → String) (small : Fixes lower) where
  idempotent-method :
      (method : Method) → is_idempotent (lower (method_text method)) ≡ is_repeatable method
  unfolding is_idempotent
  idempotent-method get = rw (small get) refl
  idempotent-method post = rw (small post) refl
  idempotent-method put = rw (small put) refl
  idempotent-method patch = rw (small patch) refl
  idempotent-method delete_method = rw (small delete_method) refl

  -- If the names of the methods in small letters are left as they are: however the network and the
  -- server fail, a call that changes something at the server or asks the assistant settles. If it
  -- replaces the tables of a product or the fields of a schema, which PUT does, it is transmitted at
  -- most four times, with at most two waits. Every other change settles without a wait and is
  -- transmitted at most twice, the second time only after a silent sign-in.
  pub change-IsSentAs :
      (env : Env) (call : Call) (s : AuthState)
      → is_change call ≡ true
      → Settles
          (IsSentAs (replaces_list call))
          (request lower env (some (method_text (request_of call).method)) s)
  change-IsSentAs env call s h =
      sent_as lower env (some (method_text (request_of call).method)) s (replaces_list call)
        (idempotent-method (request_of call).method ∙ change-method call h)
