-- ===== src/Bootstrap/Entry.antt =====
-- Who gets in.
use etl_nexus.Common.{
  ℕ, ◌<◌, true, false, String, Option, none, some, ◌≡◌, ◌⊎◌, refl, arith, non_empty,
}
use etl_nexus.Stores.AuthStore.{UserInfo, can_manage_access}
use etl_nexus.Stores.AppConfigStore.{AppConfig, set_branding, set_ai_request_timeout_ms}
use etl_nexus.Client.{Config, attach_token}
use etl_nexus.Bootstrap.{
  AuthConfig, App, initial_app, default_user, load_config, set_timeout, Oidc, Query,
  use_current_user, store_user, sync_oidc, children, render,
}

-- SSO is off: the configuration says so, or there is none.
abbrev pub IsOpen : Option AuthConfig → Type 0
IsOpen none = Unit
IsOpen (some config) = config.sso_enabled ≡ false

-- What a user gets without SSO.
pub record IsLocal (oidc : Oidc) (fetch_me : String → Query) (app : App) : Type 0 where
  pub shown : render oidc fetch_me app ≡ children
  pub user : app.auth.user ≡ some default_user
  pub manages : can_manage_access app.auth.user ≡ true
  pub unsigned : (config : Config) → attach_token app.auth config ≡ config

-- Without SSO, or if the configuration cannot be fetched, the application is shown to the default
-- administrator, who may manage access, and its calls carry no header of authorization.
pub load_config-IsLocal :
    (result : Option AuthConfig) (oidc : Oidc) (fetch_me : String → Query)
    → IsOpen result
    → IsLocal oidc fetch_me (load_config result initial_app)
unfolding load_config render attach_token can_manage_access
load_config-IsLocal none oidc fetch_me open_door = record {
  shown = refl;
  user = refl;
  manages = refl;
  unsigned = λ config. refl;
}
load_config-IsLocal (some config) oidc fetch_me open_door = record {
  shown = ground arith;
  user = ground arith;
  manages = ground arith;
  unsigned = λ c. ground arith;
}

named_setting :
    (name owner : Option String) (settings : AppConfig)
    → non_empty settings.app_name ≡ true
    → non_empty (set_branding name owner settings).app_name ≡ true
unfolding set_branding
named_setting none owner settings h = h
named_setting (some name) owner settings h = ground arith

timeout_name :
    (seconds : Option ℕ) (settings : AppConfig)
    → (set_timeout seconds settings).app_name ≡ settings.app_name
unfolding set_ai_request_timeout_ms
timeout_name none settings = refl
timeout_name (some seconds) settings = ground arith

timeout_positive :
    (seconds : Option ℕ) (settings : AppConfig)
    → 0 < settings.ai_request_timeout_ms
    → 0 < (set_timeout seconds settings).ai_request_timeout_ms
unfolding set_ai_request_timeout_ms
timeout_positive none settings h = h
timeout_positive (some seconds) settings h = ground arith

-- The settings that the rest of the application reads are usable whatever the configuration says:
-- the name of the application is not empty, and the timeout of the assistant is positive.
pub load_config_usable :
    (result : Option AuthConfig)
    → (non_empty (load_config result initial_app).settings.app_name ≡ true)
      × (0 < (load_config result initial_app).settings.ai_request_timeout_ms)
unfolding load_config set_branding
load_config_usable none = (refl, omega arith)
load_config_usable (some config) =
    let named = set_branding config.app_name config.app_owner initial_app.settings in
    (
      rw (timeout_name config.ai_request_timeout_seconds named)
          (named_setting config.app_name config.app_owner initial_app.settings refl),
      timeout_positive config.ai_request_timeout_seconds named (omega arith),
    )

-- With SSO the application is shown only to someone who is signed in at the OIDC provider, and then
-- only with a user in the store or without a query for the user that is loading or has failed.
pub render_children :
    (oidc : Oidc) (fetch_me : String → Query) (app : App)
    → app.auth.sso_enabled ≡ true
    → render oidc fetch_me app ≡ children
    → (oidc.is_authenticated ≡ true)
      × ((app.auth.is_authenticated ≡ true)
          ⊎ (((use_current_user fetch_me app.auth.token).is_loading ≡ false)
              × ((use_current_user fetch_me app.auth.token).is_error ≡ false)))
unfolding render
render_children oidc fetch_me app sso shown = ground arith

-- With SSO, someone who comes back from the provider is shown the application before the token is
-- in the store, and so before a user is.
pub render_unsynced :
    (config : AuthConfig) (oidc : Oidc) (fetch_me : String → Query)
    → config.sso_enabled ≡ true
    → oidc.is_loading ≡ false
    → oidc.is_authenticated ≡ true
    → (render oidc fetch_me (load_config (some config) initial_app) ≡ children)
      × ((load_config (some config) initial_app).auth.user ≡ none)
unfolding render load_config
render_unsynced config oidc fetch_me sso ready signed_in = ground arith

-- the provider with someone who is signed in
abbrev pub signed_in_with : String → Oidc
signed_in_with token = record {
  is_loading = false;
  is_authenticated = true;
  access_token = some token;
}

-- the application after the effects of the guard, and then that of the query
abbrev pub entered : AuthConfig → String → (String → Query) → App
entered config token fetch_me =
    let app = load_config (some config) initial_app in
    let synced = sync_oidc (signed_in_with token) app.auth in
    record app { auth = store_user (use_current_user fetch_me synced.token) synced }

-- With SSO, someone who is signed in at the provider with a token whose user the server knows is
-- shown the application, with the user and the token in the store.
pub entered_known :
    (config : AuthConfig) (token : String) (user : UserInfo) (fetch_me : String → Query)
    → config.sso_enabled ≡ true
    → non_empty token ≡ true
    → fetch_me token ≡ record { is_loading = false; is_error = false; user = some user }
    → (render (signed_in_with token) fetch_me (entered config token fetch_me) ≡ children)
      × (((entered config token fetch_me).auth.user ≡ some user)
          × ((entered config token fetch_me).auth.token ≡ some token))
unfolding render load_config sync_oidc store_user use_current_user
entered_known config token user fetch_me sso present known = ground arith
