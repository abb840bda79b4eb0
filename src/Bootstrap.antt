-- ===== src/Bootstrap.antt =====
-- frontend/src/components/auth/AuthProvider.tsx, frontend/src/components/auth/AuthGuard.tsx and
-- frontend/src/hooks/use-auth.ts: the settings fetched at the start, and what is shown then.
-- react-oidc-context and the query for the user are parameters.
mod Entry
mod Provider
mod Tests
use etl_nexus.Common.{
  ℕ, ◌*◌, Bool, true, false, not, ◌&&◌, ◌||◌, String, List, [], ◌∷◌, Option, none, some,
  if◌then◌else◌, ltb, Text, is_some, truthy, non_empty,
}
use etl_nexus.Stores.AuthStore.{
  UserInfo, AuthState, initial_auth, set_user, set_token, set_sso_enabled, set_oidc_signout,
  set_oidc_signin_silent,
}
use etl_nexus.Stores.AppConfigStore.{
  AppConfig, initial_config, set_branding, set_ai_request_timeout_ms,
}
use etl_nexus.Stores.AiStore.{AiState, initial_ai, set_greeting}

-- `AuthConfig`, less what is only handed on to the OIDC provider
pub record AuthConfig : Type 0 where
  pub sso_enabled : Bool
  pub ai_greeting : Option Text
  pub app_name : Option String
  pub app_owner : Option String
  pub ai_request_timeout_seconds : Option ℕ

abbrev pub default_user : UserInfo
default_user = record {
  username = "admin";
  full_name = some "Admin";
  email = "admin@localhost";
  role = "admin";
  is_master = true;
  teams = [];
}

-- The three stores, and the state of the component.
pub record App : Type 0 where
  pub auth : AuthState
  pub settings : AppConfig
  pub ai : AiState
  pub oidc_provider : Bool
  pub loading : Bool

abbrev pub initial_app : App
initial_app = record {
  auth = initial_auth;
  settings = initial_config;
  ai = initial_ai;
  oidc_provider = false;
  loading = true;
}

-- the default user and the token that stands for none
unfoldable pub without_sso : AuthState → AuthState
unfolding set_user set_token
without_sso auth = set_token (some "no-sso") (set_user (some default_user) auth)

abbrev greet : Option Text → AiState → AiState
greet none ai = ai
greet (some text) ai = set_greeting text ai

abbrev pub set_timeout : Option ℕ → AppConfig → AppConfig
set_timeout none settings = settings
set_timeout (some seconds) settings =
    if ltb 0 seconds then set_ai_request_timeout_ms (seconds * 1000) settings else settings

-- `loadConfig`, which gets a configuration or an exception while it is not cancelled
unfoldable pub load_config : Option AuthConfig → App → App
unfolding set_sso_enabled without_sso set_branding set_ai_request_timeout_ms set_greeting
load_config none app = record app {
  auth = without_sso (set_sso_enabled false app.auth);
  loading = false;
}
load_config (some config) app = record app {
  auth =
      if config.sso_enabled
      then set_sso_enabled true app.auth
      else without_sso (set_sso_enabled false app.auth);
  settings =
      set_timeout config.ai_request_timeout_seconds
        (set_branding config.app_name config.app_owner app.settings);
  ai = greet config.ai_greeting app.ai;
  oidc_provider = config.sso_enabled;
  loading = false;
}

-- What `useAuth` gives.
pub record Oidc : Type 0 where
  pub is_loading : Bool
  pub is_authenticated : Bool
  pub access_token : Option String

-- What `useQuery` gives. A query that is not enabled is neither loading nor failed.
pub record Query : Type 0 where
  pub is_loading : Bool
  pub is_error : Bool
  pub user : Option UserInfo

-- `useCurrentUser`; `fetch_me` gives the state of the query for a token
unfoldable pub use_current_user : (String → Query) → Option String → Query
use_current_user fetch_me none = record { is_loading = false; is_error = false; user = none }
use_current_user fetch_me (some token) =
    if non_empty token
    then fetch_me token
    else record { is_loading = false; is_error = false; user = none }

-- the effect that stores the user
unfoldable pub store_user : Query → AuthState → AuthState
unfolding set_user
store_user query auth = elim query.user [ none ↦ auth | some user ↦ set_user (some user) auth ]

-- the effects of `SSOGuard` that write to the store, after the clean-up of those of the render
-- before, which takes both callbacks back
unfoldable pub sync_oidc : Oidc → AuthState → AuthState
unfolding set_token set_oidc_signout set_oidc_signin_silent
sync_oidc oidc auth =
    let with_token =
      if oidc.is_authenticated && truthy oidc.access_token
      then set_token oidc.access_token auth
      else auth in
    set_oidc_signin_silent oidc.is_authenticated (set_oidc_signout oidc.is_authenticated with_token)

pub data Screen : Type 0 where
  loading_screen login_page error_screen children : Screen

-- what `SSOGuard` renders
unfoldable pub sso_guard : Oidc → Query → AuthState → Screen
sso_guard oidc query auth =
    if oidc.is_loading
    then loading_screen
    else if not oidc.is_authenticated
    then login_page
    else if not auth.is_authenticated && query.is_error
    then error_screen
    else if not auth.is_authenticated && query.is_loading
    then loading_screen
    else children

-- what `AuthBootstrap` and `AuthGuard` render
unfoldable pub render : Oidc → (String → Query) → App → Screen
unfolding sso_guard use_current_user
render oidc fetch_me app =
    if app.loading
    then loading_screen
    else if not app.auth.sso_enabled
    then children
    else sso_guard oidc (use_current_user fetch_me app.auth.token) app.auth
