-- ===== src/Stores/AuthStore.antt =====
-- frontend/src/stores/auth-store.ts, frontend/src/types/auth.ts and frontend/src/lib/permissions.ts.
-- The two OIDC callbacks are functions of react-oidc-context: the store records whether one is
-- registered, and what a call of it gives comes from the environment of the caller.
use etl_nexus.Common.{Bool, false, String, List, Option, none, some, is_some, ◌||◌, ◌===◌}

pub record UserInfo : Type 0 where
  pub username : String
  pub full_name : Option String
  pub email : String
  pub role : String
  pub is_master : Bool
  pub teams : List String

pub record AuthState : Type 0 where
  pub user : Option UserInfo
  pub token : Option String
  pub is_authenticated : Bool
  pub sso_enabled : Bool
  pub oidc_signout : Bool
  pub oidc_signin_silent : Bool

abbrev pub initial_auth : AuthState
initial_auth = record {
  user = none;
  token = none;
  is_authenticated = false;
  sso_enabled = false;
  oidc_signout = false;
  oidc_signin_silent = false;
}

unfoldable pub set_user : Option UserInfo → AuthState → AuthState
set_user user s = record s { user = user; is_authenticated = is_some user }

unfoldable pub set_token : Option String → AuthState → AuthState
set_token token s = record s { token = token }

unfoldable pub logout : AuthState → AuthState
logout s = record s { user = none; token = none; is_authenticated = false }

unfoldable pub set_sso_enabled : Bool → AuthState → AuthState
set_sso_enabled enabled s = record s { sso_enabled = enabled }

unfoldable pub set_oidc_signout : Bool → AuthState → AuthState
set_oidc_signout registered s = record s { oidc_signout = registered }

unfoldable pub set_oidc_signin_silent : Bool → AuthState → AuthState
set_oidc_signin_silent registered s = record s { oidc_signin_silent = registered }

-- permissions.ts
unfoldable pub is_admin : Option UserInfo → Bool
is_admin none = false
is_admin (some user) = user.role === "admin"

unfoldable pub can_manage_access : Option UserInfo → Bool
unfolding is_admin
can_manage_access none = is_admin none
can_manage_access (some user) = is_admin (some user) || user.is_master
