-- ===== src/Bootstrap/Provider.antt =====
-- frontend/src/components/auth/AuthProvider.tsx: what AuthBootstrap hands to the OIDC provider, and
-- the address after the redirect. `origin` and `pathname` are those of `window.location`.
use Prim.Native.String
use etl_nexus.Common.{Bool, true, String, Option, none, some, if◌then◌else◌, non_empty, ◌≡◌, refl}

-- the fields of `AuthConfig` that are only handed on
pub record ProviderConfig : Type 0 where
  pub issuer_url : String
  pub client_id : String
  pub client_secret : Option String

-- `oidcConfig`
pub record OidcConfig : Type 0 where
  pub authority : String
  pub client_id : String
  pub redirect_uri : String
  pub post_logout_redirect_uri : String
  pub scope : String
  pub automatic_silent_renew : Bool
  pub client_secret : Option String

-- the spread of the secret, which leaves out an empty one
abbrev given_secret : Option String → Option String
given_secret none = none
given_secret (some secret) = if non_empty secret then some secret else none

unfoldable pub oidc_config : String → ProviderConfig → OidcConfig
oidc_config origin config = record {
  authority = config.issuer_url;
  client_id = config.client_id;
  redirect_uri = String.◌++◌ origin "/";
  post_logout_redirect_uri = String.◌++◌ origin "/";
  scope = "openid profile email";
  automatic_silent_renew = true;
  client_secret = given_secret config.client_secret;
}

-- the address of the window: its path, and the query and the hash behind it
pub record Address : Type 0 where
  pub pathname : String
  pub behind : String

-- `onSigninCallback`
unfoldable pub on_signin_callback : Address → Address
on_signin_callback address = record address { behind = "" }

-- The hash is taken away with the code and the state: a link to a tab does not survive the sign-in.
code_taken_away :
    on_signin_callback (record { pathname = "/"; behind = "?code=1&state=2#tables" })
    ≡ record { pathname = "/"; behind = "" }
unfolding on_signin_callback
code_taken_away = refl
