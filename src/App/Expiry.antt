-- ===== src/App/Expiry.antt =====
-- What the application shows after a session has expired at the client: frontend/src/api/client.ts
-- and frontend/src/components/auth/AuthGuard.tsx together.
use etl_nexus.Common.{
  Bool, true, false, sym, String, Option, some, if◌then◌else◌, ◌≡◌, subst, arith,
}
use etl_nexus.Stores.AuthStore.{AuthState}
use etl_nexus.Client.{Env, rejected, Settled, request, attach_token, fresh_config}
use etl_nexus.Client.Budget.{Settles}
use etl_nexus.Client.Session.{BringsNoToken, IsSignedOut, awaited_signout, request_expired}
use etl_nexus.Bootstrap.{
  App, Oidc, Query, Screen, loading_screen, login_page, children, use_current_user, sso_guard,
  render,
}

-- without a token and a user the guard looks at the provider only
abbrev pub unsigned_screen : Oidc → Screen
unsigned_screen oidc =
    if oidc.is_loading
    then loading_screen
    else if oidc.is_authenticated
    then children
    else login_page

render-signed_out :
    (oidc : Oidc) (fetch_me : String → Query) (app : App)
    → app.loading ≡ false
    → app.auth.sso_enabled ≡ true
    → IsSignedOut app.auth
    → render oidc fetch_me app ≡ unsigned_screen oidc
unfolding render sso_guard use_current_user
render-signed_out oidc fetch_me app loaded sso out = rw (loaded, sso, out.token) (ground arith)

awaited_signout-IsSignedOut :
    (env : Env) (registered : Bool) (s : AuthState)
    → ((left : AuthState) → IsSignedOut left → IsSignedOut (env.during_signout 0 left))
    → IsSignedOut s
    → IsSignedOut (awaited_signout env registered s)
awaited_signout-IsSignedOut env true s stays out = stays s out
awaited_signout-IsSignedOut env false s stays out = out

-- A settled call is the one that is given.
settled_as :
    (P : Settled → Type 0) (o : Option Settled) (r : Settled) → Settles P o → o ≡ some r → P r
settled_as P o r (other, e, p) h = let same : other ≡ r = cc in subst P same p

module _ (lower : String → String) (env : Env) where
  -- A call is answered with a 401 under SSO, and the silent sign-in brings no token. If
  -- nobody signs in while the sign-out is awaited, SSO is still on and the settings are loaded, the login page is shown as soon as the provider has no user, and the loading screen while the
  -- provider is loading. As long as the provider still has one, the application itself is shown, without user and token.
  pub request_expired-render :
      (method : Option String) (s : AuthState) (r : Settled) (oidc : Oidc)
      (fetch_me : String → Query) (app : App)
      → env.respond 0 (attach_token s (fresh_config method)) ≡ rejected true (some 401)
      → (env.meanwhile 0 s).sso_enabled ≡ true
      → (env.meanwhile 0 s).oidc_signin_silent ≡ true
      → BringsNoToken (env.signin 0)
      → request lower env method s ≡ some r
      → ((left : AuthState) → IsSignedOut left → IsSignedOut (env.during_signout 0 left))
      → r.store.sso_enabled ≡ true
      → app.loading ≡ false
      → (r.response ≡ rejected true (some 401))
        × (render oidc fetch_me (record app { auth = r.store }) ≡ unsigned_screen oidc)
  request_expired-render method s r oidc fetch_me app failed sso silent no_token settled stays on
        loaded =
      let expired =
        settled_as _ (request lower env method s) r
          (request_expired lower env method s failed sso silent no_token) settled in
      let out = subst IsSignedOut (sym expired.store) (
        awaited_signout-IsSignedOut env (env.meanwhile 0 s).oidc_signout expired.left stays
          expired.signed_out) in
      (
        expired.response,
        render-signed_out oidc fetch_me (record app { auth = r.store }) loaded on out,
      )
