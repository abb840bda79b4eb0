-- ===== src/Client/Session.antt =====
-- What the 401 branch of the response interceptor does to the session.
use etl_nexus.Common.{
  ℕ, ◌+◌, ◌≡◌, ◌≢◌, inl, inr, Bool, true, false, String, List, [], ◌∷◌, ◌++◌, Option, none, some,
  ◌⊎◌, ap, arith, if◌then◌else◌, length, refl, eq_iff,
}
use etl_nexus.Stores.AuthStore.{AuthState, logout, set_token}
use etl_nexus.Client.{
  Config, Env, Response, resolved, rejected, Log, give_up, again, Settled, Verdict, attach_token,
  transmitted, Signin, signed_in, threw, on_error, on_response, transmit, request, empty_log,
  fresh_config, bearer, after_signin,
}
use etl_nexus.Client.Budget.{Decided, Settles, send_rule}

-- A silent sign-in that brings no access token.
abbrev pub BringsNoToken : Signin → Type 0
BringsNoToken threw = Unit
BringsNoToken (signed_in none) = Unit
BringsNoToken (signed_in (some token)) = token ≡ ""

-- The session is over: no user, no token.
pub record IsSignedOut (s : AuthState) : Type 0 where
  pub user : s.user ≡ none
  pub token : s.token ≡ none
  pub is_authenticated : s.is_authenticated ≡ false

-- The header of the second transmission.
abbrev pub second_header : List Config → Option (Option String)
second_header (first ∷ second ∷ rest) = some second.authorization
second_header _ = none

second_header-append :
    (sent : List Config) (config : Config) (header : Option String)
    → second_header sent ≡ some header
    → second_header (sent ++ config ∷ []) ≡ some header
second_header-append [] config header h = cc
second_header-append (first ∷ []) config header h = cc
second_header-append (first ∷ second ∷ rest) config header h = h

after_signin_expired :
    (outcome : Signin) (signing_out : AuthState → AuthState) (config : Config) (s now : AuthState)
    (log : Log)
    → BringsNoToken outcome
    → after_signin outcome signing_out config s now log
      ≡ give_up
          (if s.oidc_signout then signing_out (logout now) else logout now)
          (record log { signouts = if s.oidc_signout then log.signouts + 1 else log.signouts })
unfolding after_signin
after_signin_expired threw signing_out config s now log h = refl
after_signin_expired (signed_in none) signing_out config s now log h = refl
after_signin_expired (signed_in (some token)) signing_out config s now log h =
    ground (arith, eq_iff token "")

-- What an OIDC sign-out that is registered leaves of the store.
abbrev pub awaited_signout : Env → Bool → AuthState → AuthState
awaited_signout env registered s = if registered then env.during_signout 0 s else s

-- The call has failed with the 401 after one transmission. The client left the store signed out, and
-- while the OIDC sign-out was awaited, if it is registered, the store went on as it does then.
pub record HasExpired (env : Env) (registered : Bool) (r : Settled) : Type 0 where
  pub response : r.response ≡ rejected true (some 401)
  pub sent : length r.log.sent ≡ 1
  pub left : AuthState
  pub signed_out : IsSignedOut left
  pub store : r.store ≡ awaited_signout env registered left
  pub signouts : r.log.signouts ≡ (if registered then 1 else 0)

-- The next transmission is the second and will carry the token, or the second has carried it.
abbrev CarriesToken : String → Config → AuthState → Log → Type 0
CarriesToken token config s log =
    ((first : Config) × (log.sent ≡ first ∷ [])
      × (config.authorization ≡ some (bearer token))
      × (s.token ≡ some token))
    ⊎ (second_header log.sent ≡ some (some (bearer token)))

authorization-attach_token :
    (token : String) (s : AuthState) (config : Config)
    → config.authorization ≡ some (bearer token)
    → s.token ≡ some token
    → (attach_token s config).authorization ≡ some (bearer token)
unfolding attach_token
authorization-attach_token token s config h k = ground arith

second_header-attach_token :
    (token : String) (config : Config) (s : AuthState) (log : Log)
    → CarriesToken token config s log
    → second_header (log.sent ++ attach_token s config ∷ []) ≡ some (some (bearer token))
second_header-attach_token token config s log (inl (first, sent, header, held)) =
    rw sent (ap some (authorization-attach_token token s config header held))
second_header-attach_token token config s log (inr carried) =
    second_header-append log.sent (attach_token s config) (some (bearer token)) carried

after_signin_renewed :
    (token : String) (signing_out : AuthState → AuthState) (config : Config) (s now : AuthState)
    (log : Log)
    → token ≢ ""
    → after_signin (signed_in (some token)) signing_out config s now log
      ≡ again
          (record config { authorization = some (bearer token) })
          (set_token (some token) now)
          log
unfolding after_signin
after_signin_renewed token signing_out config s now log h = ground (arith, eq_iff token "")

retry-attach_token :
    (s : AuthState) (config : Config) → (attach_token s config).retry ≡ config.retry
unfolding attach_token
retry-attach_token s config = ground arith

module _ (lower : String → String) (env : Env) where
  transmit-unauthorized :
      (config : Config) (s : AuthState)
      → env.respond 0 (attach_token s config) ≡ rejected true (some 401)
      → (attach_token s config).retry ≡ false
      → (env.meanwhile 0 s).sso_enabled ≡ true
      → (env.meanwhile 0 s).oidc_signin_silent ≡ true
      → transmit lower env 0 config s empty_log
        ≡ inr (
            after_signin
              (env.signin 0)
              (env.during_signout 0)
              (record (attach_token s config) { retry = true })
              (env.meanwhile 0 s)
              (env.during_signin 0 (env.meanwhile 0 s))
              (record {
                sent = attach_token s config ∷ [];
                signins = 1;
                signouts = 0;
                delays = [];
              }))
  unfolding transmit on_error on_response
  transmit-unauthorized config s failed first sso silent = rw (failed, transmit) (ground arith)

  -- A first 401 under SSO whose silent sign-in brings no token: the call fails with the 401 after
  -- one transmission, the client signs the store out, and the OIDC sign-out runs if it is registered:
  -- the store is then what becomes of the signed-out one while that is awaited.
  pub request_expired :
      (method : Option String) (s : AuthState)
      → env.respond 0 (attach_token s (fresh_config method)) ≡ rejected true (some 401)
      → (env.meanwhile 0 s).sso_enabled ≡ true
      → (env.meanwhile 0 s).oidc_signin_silent ≡ true
      → BringsNoToken (env.signin 0)
      → Settles (HasExpired env (env.meanwhile 0 s).oidc_signout) (request lower env method s)
  unfolding request logout
  request_expired method s failed sso silent no_token =
      let first : (attach_token s (fresh_config method)).retry ≡ false = retry-attach_token s _ in
      rw
        (
          transmit-unauthorized (fresh_config method) s failed first sso silent,
          after_signin_expired (env.signin 0) (env.during_signout 0) _ (env.meanwhile 0 s) _ _
              no_token,
          failed,
        )
        (
          _,
          refl,
          record {
            response = refl;
            sent = refl;
            left = logout (env.during_signin 0 (env.meanwhile 0 s));
            signed_out = record { user = refl; token = refl; is_authenticated = refl };
            store = refl;
            signouts = refl;
          },
        )

  signed_header :
      (token : String) (n : ℕ) (answer : Response) (config : Config) (s : AuthState) (log : Log)
      → second_header (log.sent ++ config ∷ []) ≡ some (some (bearer token))
      → Decided
          (λ r. second_header r.log.sent ≡ some (some (bearer token)))
          (λ c s l. second_header l.sent ≡ some (some (bearer token)))
          answer
          (on_response lower env n answer config s (transmitted config log))
  unfolding on_response on_error
  signed_header token n (resolved status) config s log h = h
  signed_header token n (rejected false status) config s log h = h
  signed_header token n (rejected true status) config s log h = ground arith

  transmit-CarriesToken :
      (token : String) (n : ℕ) (config : Config) (s : AuthState) (log : Log)
      → CarriesToken token config s log
      → Decided
          (λ r. second_header r.log.sent ≡ some (some (bearer token)))
          (CarriesToken token)
          (env.respond n (attach_token s config))
          (transmit lower env n config s log)
  unfolding transmit
  transmit-CarriesToken token n config s log h = weaken (transmit lower env n config s log) (
      signed_header token n (env.respond n (attach_token s config)) (attach_token s config)
        (env.meanwhile n s) log (second_header-attach_token token config s log h))
    where
      weaken :
          (d : Settled ⊎ Verdict)
          → Decided
              (λ r. second_header r.log.sent ≡ some (some (bearer token)))
              (λ c s l. second_header l.sent ≡ some (some (bearer token)))
              (env.respond n (attach_token s config))
              d
          → Decided
              (λ r. second_header r.log.sent ≡ some (some (bearer token)))
              (CarriesToken token)
              (env.respond n (attach_token s config))
              d
      weaken (inl settled) k = k
      weaken (inr (give_up s' log')) k = k
      weaken (inr (again config' s' log')) k = inr k

  -- A first 401 under SSO whose silent sign-in brings a token: the second transmission carries the
  -- new token in its header.
  pub request_renewed :
      (method : Option String) (s : AuthState) (token : String)
      → env.respond 0 (attach_token s (fresh_config method)) ≡ rejected true (some 401)
      → (env.meanwhile 0 s).sso_enabled ≡ true
      → (env.meanwhile 0 s).oidc_signin_silent ≡ true
      → env.signin 0 ≡ signed_in (some token)
      → token ≢ ""
      → Settles
          (λ r. second_header r.log.sent ≡ some (some (bearer token)))
          (request lower env method s)
  unfolding request set_token
  request_renewed method s token failed sso silent renewed h =
      let config = attach_token s (fresh_config method) in
      let now = env.during_signin 0 (env.meanwhile 0 s) in
      rw
        (
          transmit-unauthorized (fresh_config method) s failed (retry-attach_token s _) sso silent,
          renewed,
          after_signin_renewed token (env.during_signout 0) _ (env.meanwhile 0 s) _ _ h,
        )
        (send_rule lower env (λ r. second_header r.log.sent ≡ some (some (bearer token)))
          (λ n. CarriesToken token) (transmit-CarriesToken token) 3 1
          (record config { retry = true; authorization = some (bearer token) })
          (set_token (some token) now)
          (record { sent = config ∷ []; signins = 1; signouts = 0; delays = [] }) (omega arith)
          (inl (config, refl, refl, refl)))
