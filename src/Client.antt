-- ===== src/Client.antt =====
-- frontend/src/api/client.ts: the axios client with its two interceptors. One call of the client
-- is a loop over transmissions. What the server answers, what the rest of the application does to
-- the auth store while a promise is awaited, what the silent sign-in gives and the random numbers
-- are the environment's. axios hands the configuration that it is given on to the error, with the
-- fields `_retry` and `_retryCount`.
pub mod Budget
pub mod Attempts
pub mod Session
pub mod Waiting
mod Tests
use Prim.Native.String
use mathlib.Core.Option
use etl_nexus.Common.{
  ℕ, zero, suc, ◌+◌, ◌*◌, ◌/◌, Bool, true, false, not, ◌&&◌, ◌||◌, String, List, [], ◌∷◌, ◌++◌,
  Option, none, some, if◌then◌else◌, ltb, ◌==◌, ◌===◌, non_empty, ◌⊎◌, inl, inr,
}
use etl_nexus.Stores.AuthStore.{AuthState, set_token, logout}

pub record Config : Type 0 where
  pub method : Option String
  pub authorization : Option String
  pub retry : Bool
  pub retry_count : Option ℕ

-- A rejection says whether the error carries the configuration, and the status of its response.
pub data Response : Type 0 where
  resolved : ℕ → Response
  rejected : Bool → Option ℕ → Response

-- `signinSilent` throws, or gives a user with or without an access token, or no user.
pub data Signin : Type 0 where
  threw : Signin
  signed_in : Option String → Signin

-- A value of `Math.random()`.
pub record Fraction : Type 0 where
  pub numerator : ℕ
  pub denominator : ℕ

-- The n-th entry belongs to the n-th transmission of the call.
pub record Env : Type 0 where
  pub respond : ℕ → Config → Response
  pub meanwhile : ℕ → AuthState → AuthState
  pub signin : ℕ → Signin
  pub during_signin : ℕ → AuthState → AuthState
  pub during_signout : ℕ → AuthState → AuthState
  pub random : ℕ → Fraction

-- What the call did so far; delays are in milliseconds.
pub record Log : Type 0 where
  pub sent : List Config
  pub signins : ℕ
  pub signouts : ℕ
  pub delays : List ℕ

abbrev pub empty_log : Log
empty_log = record { sent = []; signins = 0; signouts = 0; delays = [] }

abbrev pub bearer : String → String
bearer token = String.◌++◌ "Bearer " token

-- the request interceptor
unfoldable pub attach_token : AuthState → Config → Config
attach_token s config = elim s.token [
  | none ↦ config
  | some token ↦
      if non_empty token && not (token === "no-sso")
      then record config { authorization = some (bearer token) }
      else config
]

abbrev pub is_unauthorized : Option ℕ → Bool
is_unauthorized none = false
is_unauthorized (some status) = status == 401

-- `!status || status === 502 || status === 503 || status === 504`
unfoldable pub is_transient : Option ℕ → Bool
is_transient none = true
is_transient (some status) = status == 0 || status == 502 || status == 503 || status == 504

unfoldable pub is_idempotent : String → Bool
is_idempotent method =
    method === "get" || method === "head" || method === "options" || method === "put"

abbrev pub retries : Config → ℕ
retries config = Option.get_or config.retry_count 0

-- `(config.method ?? "").toLowerCase()`; `lower` stands for `toLowerCase`.
abbrev pub method_of : (String → String) → Config → String
method_of lower config = lower (Option.get_or config.method "")

-- What the error interceptor decides: give up with the error, or call the client again.
pub data Verdict : Type 0 where
  give_up : AuthState → Log → Verdict
  again : Config → AuthState → Log → Verdict

-- After the silent sign-in: the token goes to the store and the header, or the session ends.
-- `s` is the store before the sign-in was awaited, `now` the store after it, and `signing_out` what
-- happens to the store while the sign-out is awaited, whose failure is caught.
unfoldable pub after_signin :
    Signin → (AuthState → AuthState) → Config → AuthState → AuthState → Log → Verdict
after_signin outcome signing_out config s now log =
    let fail =
      give_up (if s.oidc_signout then signing_out (logout now) else logout now)
        (record log { signouts = if s.oidc_signout then log.signouts + 1 else log.signouts }) in
    elim outcome [
      | threw ↦ fail
      | signed_in none ↦ fail
      | signed_in (some token) ↦
          if non_empty token
          then again (record config { authorization = some (bearer token) })
              (set_token (some token) now) log
          else fail
    ]

-- `Math.random() * 500`, without the fraction of a millisecond that `setTimeout` cuts off
unfoldable pub jitter : Fraction → ℕ
jitter random = random.numerator * 500 / random.denominator

-- `1000 * (retryCount + 1) + jitter`
unfoldable pub retry_delay : ℕ → Fraction → ℕ
unfolding jitter
retry_delay retry_count random = 1000 * (retry_count + 1) + jitter random

module _ (lower : String → String) (env : Env) where
  -- step 1 of the error interceptor
  unfoldable pub on_unauthorized : ℕ → Config → AuthState → Log → Verdict
  unfolding after_signin
  on_unauthorized n config s log =
      if s.sso_enabled && s.oidc_signin_silent
      then after_signin (env.signin n) (env.during_signout n) (record config { retry = true }) s
          (env.during_signin n s) (record log { signins = log.signins + 1 })
      else give_up s log

  -- step 2 of the error interceptor
  unfoldable pub on_transient : ℕ → Config → Option ℕ → AuthState → Log → Verdict
  unfolding is_transient is_idempotent retry_delay
  on_transient n config status s log =
      if (is_transient status && is_idempotent (method_of lower config)) && ltb (retries config) 2
      then again (record config { retry_count = some (retries config + 1) }) s
          (record log { delays = log.delays ++ retry_delay (retries config) (env.random n) ∷ [] })
      else give_up s log

  unfoldable pub on_error : ℕ → Config → Option ℕ → AuthState → Log → Verdict
  unfolding on_unauthorized on_transient
  on_error n config status s log =
      if is_unauthorized status && not config.retry
      then on_unauthorized n config s log
      else on_transient n config status s log

-- What the caller of the client gets, with the store and the log at that time.
pub record Settled : Type 0 where
  pub response : Response
  pub store : AuthState
  pub log : Log

abbrev pub transmitted : Config → Log → Log
transmitted config log = record log { sent = log.sent ++ config ∷ [] }

-- What follows a decision; `again` is `apiClient(config)`.
abbrev pub settle :
    (Config → AuthState → Log → Option Settled) → Response → Settled ⊎ Verdict → Option Settled
settle call answer (inl settled) = some settled
settle call answer (inr (give_up s log)) = some (record { response = answer; store = s; log = log })
settle call answer (inr (again config s log)) = call config s log

abbrev pub fresh_config : Option String → Config
fresh_config method = record {
  method = method;
  authorization = none;
  retry = false;
  retry_count = none;
}

module _ (lower : String → String) (env : Env) where
  -- the response interceptor, from the n-th answer to the decision
  unfoldable pub on_response : ℕ → Response → Config → AuthState → Log → Settled ⊎ Verdict
  unfolding on_error
  on_response n (resolved status) config s log =
      inl (record { response = resolved status; store = s; log = log })
  on_response n (rejected false status) config s log =
      inl (record { response = rejected false status; store = s; log = log })
  on_response n (rejected true status) config s log = inr (on_error lower env n config status s log)

  -- one transmission: the request interceptor, the server, the response interceptor
  unfoldable pub transmit : ℕ → Config → AuthState → Log → Settled ⊎ Verdict
  unfolding on_response attach_token
  transmit n config s log =
      let sending = attach_token s config in
      on_response n (env.respond n sending) sending (env.meanwhile n s) (transmitted sending log)

  -- `apiClient(config)` from the n-th transmission on; `none` means that the fuel ran out.
  unfoldable pub send : ℕ → ℕ → Config → AuthState → Log → Option Settled
  unfolding transmit
  send zero n config s log = none
  send (suc fuel) n config s log =
      settle (send fuel (suc n)) (env.respond n (attach_token s config)) (transmit n config s log)

-- `apiClient.get`, `.post` and the like: a fresh call, with fuel for its four transmissions.
unfoldable pub request : (String → String) → Env → Option String → AuthState → Option Settled
unfolding send
request lower env method s = send lower env 4 0 (fresh_config method) s empty_log
