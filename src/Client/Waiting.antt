-- ===== src/Client/Waiting.antt =====
-- How long the client waits between transmissions, and what it leaves alone without SSO.
use etl_nexus.Common.{
  ℕ, ◌+◌, ◌*◌, ◌≤◌, ◌<◌, ◌≡◌, true, false, String, List, [], ◌∷◌, ◌++◌, Option, arith, refl, length,
  length-append,
}
use native.Mathlib.Nat.{div-lt_iff_lt-mul}
use etl_nexus.Stores.AuthStore.{AuthState}
use etl_nexus.Client.{
  Config, Env, Response, resolved, rejected, Log, attach_token, transmitted, on_response, transmit,
  request, retries, empty_log, fresh_config, Fraction, jitter, retry_delay,
}
use etl_nexus.Client.Budget.{Decided, Settles, send_rule}

-- The waits before the retries: none, or one of 1000 ms, or this and a second one of 2000 ms, each
-- with less than 500 ms more.
abbrev pub AreBackoffs : List ℕ → Type 0
AreBackoffs [] = Unit
AreBackoffs (first ∷ []) = (1000 ≤ first) × (first < 1500)
AreBackoffs (first ∷ second ∷ []) =
    ((1000 ≤ first) × (first < 1500)) × ((2000 ≤ second) × (second < 2500))
AreBackoffs (first ∷ second ∷ third ∷ rest) = ⊥

-- a value of `Math.random()` is less than one
abbrev pub IsBelowOne : Fraction → Type 0
IsBelowOne f = f.numerator < f.denominator

jitter_lt : (f : Fraction) → IsBelowOne f → jitter f < 500
unfolding jitter
jitter_lt f h = (div-lt_iff_lt-mul (omega arith)).1 (omega arith)

retry_delay_lt :
    (k : ℕ) (f : Fraction)
    → IsBelowOne f
    → (1000 * (k + 1) ≤ retry_delay k f) × (retry_delay k f < 1000 * (k + 1) + 500)
unfolding retry_delay
retry_delay_lt k f h = let lt = jitter_lt f h in (omega arith, omega arith)

-- what the log holds while the call goes on: a wait for each retry that was counted
abbrev Counted : Config → List ℕ → Type 0
Counted config delays = (length delays ≡ retries config) × AreBackoffs delays

AreBackoffs-append :
    (k : ℕ) (f : Fraction) (delays : List ℕ)
    → IsBelowOne f
    → k < 2
    → length delays ≡ k
    → AreBackoffs delays
    → AreBackoffs (delays ++ retry_delay k f ∷ [])
AreBackoffs-append k f [] below lt e h =
    let (low, high) = retry_delay_lt k f below in (omega arith, omega arith)
AreBackoffs-append k f (first ∷ []) below lt e h =
    let (low, high) = retry_delay_lt k f below in (h, (omega arith, omega arith))
AreBackoffs-append k f (first ∷ second ∷ rest) below lt e h = absurd (omega arith)

module _ (lower : String → String) (env : Env) (random : (n : ℕ) → IsBelowOne (env.random n)) where
  on_response-Counted :
      (n : ℕ) (answer : Response) (config : Config) (s : AuthState) (log : Log)
      → Counted config log.delays
      → Decided
          (λ r. AreBackoffs r.log.delays)
          (λ c s l. Counted c l.delays)
          answer
          (on_response lower env n answer config s (transmitted config log))
  unfolding on_response
  on_response-Counted n (resolved status) config s log h = h.1
  on_response-Counted n (rejected false status) config s log h = h.1
  on_response-Counted n (rejected true status) config s log h = ground (
    arith,
    length-append log.delays (retry_delay (retries config) (env.random n) ∷ []),
    AreBackoffs-append (retries config) (env.random n) log.delays (random n),
  )

  attach_token-Counted :
      (s : AuthState) (config : Config) (delays : List ℕ)
      → Counted config delays
      → Counted (attach_token s config) delays
  unfolding attach_token
  attach_token-Counted s config delays h = ground arith

  -- If every random number is less than one, a call waits before no retry, one or two: at least
  -- 1000 ms and less than 1500 ms before the first, and at least 2000 ms and less than 2500 ms before
  -- the second.
  pub request-AreBackoffs :
      (method : Option String) (s : AuthState)
      → Settles (λ r. AreBackoffs r.log.delays) (request lower env method s)
  unfolding request transmit
  request-AreBackoffs method s =
      send_rule lower env (λ r. AreBackoffs r.log.delays) (λ n c s l. Counted c l.delays)
        (λ n config s' log h.
          on_response-Counted n (env.respond n (attach_token s' config)) (attach_token s' config)
            (env.meanwhile n s') log (attach_token-Counted s' config log.delays h))
        4 0 (fresh_config method) s empty_log (omega arith) (refl, tt)

module _ (lower : String → String) (env : Env)
    (no_sso : (n : ℕ) (s : AuthState)
      → s.sso_enabled ≡ false
      → (env.meanwhile n s).sso_enabled ≡ false) where
  abbrev IsUntouched : AuthState → Log → Type 0
  IsUntouched s log = (s.sso_enabled ≡ false) × (log.signins ≡ 0) × (log.signouts ≡ 0)

  on_response-IsUntouched :
      (n : ℕ) (answer : Response) (config : Config) (s : AuthState) (log : Log)
      → IsUntouched s log
      → Decided
          (λ r. IsUntouched r.store r.log)
          (λ c s l. IsUntouched s l)
          answer
          (on_response lower env n answer config s (transmitted config log))
  unfolding on_response
  on_response-IsUntouched n (resolved status) config s log h = h
  on_response-IsUntouched n (rejected false status) config s log h = h
  on_response-IsUntouched n (rejected true status) config s log h = ground arith

  -- Without SSO, and if nothing switches it on meanwhile, no call signs in silently or signs out.
  pub request-IsUntouched :
      (method : Option String) (s : AuthState)
      → s.sso_enabled ≡ false
      → Settles (λ r. IsUntouched r.store r.log) (request lower env method s)
  unfolding request transmit
  request-IsUntouched method s h =
      send_rule lower env (λ r. IsUntouched r.store r.log) (λ n c s l. IsUntouched s l)
        (λ n config s' log k.
          on_response-IsUntouched n (env.respond n (attach_token s' config))
            (attach_token s' config) (env.meanwhile n s') log (no_sso n s' k.0, k.1, k.2))
        4 0 (fresh_config method) s empty_log (omega arith) (h, refl, refl)
