-- ===== src/Client/Attempts.antt =====
-- What one call of the client may cost, and which methods are sent again.
use etl_nexus.Common.{
  ℕ, ◌+◌, ◌-◌, ◌≤◌, ◌≡◌, true, false, String, [], ◌∷◌, Option, arith, if◌then◌else◌, length,
  length-append, refl,
}
use etl_nexus.Stores.AuthStore.{AuthState}
use etl_nexus.Client.{
  Config, Env, Response, resolved, rejected, Log, Settled, attach_token, transmitted, on_response,
  transmit, request, retries, method_of, fresh_config, is_idempotent, empty_log, retry_delay,
}
use etl_nexus.Client.Budget.{budget, Decided, Settles, send_rule}

-- What the log may hold while the call still has `budget config` to spend.
record InBudget (config : Config) (log : Log) : Type 0 where
  sent : length log.sent + budget config ≤ 3
  signins : log.signins + (if config.retry then 0 else 1) ≤ 1
  signouts : log.signouts ≡ 0
  delays : length log.delays + (2 - retries config) ≤ 2

-- At most four transmissions, one silent sign-in, one sign-out and two waits.
pub record IsCheap (r : Settled) : Type 0 where
  pub at_least_one : 1 ≤ length r.log.sent
  pub sent : length r.log.sent ≤ 4
  pub signins : r.log.signins ≤ 1
  pub signouts : r.log.signouts ≤ 1
  pub delays : length r.log.delays ≤ 2

module _ (lower : String → String) (env : Env) where
  on_response-InBudget :
      (n : ℕ) (answer : Response) (config : Config) (s : AuthState) (log : Log)
      → InBudget config log
      → Decided IsCheap
          (λ c s l. InBudget c l)
          answer
          (on_response lower env n answer config s (transmitted config log))
  unfolding on_response
  on_response-InBudget n (resolved status) config s log h =
      ground (arith, length-append log.sent (config ∷ []))
  on_response-InBudget n (rejected false status) config s log h =
      ground (arith, length-append log.sent (config ∷ []))
  on_response-InBudget n (rejected true status) config s log h = ground (
    arith,
    length-append log.sent (config ∷ []),
    length-append log.delays (retry_delay (retries config) (env.random n) ∷ []),
  )

  attach_token-InBudget :
      (s : AuthState) (config : Config) (log : Log)
      → InBudget config log
      → InBudget (attach_token s config) log
  unfolding attach_token
  attach_token-InBudget s config log h = ground arith

  transmit-InBudget :
      (n : ℕ) (config : Config) (s : AuthState) (log : Log)
      → InBudget config log
      → Decided IsCheap
          (λ c s l. InBudget c l)
          (env.respond n (attach_token s config))
          (transmit lower env n config s log)
  unfolding transmit
  transmit-InBudget n config s log h =
      on_response-InBudget n (env.respond n (attach_token s config)) (attach_token s config)
        (env.meanwhile n s) log (attach_token-InBudget s config log h)

  -- Whatever the server answers, the silent sign-in gives and the rest of the application does to
  -- the auth store, a call of the client settles after at least one and at most four
  -- transmissions, with at most one silent sign-in, one sign-out and two waits.
  pub request-IsCheap :
      (method : Option String) (s : AuthState) → Settles IsCheap (request lower env method s)
  unfolding request
  request-IsCheap method s =
      send_rule lower env IsCheap (λ n c s l. InBudget c l) transmit-InBudget 4 0
        (fresh_config method) s empty_log (omega arith) (omega arith)

-- A configuration that is not to be sent again after a transient failure.
record IsOnce (lower : String → String) (config : Config) (log : Log) : Type 0 where
  method : is_idempotent (method_of lower config) ≡ false
  sent : length log.sent + (if config.retry then 0 else 1) ≤ 1
  signins : length log.sent ≡ log.signins
  delays : log.delays ≡ []

-- One transmission more than there were silent sign-ins, at most two in all, and no wait.
pub record IsSentOnce (r : Settled) : Type 0 where
  pub sent : length r.log.sent ≤ 2
  pub signins : length r.log.sent ≤ r.log.signins + 1
  pub delays : r.log.delays ≡ []

module _ (lower : String → String) (env : Env) where
  on_response-IsOnce :
      (n : ℕ) (answer : Response) (config : Config) (s : AuthState) (log : Log)
      → IsOnce lower config log
      → Decided IsSentOnce
          (λ c s l. IsOnce lower c l)
          answer
          (on_response lower env n answer config s (transmitted config log))
  unfolding on_response
  on_response-IsOnce n (resolved status) config s log h =
      ground (arith, length-append log.sent (config ∷ []))
  on_response-IsOnce n (rejected false status) config s log h =
      ground (arith, length-append log.sent (config ∷ []))
  on_response-IsOnce n (rejected true status) config s log h =
      ground (arith, length-append log.sent (config ∷ []))

  attach_token-IsOnce :
      (s : AuthState) (config : Config) (log : Log)
      → IsOnce lower config log
      → IsOnce lower (attach_token s config) log
  unfolding attach_token
  attach_token-IsOnce s config log h = ground arith

  transmit-IsOnce :
      (n : ℕ) (config : Config) (s : AuthState) (log : Log)
      → IsOnce lower config log
      → Decided IsSentOnce
          (λ c s l. IsOnce lower c l)
          (env.respond n (attach_token s config))
          (transmit lower env n config s log)
  unfolding transmit
  transmit-IsOnce n config s log h =
      on_response-IsOnce n (env.respond n (attach_token s config)) (attach_token s config)
        (env.meanwhile n s) log (attach_token-IsOnce s config log h)

  -- A call whose method is not GET, HEAD, OPTIONS or PUT settles without a wait, and is
  -- transmitted again only after a silent sign-in: at most twice in all.
  pub request-IsSentOnce :
      (method : Option String) (s : AuthState)
      → is_idempotent (method_of lower (fresh_config method)) ≡ false
      → Settles IsSentOnce (request lower env method s)
  unfolding request
  request-IsSentOnce method s h =
      send_rule lower env IsSentOnce (λ n c s l. IsOnce lower c l) transmit-IsOnce 4 0
        (fresh_config method) s empty_log (omega arith)
        (record { method = h; sent = omega arith; signins = omega arith; delays = refl })
