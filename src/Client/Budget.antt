-- ===== src/Client/Budget.antt =====
-- How often one call of the client transmits: a budget that every retry spends, and a rule for
-- proving what holds when the call settles.
use etl_nexus.Common.{
  ℕ, zero, suc, ◌+◌, ◌-◌, ◌<◌, ◌≡◌, ◌⊎◌, inl, inr, true, false, String, Option, some, arith,
  if◌then◌else◌, refl, subst,
}
use etl_nexus.Stores.AuthStore.{AuthState}
use etl_nexus.Client.{
  Config, Env, resolved, rejected, Response, Log, Verdict, give_up, again, Settled, attach_token,
  on_error, on_response, transmit, transmitted, settle, send, retries,
}

-- One silent sign-in and two retries after a transient failure, less those already spent.
abbrev pub budget : Config → ℕ
budget config = (if config.retry then 0 else 1) + (2 - retries config)

-- The rest of the call after a decision: settled, or a configuration and state to go on with.
abbrev pub Decided :
    (Settled → Type 0) → (Config → AuthState → Log → Type 0) → Response → Settled ⊎ Verdict → Type 0
Decided Q P answer (inl settled) = Q settled
Decided Q P answer (inr (give_up s log)) = Q (record { response = answer; store = s; log = log })
Decided Q P answer (inr (again config s log)) = P config s log

abbrev Cheaper : ℕ → Settled ⊎ Verdict → Type 0
Cheaper b (inl settled) = Unit
Cheaper b (inr (give_up s log)) = Unit
Cheaper b (inr (again config s log)) = budget config < b

module _ (lower : String → String) (env : Env) where
  budget-attach_token :
      (s : AuthState) (config : Config) → budget (attach_token s config) ≡ budget config
  unfolding attach_token
  budget-attach_token s config = ground arith

  -- Going on always spends some of the budget.
  on_error-Cheaper :
      (n : ℕ) (config : Config) (status : Option ℕ) (s : AuthState) (log : Log)
      → Cheaper (budget config) (inr (on_error lower env n config status s log))
  unfolding on_error
  on_error-Cheaper n config status s log = ground arith

  on_response-Cheaper :
      (n : ℕ) (answer : Response) (config : Config) (s : AuthState) (log : Log)
      → Cheaper (budget config) (on_response lower env n answer config s log)
  unfolding on_response
  on_response-Cheaper n (rejected true status) config s log = on_error-Cheaper n config status s log
  on_response-Cheaper n (resolved status) config s log = tt
  on_response-Cheaper n (rejected false status) config s log = tt

  transmit-Cheaper :
      (n : ℕ) (config : Config) (s : AuthState) (log : Log)
      → Cheaper (budget config) (transmit lower env n config s log)
  unfolding transmit
  transmit-Cheaper n config s log =
      subst (λ b. Cheaper b (transmit lower env n config s log)) (budget-attach_token s config)
        (on_response-Cheaper n (env.respond n (attach_token s config)) (attach_token s config)
          (env.meanwhile n s) (transmitted (attach_token s config) log))

abbrev pub Settles : (Settled → Type 0) → Option Settled → Type 0
Settles Q o = (r : Settled) × (o ≡ some r) × Q r

settle-Settles :
    (Q : Settled → Type 0) (P : Config → AuthState → Log → Type 0)
    (call : Config → AuthState → Log → Option Settled) (b : ℕ) (answer : Response)
    → ((config : Config) (s : AuthState) (log : Log)
        → budget config < b
        → P config s log
        → Settles Q (call config s log))
    → (d : Settled ⊎ Verdict) → Cheaper b d
    → Decided Q P answer d
    → Settles Q (settle call answer d)
settle-Settles Q P call b answer ih (inl settled) c q = (settled, refl, q)
settle-Settles Q P call b answer ih (inr (give_up s log)) c q =
    (record { response = answer; store = s; log = log }, refl, q)
settle-Settles Q P call b answer ih (inr (again config s log)) c p = ih config s log c p

-- The call settles as soon as the fuel passes the budget, and what settles it satisfies `Q`, if
-- `P` holds before the first transmission and every transmission leads from `P` to `Q` or `P`.
module _ (lower : String → String) (env : Env) (Q : Settled → Type 0)
    (P : ℕ → Config → AuthState → Log → Type 0)
    (step : (n : ℕ) (config : Config) (s : AuthState) (log : Log)
      → P n config s log
      → Decided Q
          (P (suc n))
          (env.respond n (attach_token s config))
          (transmit lower env n config s log)) where
  pub send_rule :
      (fuel n : ℕ) (config : Config) (s : AuthState) (log : Log)
      → budget config < fuel
      → P n config s log
      → Settles Q (send lower env fuel n config s log)
  unfolding send
  send_rule zero n config s log h p = absurd (omega arith)
  send_rule (suc fuel) n config s log h p =
      settle-Settles Q (P (suc n)) (send lower env fuel (suc n)) (budget config)
        (env.respond n (attach_token s config))
        (λ config' s' log' cheaper p'. send_rule fuel (suc n) config' s' log' (omega arith) p')
        (transmit lower env n config s log) (transmit-Cheaper lower env n config s log)
        (step n config s log p)
