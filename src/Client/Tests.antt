-- ===== src/Client/Tests.antt =====
-- Runs of the client at concrete servers, and the theorems at them.
use etl_nexus.Common.{
  ℕ, zero, suc, ◌≡◌, true, String, List, [], ◌∷◌, Option, none, some, arith, refl, eq_iff,
  false≢true,
}
use etl_nexus.Stores.AuthStore.{AuthState, initial_auth}
use etl_nexus.Client.{
  Env, Response, resolved, rejected, Settled, Signin, signed_in, threw, request, bearer,
}
use etl_nexus.Client.Budget.{Settles}
use etl_nexus.Client.Attempts.{IsCheap, request-IsCheap}
use etl_nexus.Client.Session.{HasExpired, request_expired, request_renewed, second_header}
use etl_nexus.Client.Waiting.{AreBackoffs, request-AreBackoffs}

-- Every answer is a 503.
abbrev unavailable : Env
unavailable = record {
  respond = λ n config. rejected true (some 503);
  meanwhile = λ n s. s;
  signin = λ n. threw;
  during_signin = λ n s. s;
  during_signout = λ n s. s;
  random = λ n. record { numerator = 1; denominator = 2 };
}

-- The first answer is a 401, and every later one is a 200.
abbrev answer_401 : ℕ → Response
answer_401 zero = rejected true (some 401)
answer_401 (suc n) = resolved 200

abbrev expiring : Signin → Env
expiring outcome = record unavailable { respond = λ n config. answer_401 n; signin = λ n. outcome }

abbrev same : String → String
same s = s

abbrev signed_on : AuthState
signed_on = record initial_auth {
  token = some "old";
  is_authenticated = true;
  sso_enabled = true;
  oidc_signout = true;
  oidc_signin_silent = true;
}

abbrev waits_of : Option Settled → List ℕ
waits_of none = []
waits_of (some r) = r.log.delays

get_waits : waits_of (request same unavailable (some "get") initial_auth) ≡ 1250 ∷ 2250 ∷ []
unfolding request
get_waits = refl

post_waits : waits_of (request same unavailable (some "post") initial_auth) ≡ []
unfolding request
post_waits = refl

request-IsCheap_example : Settles IsCheap (request same unavailable (some "get") initial_auth)
request-IsCheap_example = request-IsCheap same unavailable (some "get") initial_auth

request_expired_example :
    Settles
      (HasExpired (expiring threw) true)
      (request same (expiring threw) (some "get") signed_on)
request_expired_example =
    request_expired same (expiring threw) (some "get") signed_on refl refl refl tt

request_renewed_example :
    Settles
      (λ r. second_header r.log.sent ≡ some (some (bearer "new")))
      (request same (expiring (signed_in (some "new"))) (some "get") signed_on)
request_renewed_example =
    request_renewed same (expiring (signed_in (some "new"))) (some "get") signed_on "new" refl refl
      refl refl (λ p. false≢true ((eq_iff "new" "").1 p))

request-AreBackoffs_example :
    Settles (λ r. AreBackoffs r.log.delays) (request same unavailable (some "get") initial_auth)
request-AreBackoffs_example =
    request-AreBackoffs same unavailable (λ n. omega arith) (some "get") initial_auth
