-- ===== src/Api/Tests.antt =====
-- Some requests, their routes, and a restore at a server that fails.
use etl_nexus.Common.{
  true, false, not, String, ℕ, Option, none, length, ◌≡◌, ◌≢◌, refl, some, eq_iff, false≢true,
}
use etl_nexus.Stores.AuthStore.{initial_auth}
use etl_nexus.Client.{Env, rejected, threw, request, Settled}
use etl_nexus.Client.Budget.{Settles}
use etl_nexus.Api.{request_of, update_pipeline, restore_revision, save_tables}
use etl_nexus.Api.Routing.{has_route, is_save_fields, request_of-HasRoute}
use etl_nexus.Api.Sending.{method_text, Fixes, IsSentAs, change-IsSentAs}

abbrev product_id : String
product_id = "7"

product_id_ne : product_id ≢ ""
product_id_ne e = false≢true ((eq_iff "7" "").1 e)

request_of-HasRoute_example :
    has_route (request_of (update_pipeline product_id))
    ≡ not (is_save_fields (update_pipeline product_id))
request_of-HasRoute_example = request_of-HasRoute (update_pipeline product_id) product_id_ne

-- Every answer is a 503.
abbrev unavailable : Env
unavailable = record {
  respond = λ n config. rejected true (some 503);
  meanwhile = λ n s. s;
  signin = λ n. threw;
  during_signin = λ n s. s;
  during_signout = λ n s. s;
  random = λ n. record { numerator = 1; denominator = 2 };
}

abbrev same : String → String
same s = s

same-Fixes : Fixes same
same-Fixes method = refl

-- the list of tables is put three times
abbrev times_sent : Option Settled → ℕ
times_sent none = 0
times_sent (some r) = length r.log.sent

tables_put :
    times_sent (
      request same unavailable
        (some (method_text (request_of (save_tables product_id)).method))
        initial_auth)
    ≡ 3
unfolding request request_of
tables_put = refl

change-IsSentAs_example : Settles (IsSentAs false) (
    request same unavailable
      (some (method_text (request_of (restore_revision product_id "2")).method))
      initial_auth)
change-IsSentAs_example =
    change-IsSentAs same same-Fixes unavailable (restore_revision product_id "2") initial_auth refl
