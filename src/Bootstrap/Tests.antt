-- ===== src/Bootstrap/Tests.antt =====
-- Some users.
use etl_nexus.Common.{true, false, String, [], none, some, ◌≡◌, refl, codes, if◌then◌else◌, ◌===◌}
use etl_nexus.Stores.AuthStore.{UserInfo}
use etl_nexus.Bootstrap.{AuthConfig, Query, render, children}
use etl_nexus.Bootstrap.Entry.{signed_in_with, entered, entered_known}

abbrev with_sso : AuthConfig
with_sso = record {
  sso_enabled = true;
  ai_greeting = some (codes "Hello");
  app_name = some "";
  app_owner = none;
  ai_request_timeout_seconds = some 0;
}

abbrev ada : UserInfo
ada = record {
  username = "ada";
  full_name = none;
  email = "ada@localhost";
  role = "user";
  is_master = false;
  teams = [];
}

abbrev who : String → Query
who token =
    if token === "t"
    then record { is_loading = false; is_error = false; user = some ada }
    else record { is_loading = false; is_error = true; user = none }

entered_known_example :
    (render (signed_in_with "t") who (entered with_sso "t" who) ≡ children)
    × (((entered with_sso "t" who).auth.user ≡ some ada)
        × ((entered with_sso "t" who).auth.token ≡ some "t"))
entered_known_example = entered_known with_sso "t" ada who refl refl refl
