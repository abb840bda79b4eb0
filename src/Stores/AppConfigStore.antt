-- ===== src/Stores/AppConfigStore.antt =====
-- frontend/src/stores/app-config-store.ts. Timeouts are natural numbers of milliseconds: a negative
-- number of the source gets the default, as 0 does here.
use etl_nexus.Common.{ℕ, ltb, String, Option, none, some, if◌then◌else◌, non_empty}

pub record AppConfig : Type 0 where
  pub app_name : String
  pub app_owner : String
  pub ai_request_timeout_ms : ℕ

abbrev pub default_ai_timeout_ms : ℕ
default_ai_timeout_ms = 300000

abbrev pub initial_config : AppConfig
initial_config = record {
  app_name = "ETL Nexus";
  app_owner = "";
  ai_request_timeout_ms = default_ai_timeout_ms;
}

abbrev name_or : String → Option String → String
name_or old none = old
name_or old (some name) = if non_empty name then name else old

abbrev owner_or : String → Option String → String
owner_or old none = old
owner_or old (some owner) = owner

unfoldable pub set_branding : Option String → Option String → AppConfig → AppConfig
set_branding app_name app_owner s = record s {
  app_name = name_or s.app_name app_name;
  app_owner = owner_or s.app_owner app_owner;
}

unfoldable pub set_ai_request_timeout_ms : ℕ → AppConfig → AppConfig
set_ai_request_timeout_ms ms s = record s {
  ai_request_timeout_ms = if ltb 0 ms then ms else default_ai_timeout_ms;
}
