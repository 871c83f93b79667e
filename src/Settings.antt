-- ===== src/Settings.antt =====
-- app/core/config.py: the fields of `Settings` with their defaults. What the environment and `.env`
-- put in place of a default is another value of the record.
use Prim.Native.Nat.{ℕ}
use flowtona.Common.{String, Bool, true, false, List, []}

pub data Environment : Type 0 where
  local dev prod : Environment

pub record Settings : Type 0 where
  pub service_name : String
  pub service_version : String
  pub environment : Environment
  pub host : String
  pub port : ℕ
  pub debug : Bool
  pub jwt_algorithm : String
  pub jwt_issuer : String
  pub jwt_audience : String
  pub jwt_signing_key_id : String
  pub jwt_access_token_expire_minutes : ℕ
  pub refresh_token_expire_days : ℕ
  pub preauth_token_expire_seconds : ℕ
  pub cors_origins : List String
  pub log_level : String
  pub log_format : String
  pub otel_exporter_endpoint : String
  pub otel_enabled : Bool
  pub metrics_enabled : Bool
  pub auth_source_rate_limit_requests : ℕ
  pub auth_source_rate_limit_window_seconds : ℕ
  pub auth_account_delay_start_after_failures : ℕ
  pub auth_account_delay_max_seconds : ℕ
  pub auth_account_failure_decay_seconds : ℕ
  pub argon2_time_cost : ℕ
  pub argon2_memory_cost_kib : ℕ
  pub argon2_parallelism : ℕ

abbrev pub defaults : Settings
defaults = record {
  service_name = "identity-service";
  service_version = "0.1.0";
  environment = local;
  host = "0.0.0.0";
  port = 8000;
  debug = false;
  jwt_algorithm = "ES256";
  jwt_issuer = "https://identity.flowtona.dev";
  jwt_audience = "flowtona-api";
  jwt_signing_key_id = "flowtona-local-001";
  jwt_access_token_expire_minutes = 15;
  refresh_token_expire_days = 7;
  preauth_token_expire_seconds = 120;
  cors_origins = [];
  log_level = "INFO";
  log_format = "json";
  otel_exporter_endpoint = "";
  otel_enabled = false;
  metrics_enabled = true;
  auth_source_rate_limit_requests = 10;
  auth_source_rate_limit_window_seconds = 60;
  auth_account_delay_start_after_failures = 3;
  auth_account_delay_max_seconds = 30;
  auth_account_failure_decay_seconds = 1800;
  argon2_time_cost = 3;
  argon2_memory_cost_kib = 65536;
  argon2_parallelism = 4;
}
