-- ===== src/Api/Tests.antt =====
-- The API's theorems at a concrete token, request and environment.
use fixor.Prelude.{
  ℕ, ◌≤◌, ◌≡◌, refl, ◌↔◌, ◌⊎◌, true, false, none, some, [], ◌∷◌, String, str_eq, join, digits_from,
}
use fixor.Limiter.{Limiter}
use fixor.Budget.{BudgetCheck}
use fixor.Workflow.{fulfilled, empty_result}
use fixor.Api.{TokenRow, ApiDb}
use fixor.Api.Tokens.{
  verify_api_token, generate_api_token, find_token, insert_token, revoke_token, mark_token_used,
  token_lifecycle,
}
use fixor.Api.Scan.{ScanDeps}
use fixor.Api.Handler.{ApiRequest, ApiState, ApiEnv, handle_api_scan}
use fixor.Api.Results.{status_of}
use fixor.Api.Guard.{Accepted, accepted_iff}
use fixor.Api.Calls.{Explained, calls-Explained}
use fixor.Api.Server.{
  ServerEnv, ServerConfig, trimmed_or, is_set, start_server, with_port, webhook_config, HttpRequest,
}
use fixor.Api.Startup.{started_lem}

-- Not SHA-256, which is an argument.
abbrev hash_of : String → String
hash_of s = join "#" s

abbrev row : TokenRow
row = record { id = "t1"; org_id = "o1"; hash = "#fxr_abc"; revoked = false; last_used_at = none }

abbrev db : ApiDb
db = record {
  tokens = row ∷ [];
  orgs = record { id = "o1"; github_installation_id = some "77" } ∷ [];
}

abbrev limiter : Limiter
limiter = record { buckets = []; max_requests = 60; window_ms = 60000 }

abbrev state : ApiState
state = record { db = db; limiter = limiter; calls = [] }

abbrev budget : BudgetCheck
budget = record {
  within_budget = true;
  reason = none;
  monthly_spend = 1;
  daily_spend = 1;
  caps = record { monthly_cap_usd = 20; daily_cap_usd = 5 };
  failure = none;
}

abbrev deps : ScanDeps
deps = record {
  budget = λ i. fulfilled budget;
  workflow = λ diff id. fulfilled empty_result;
  timed_out = false;
  ledger_write_failed = false;
}

abbrev env : ApiEnv
env = record {
  hash_token = hash_of;
  token_read_fails = false;
  org_read_fails = false;
  allowed_at = 5;
  hinted_at = 5;
  marked_at = 9;
  mark_fails = false;
  deps = deps;
}

abbrev request : ApiRequest
request = record { authorization = some "Bearer fxr_abc"; body = some (some "diff --git a b") }

abbrev http_request : HttpRequest
http_request = record { method = "POST"; path = "/api/v1/scan"; api = request; route = none }

fresh : find_token (generate_api_token hash_of "new").1 db.tokens ≡ none
unfolding find_token generate_api_token
fresh = refl

token_lifecycle_example :
    let (plain, hash) = generate_api_token hash_of "new" in
    let row' : TokenRow = record {
      id = "t2";
      org_id = "o1";
      hash = hash;
      revoked = false;
      last_used_at = none;
    } in
    let db' = insert_token row' db in
    (verify_api_token hash_of db' plain ≡ some (record { token_id = "t2"; org_id = "o1" }))
    × ((used : String) (now : ℕ)
        → verify_api_token hash_of (mark_token_used used now db') plain
          ≡ verify_api_token hash_of db' plain)
    × (verify_api_token hash_of (revoke_token "t2" db') plain ≡ none)
token_lifecycle_example = token_lifecycle hash_of "new" "t2" "o1" db fresh

accepted_iff_example :
    (status_of (handle_api_scan env request state).0 ≡ 200) ↔ Accepted env request state
accepted_iff_example = accepted_iff env request state

calls-Explained_example : Explained env request state (handle_api_scan env request state).1.calls
calls-Explained_example = calls-Explained env request state

abbrev server_env : ServerEnv
server_env = record {
  github_app_id = none;
  github_app_private_key = none;
  github_token = some "t";
  anthropic_api_key = some "sk-ant-1";
  port = none;
  github_webhook_secret = none;
  allow_unsigned_webhooks = some "true";
  node_env = some "development";
}

abbrev server_config : ServerConfig
server_config = record { port = 3000; webhook_secret = ""; skip_signature_verification = true }

starts : start_server server_env ≡ some server_config
unfolding start_server with_port webhook_config digits_from
starts = refl

started_lem_example :
    ((server_config.webhook_secret ≡ trimmed_or "" server_env.github_webhook_secret)
      × (server_config.skip_signature_verification ≡ str_eq server_config.webhook_secret "")
      × ((server_config.skip_signature_verification ≡ false)
          ⊎ ((str_eq (trimmed_or "production" server_env.node_env) "production" ≡ false)
              × (str_eq (trimmed_or "" server_env.allow_unsigned_webhooks) "true" ≡ true))))
    × ((1 ≤ server_config.port) × (server_config.port ≤ 65535))
    × (is_set server_env.anthropic_api_key ≡ true)
    × ((is_set server_env.github_token ≡ true)
        ⊎ ((is_set server_env.github_app_id ≡ true)
            × (is_set server_env.github_app_private_key ≡ true)))
started_lem_example = started_lem server_env server_config starts
