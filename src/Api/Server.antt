-- ===== src/Api/Server.antt =====
-- The checks at the start of `main` and the request handler of src/server/webhook-server.ts, with src/lib/health.ts.
-- What routeGitHubWebhook answers (Webhook.Route) is an argument.
use fixor.Prelude.{
  ℕ, Bool, true, false, not, ◌&&◌, ◌||◌, Option, none, some, List, [], ◌∷◌, String, leb, ◌==◌,
  if◌then◌else◌, or_else, str_eq, codes, starts_with, trim_text, digits_from,
}
use fixor.Workflow.{Settled, fulfilled, rejected}
use fixor.Api.Handler.{ApiRequest, ApiState, ApiEnv, handle_api_scan}
use fixor.Api.Results.{status_of}

-- The environment variables that the start reads.
pub record ServerEnv : Type 0 where
  pub github_app_id : Option String
  pub github_app_private_key : Option String
  pub github_token : Option String
  pub anthropic_api_key : Option String
  pub port : Option String
  pub github_webhook_secret : Option String
  pub allow_unsigned_webhooks : Option String
  pub node_env : Option String

pub record ServerConfig : Type 0 where
  pub port : ℕ
  pub webhook_secret : String
  pub skip_signature_verification : Bool

-- `v?.trim() ?? d`
abbrev pub trimmed_or : String → Option String → String
trimmed_or d none = d
trimmed_or d (some s) = trim_text s

-- `!!v?.trim()`
abbrev pub is_set : Option String → Bool
is_set v = not (str_eq (trimmed_or "" v) "")

-- `Number.parseInt(s, 10)` of a text without space at its start; a negative number is out of the range anyway.
abbrev pub parse_port : List ℕ → Option ℕ
parse_port [] = none
parse_port (c ∷ s) = if c == b'+' then digits_from none s else digits_from none (c ∷ s)

-- `v?.trim() || "3000"`
abbrev pub port_raw : Option String → String
port_raw v = if is_set v then trimmed_or "" v else "3000"

abbrev pub in_range : Option ℕ → Option ℕ
in_range none = none
in_range (some n) = if leb 1 n && leb n 65535 then some n else none

-- The webhook's settings, none where the server refuses to start.
unfoldable pub webhook_config : ServerEnv → ℕ → Option ServerConfig
webhook_config env port =
    let secret = trimmed_or "" env.github_webhook_secret in
    let skip = str_eq secret "" in
    let allow_unsigned = str_eq (trimmed_or "" env.allow_unsigned_webhooks) "true" in
    let is_production = str_eq (trimmed_or "production" env.node_env) "production" in
    if skip && (is_production || not allow_unsigned)
    then none
    else some (record { port = port; webhook_secret = secret; skip_signature_verification = skip })

unfoldable pub with_port : ServerEnv → Option ℕ → Option ServerConfig
unfolding webhook_config
with_port env none = none
with_port env (some port) = webhook_config env port

-- The start up to `createServer`; none is `process.exit(1)`.
unfoldable pub start_server : ServerEnv → Option ServerConfig
unfolding with_port
start_server env =
    let has_app_auth = is_set env.github_app_id && is_set env.github_app_private_key in
    if not has_app_auth && not (is_set env.github_token)
    then none
    else if not (is_set env.anthropic_api_key)
    then none
    else with_port env (in_range (parse_port (codes (port_raw env.port))))

pub data ComponentStatus : Type 0 where
  ok degraded : ComponentStatus

abbrev pub is_ok : ComponentStatus → Bool
is_ok ok = true
is_ok degraded = false

-- pingDb: whether the query throws.
unfoldable pub ping_db : Settled (Unit {0}) → ComponentStatus
ping_db (fulfilled x) = ok
ping_db (rejected reason) = degraded

-- pingAnthropic, of the environment variable.
unfoldable pub ping_anthropic : Option String → ComponentStatus
ping_anthropic key =
    if starts_with (codes "sk-ant-") (codes (trimmed_or "" key)) then ok else degraded

pub record HealthReport : Type 0 where
  pub status : ComponentStatus
  pub db : ComponentStatus
  pub anthropic : ComponentStatus

unfoldable pub run_health_checks : Settled (Unit {0}) → Option String → HealthReport
unfolding ping_db ping_anthropic
run_health_checks query key =
    let db = ping_db query in
    let anthropic = ping_anthropic key in
    record {
      status = if is_ok db && is_ok anthropic then ok else degraded;
      db = db;
      anthropic = anthropic;
    }

abbrev pub status_if : Bool → ℕ
status_if b = if b then 200 else 503

-- A request with what its handler reads; `route` is the webhook route's status, none where it throws.
pub record HttpRequest : Type 0 where
  pub method : String
  pub path : String
  pub api : ApiRequest
  pub route : Option ℕ

pub record Served : Type 0 where
  pub status : ℕ
  pub state : ApiState
  -- Whether routeGitHubWebhook was called.
  pub routed : Bool

module _ (env : ApiEnv) (query : Settled (Unit {0})) (api_key : Option String) where
  -- The request handler: the status that is sent.
  unfoldable pub handle_request : HttpRequest → ApiState → Served
  unfolding run_health_checks
  handle_request req s =
      let (answer, after) = handle_api_scan env req.api s in
      let health = run_health_checks query api_key in
      if str_eq req.method "GET" && str_eq req.path "/health"
      then record { status = status_if (is_ok health.status); state = s; routed = false }
      else if str_eq req.method "GET" && str_eq req.path "/ready"
      then record { status = status_if (is_ok (ping_db query)); state = s; routed = false }
      else if str_eq req.method "POST" && str_eq req.path "/api/v1/scan"
      then record { status = status_of answer; state = after; routed = false }
      else if not (str_eq req.method "POST") || not (str_eq req.path "/webhook")
      then record { status = 404; state = s; routed = false }
      else record { status = or_else req.route 500; state = s; routed = true }
