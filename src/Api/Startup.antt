-- ===== src/Api/Startup.antt =====
-- When the server starts, and where its requests go.
use fixor.Prelude.{
  ℕ, ◌≤◌, ◌≡◌, ◌≢◌, ◌∙◌, refl, sym, ap, ◌↔◌, ◌⊎◌, inl, inr, true, false, not, ◌&&◌, ◌||◌, Option,
  none, some, String, arith, Bool-cases, eq_of_some, str_eq, codes, eq_iff,
}
use fixor.Workflow.{Settled}
use fixor.Api.Handler.{ApiState, ApiEnv}
use fixor.Api.Server.{
  ServerEnv, ServerConfig, trimmed_or, is_set, parse_port, port_raw, in_range, webhook_config,
  with_port, start_server, HttpRequest, handle_request,
}

webhook_config_lem :
    (env : ServerEnv) (port : ℕ) (config : ServerConfig)
    → webhook_config env port ≡ some config
    → (config.webhook_secret ≡ trimmed_or "" env.github_webhook_secret)
      × (config.skip_signature_verification ≡ str_eq config.webhook_secret "")
      × ((config.skip_signature_verification ≡ false)
          ⊎ ((str_eq (trimmed_or "production" env.node_env) "production" ≡ false)
              × (str_eq (trimmed_or "" env.allow_unsigned_webhooks) "true" ≡ true)))
      × (config.port ≡ port)
unfolding webhook_config
webhook_config_lem env port config e =
    let secret = trimmed_or "" env.github_webhook_secret in
    let unsigned = str_eq (trimmed_or "" env.allow_unsigned_webhooks) "true" in
    let production = str_eq (trimmed_or "production" env.node_env) "production" in
    elim (Bool-cases (str_eq secret "" && (production || not unsigned))) [
      | inl refused ↦ absurd (ground (arith, rw refused at e))
      | inr starts ↦
          let made = eq_of_some (rw starts at e) in
          let secret_eq = ap (λ c. c.webhook_secret) made in
          let skip_eq = ap (λ c. c.skip_signature_verification) made in
          (
            sym secret_eq,
            sym skip_eq ∙ ap (λ t. str_eq t "") secret_eq,
            ground (arith, starts, skip_eq),
            sym (ap (λ c. c.port) made),
          )
    ]

in_range-bounds : (o : Option ℕ) (n : ℕ) → in_range o ≡ some n → (1 ≤ n) × (n ≤ 65535)
in_range-bounds none n e = absurd (ground (arith, e))
in_range-bounds (some m) n e = ground (arith, e)

with_port_lem :
    (env : ServerEnv) (o : Option ℕ) (config : ServerConfig)
    → with_port env o ≡ some config
    → (port : ℕ) × (o ≡ some port) × (webhook_config env port ≡ some config)
unfolding with_port
with_port_lem env none config e = absurd (ground (arith, e))
with_port_lem env (some port) config e = (port, refl, e)

opened :
    (env : ServerEnv) (config : ServerConfig)
    → start_server env ≡ some config
    → (with_port env (in_range (parse_port (codes (port_raw env.port)))) ≡ some config)
      × (is_set env.anthropic_api_key ≡ true)
      × ((is_set env.github_token ≡ true)
          ⊎ ((is_set env.github_app_id ≡ true) × (is_set env.github_app_private_key ≡ true)))
unfolding start_server
opened env config e =
    let app = is_set env.github_app_id && is_set env.github_app_private_key in
    elim (Bool-cases (not app && not (is_set env.github_token))) [
      | inl refused ↦ absurd (ground (arith, rw refused at e))
      | inr signed ↦ elim (Bool-cases (is_set env.anthropic_api_key)) [
        | inl keyed ↦ (rw (signed, keyed) at e, keyed, ground (arith, signed))
        | inr keyless ↦ absurd (ground (arith, rw (signed, keyless) at e))
      ]
    ]

-- The server starts without checking signatures only outside production and if unsigned webhooks are allowed; it checks
-- them exactly if a secret is set. It starts only with a port, a key for the model and a way to authenticate at GitHub.
pub started_lem :
    (env : ServerEnv) (config : ServerConfig)
    → start_server env ≡ some config
    → ((config.webhook_secret ≡ trimmed_or "" env.github_webhook_secret)
        × (config.skip_signature_verification ≡ str_eq config.webhook_secret "")
        × ((config.skip_signature_verification ≡ false)
            ⊎ ((str_eq (trimmed_or "production" env.node_env) "production" ≡ false)
                × (str_eq (trimmed_or "" env.allow_unsigned_webhooks) "true" ≡ true))))
      × ((1 ≤ config.port) × (config.port ≤ 65535))
      × (is_set env.anthropic_api_key ≡ true)
      × ((is_set env.github_token ≡ true)
          ⊎ ((is_set env.github_app_id ≡ true) × (is_set env.github_app_private_key ≡ true)))
started_lem env config e =
    let (ported, keyed, signed) = opened env config e in
    let (port, in_bounds, made) =
      with_port_lem env (in_range (parse_port (codes (port_raw env.port)))) config ported in
    let (secret, skip, guarded, same) = webhook_config_lem env port config made in
    let bounds = in_range-bounds (parse_port (codes (port_raw env.port))) port in_bounds in
    ((secret, skip, guarded), ground (arith, bounds, same), keyed, signed)

get_not_post : ◌≢◌ {A = String} "GET" "POST"
get_not_post e = ground (arith, (eq_iff "GET" "POST").1 e)

paths_differ : ◌≢◌ {A = String} "/api/v1/scan" "/webhook"
paths_differ e = ground (arith, (eq_iff "/api/v1/scan" "/webhook").1 e)

module _ (env : ApiEnv) (query : Settled (Unit {0})) (api_key : Option String) (req : HttpRequest)
    (s : ApiState) where
  -- Only `POST /webhook` reaches the webhook route, and only `POST /api/v1/scan` changes the API's state.
  pub dispatch_lem :
      let served = handle_request env query api_key req s in
      ((served.routed ≡ true) ↔ ((req.method ≡ "POST") × (req.path ≡ "/webhook")))
      × ((served.state ≡ s) ⊎ ((req.method ≡ "POST") × (req.path ≡ "/api/v1/scan")))
  unfolding handle_request
  dispatch_lem = ground (
    arith,
    eq_iff req.method "POST",
    eq_iff req.method "GET",
    eq_iff req.path "/webhook",
    eq_iff req.path "/api/v1/scan",
    get_not_post,
    paths_differ,
  )
