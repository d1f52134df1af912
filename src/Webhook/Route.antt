-- ===== src/Webhook/Route.antt =====
-- routeGitHubWebhook of src/server/github-webhook-route.ts. The HMAC, `JSON.parse` of the body and what the
-- three dependencies come to are arguments; their calls are listed in order.
use fixor.Prelude.{
  ℕ, Bool, true, false, not, ◌&&◌, ◌||◌, Option, none, some, List, [], ◌∷◌, map, String, leb, ◌==◌,
  if◌then◌else◌, or_else, length, all, str_eq, codes, to_lower, trim,
}
use fixor.Webhook.{Json, null, Header, first_header, field}
use fixor.Webhook.Actions.{
  PullRequestSkipReason, PullRequestScanDecision, scan, skip, decide_pull_request_scan,
}
use fixor.Webhook.Signature.{verify_signature, hex_digit}

-- WebhookRouteOptions, less the dependencies.
pub record Request : Type 0 where
  pub raw_body : String
  pub event_header : Header
  pub signature_header : Header
  pub delivery_header : Header
  pub webhook_secret : String
  pub skip_signature_verification : Bool

-- PullRequestArgs, less the body.
pub record PullRequestArgs : Type 0 where
  pub payload : Json
  pub signature_header : Option String
  pub delivery_id : Option (List ℕ)

-- What a handler answers, as far as `answerFor` looks at it.
pub record HandlerResult : Type 0 where
  pub is_not_ok : Bool
  pub duplicate_delivery : Bool

-- AcceptedForRoute.
pub data AcceptedForRoute : Type 0 where
  accepted : (scan_run_id : Option String) → (recorded : Bool) → AcceptedForRoute
  not_accepted : HandlerResult → AcceptedForRoute

-- What the dependencies come to. `provision` is none where it throws; `accept` and `handle` stand for
-- acceptPullRequest, where the route has it, and handlePullRequest.
pub record Deps : Type 0 where
  pub provision : Option (String × Bool)
  pub accept : Option AcceptedForRoute
  pub handle : HandlerResult

-- A call of a dependency.
pub data Call : Type 0 where
  provision_org : (installation_id : Json) → (source_event : String) → Call
  accept_pull_request : PullRequestArgs → Call
  run_in_background : Option String → Call
  handle_pull_request : PullRequestArgs → Call

pub data Body : Type 0 where
  invalid_signature invalid_json provisioning_failed ignored : Body
  installation_acknowledged :
      (action installation_id : Option Json) → (org : Option (String × Bool)) → Body
  not_scanned : PullRequestSkipReason → (action : Option String) → Body
  accepted_body : (status : String) → (scan_run_id : Option String) → Body
  handler_body : HandlerResult → Body

pub record WebhookRouteResponse : Type 0 where
  pub status : ℕ
  pub body : Body

-- A response and the calls made before it was given.
abbrev pub Answer : Type 0
Answer = WebhookRouteResponse × List Call

abbrev pub respond : ℕ → Body → List Call → Answer
respond status body calls = (record { status = status; body = body }, calls)

abbrev is_delivery_char : ℕ → Bool
is_delivery_char c = elim (hex_digit c) [ some _ ↦ true | none ↦ c == b'-' ]

-- parseDeliveryId
shaped : List ℕ → Option (List ℕ)
shaped raw =
    if leb 8 (length raw) && (leb (length raw) 64 && all is_delivery_char raw)
    then some (map to_lower raw)
    else none

pub parse_delivery_id : Header → Option (List ℕ)
unfolding shaped
parse_delivery_id v = elim (first_header v) [ some raw ↦ shaped (trim (codes raw)) | none ↦ none ]

unfoldable pub answer_for : HandlerResult → List Call → Answer
answer_for r calls =
    respond (if r.is_not_ok && not r.duplicate_delivery then 502 else 200) (handler_body r) calls

-- `instId !== undefined && instId !== null`
abbrev pub known_id : Option Json → Option Json
known_id (some null) = none
known_id id = id

abbrev pub is_text : String → Option Json → Bool
is_text s (some (Json.text t)) = str_eq t s
is_text s _ = false

abbrev provisioned : Option (String × Bool) → Option Json → Json → String → Answer
provisioned none action id event = respond 503 provisioning_failed (provision_org id event ∷ [])
provisioned (some org) action id event =
    respond 200 (installation_acknowledged action (some id) (some org))
      (provision_org id event ∷ [])

abbrev known_installation : Option Json → Deps → Option Json → String → Option Json → Answer
known_installation none deps action event id =
    respond 200 (installation_acknowledged action id none) []
known_installation (some id) deps action event _ = provisioned deps.provision action id event

unfoldable pub installation_event : Deps → String → Json → Answer
installation_event deps event payload =
    let action = field "action" (some payload) in
    let id = field "id" (field "installation" (some payload)) in
    if str_eq event "installation" && is_text "created" action
    then known_installation (known_id id) deps action event id
    else respond 200 (installation_acknowledged action id none) []

unfoldable pub accept_result : Option AcceptedForRoute → Deps → PullRequestArgs → Answer
unfolding answer_for
accept_result none deps args = answer_for deps.handle (handle_pull_request args ∷ [])
accept_result (some (not_accepted r)) deps args = answer_for r (accept_pull_request args ∷ [])
accept_result (some (accepted id recorded)) deps args =
    respond (if recorded then 202 else 503)
      (accepted_body (if recorded then "accepted" else "not_recorded") id)
      (accept_pull_request args ∷ run_in_background id ∷ [])

unfoldable pub decided : PullRequestScanDecision → Deps → PullRequestArgs → Answer
unfolding accept_result
decided (skip action reason) deps args = respond 200 (not_scanned reason action) []
decided (scan action) deps args = accept_result deps.accept deps args

abbrev pub args_of : Request → Json → PullRequestArgs
args_of r payload = record {
  payload = payload;
  signature_header = first_header r.signature_header;
  delivery_id = parse_delivery_id r.delivery_header;
}

abbrev pub event_of : Request → String
event_of r = or_else (first_header r.event_header) ""

unfoldable pub dispatch : Deps → Request → Json → Answer
unfolding installation_event decided
dispatch deps r payload =
    if str_eq (event_of r) "installation" || str_eq (event_of r) "installation_repositories"
    then installation_event deps (event_of r) payload
    else if str_eq (event_of r) "pull_request"
    then decided (decide_pull_request_scan payload) deps (args_of r payload)
    else respond 200 ignored []

unfoldable pub parsed : Option Json → Deps → Request → Answer
unfolding dispatch
parsed none deps r = respond 400 invalid_json []
parsed (some payload) deps r = dispatch deps r payload

module _ (hmac : String → String → List ℕ) (parse : String → Option Json) where
  -- The gate is passed.
  abbrev pub is_authentic : Request → Bool
  is_authentic r =
      r.skip_signature_verification
      || verify_signature hmac r.raw_body (first_header r.signature_header) r.webhook_secret

  unfoldable pub route_github_webhook : Deps → Request → Answer
  unfolding parsed
  route_github_webhook deps r =
      if not (is_authentic r)
      then respond 401 invalid_signature []
      else parsed (parse r.raw_body) deps r
