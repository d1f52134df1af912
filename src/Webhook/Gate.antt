-- ===== src/Webhook/Gate.antt =====
-- Which deliveries reach a dependency of routeGitHubWebhook (src/server/github-webhook-route.ts), and which of
-- them start a scan.
use fixor.Prelude.{
  ℕ, ◌≡◌, refl, sym, subst, ◌↔◌, inl, inr, Bool, true, false, not, ◌&&◌, ◌||◌, Option, none, some,
  List, String, arith, Bool-cases, Option-cases, eq_of_some, str_eq, includes, is_empty, eq_iff,
}
use fixor.Webhook.{Json, null, boolean, number, text, array, object, field}
use fixor.Webhook.Actions.{
  PullRequestScanDecision, scan, skip, decide_pull_request_scan, decide_field, decide_action,
  scanned_actions, is_record,
}
use fixor.Webhook.Route.{
  Request, Deps, accepted, not_accepted, PullRequestArgs, is_text, known_id, event_of, args_of,
  is_authentic, installation_event, decided, accept_result, answer_for, dispatch, parsed,
  route_github_webhook,
}

-- The action is a text and one of these.
abbrev pub is_one_of : List String → Option Json → Bool
is_one_of names (some (text action)) = includes action names
is_one_of names _ = false

-- The payload tells of code that no earlier delivery carried: an opened, synchronized or reopened pull request,
-- or an edit of its base.
abbrev pub carries_code : Json → Bool
carries_code payload =
    let action = field "action" (some payload) in
    is_one_of scanned_actions action
    || (is_text "edited" action && is_record (field "base" (field "changes" (some payload))))

abbrev is_known : Option Json → Bool
is_known none = false
is_known (some id) = true

abbrev pub creates : Json → Bool
creates payload =
    is_text "created" (field "action" (some payload))
    && is_known (known_id (field "id" (field "installation" (some payload))))

-- The events that a dependency is called for.
abbrev pub asks : Request → Json → Bool
asks r payload =
    (str_eq (event_of r) "installation" && creates payload)
    || (str_eq (event_of r) "pull_request" && carries_code payload)

abbrev is_scan : PullRequestScanDecision → Bool
is_scan (scan action) = true
is_scan (skip action reason) = false

base_record : (o : Option Json) → is_record (field "base" o) ≡ true → is_record o ≡ true
base_record none h = ground (arith, h)
base_record (some null) h = ground (arith, h)
base_record (some (boolean b)) h = ground (arith, h)
base_record (some (number n)) h = ground (arith, h)
base_record (some (text s)) h = ground (arith, h)
base_record (some (array ms)) h = ground (arith, h)
base_record (some (object ms)) h = refl

decide_field-is_scan :
    (action : Option Json) (payload : Json)
    → is_scan (decide_field action payload) ≡ (
        is_one_of scanned_actions action
        || (is_text "edited" action && is_record (field "base" (field "changes" (some payload)))))
unfolding decide_field decide_action
decide_field-is_scan none payload = refl
decide_field-is_scan (some null) payload = refl
decide_field-is_scan (some (boolean b)) payload = refl
decide_field-is_scan (some (number n)) payload = refl
decide_field-is_scan (some (array ms)) payload = refl
decide_field-is_scan (some (object ms)) payload = refl
decide_field-is_scan (some (text action)) payload =
    let changes = field "changes" (some payload) in
    elim (Bool-cases (includes action scanned_actions)) [
      | inl yes' ↦ rw yes' refl
      | inr no' ↦ elim (Bool-cases (str_eq action "edited")) [
        | inr other ↦ rw (no', other) refl
        | inl edited ↦ elim (Bool-cases (is_record (field "base" changes))) [
          | inl base ↦ rw (no', edited, base, base_record changes base) refl
          | inr none' ↦ elim (Bool-cases (is_record changes)) [
            | inl a ↦ rw (no', edited, none', a) refl
            | inr a ↦ rw (no', edited, none', a) refl
          ]
        ]
      ]
    ]

decided-calls :
    (d : PullRequestScanDecision) (deps : Deps) (args : PullRequestArgs)
    → is_empty (decided d deps args).1 ≡ not (is_scan d)
unfolding decided accept_result answer_for
decided-calls (skip action reason) deps args = refl
decided-calls (scan action) deps args = elim (Option-cases deps.accept) [
  | inl without ↦ rw without refl
  | inr (accepted id recorded, h) ↦ rw h refl
  | inr (not_accepted r, h) ↦ rw h refl
]

installation_event-calls :
    (deps : Deps) (event : String) (payload : Json)
    → is_empty (installation_event deps event payload).1
      ≡ not (str_eq event "installation" && creates payload)
unfolding installation_event
installation_event-calls deps event payload =
    let action = field "action" (some payload) in
    let id = field "id" (field "installation" (some payload)) in
    elim (Bool-cases (str_eq event "installation")) [
      | inr other ↦ rw other refl
      | inl same ↦ elim (Bool-cases (is_text "created" action)) [
        | inr other ↦ rw (same, other) refl
        | inl created ↦ elim (Option-cases (known_id id)) [
          | inl missing ↦ rw (same, created, missing) refl
          | inr (known, h) ↦ elim (Option-cases deps.provision) [
            | inl fails ↦ rw (same, created, h, fails) refl
            | inr (org, works) ↦ rw (same, created, h, works) refl
          ]
        ]
      ]
    ]

-- No text is two of the event names.
one_event :
    (event : String)
    → str_eq event "installation" || str_eq event "installation_repositories" ≡ true
    → str_eq event "pull_request" ≡ false
one_event event h = elim (Bool-cases (str_eq event "pull_request")) [
  | inr no' ↦ no'
  | inl yes' ↦
      let same : event ≡ "pull_request" = (eq_iff event "pull_request").0 yes' in
      absurd (ground (arith, rw same at h))
]

dispatch-calls :
    (deps : Deps) (r : Request) (payload : Json)
    → is_empty (dispatch deps r payload).1 ≡ not (asks r payload)
unfolding dispatch decide_pull_request_scan
dispatch-calls deps r payload =
    let event = event_of r in
    let code = decide_field-is_scan (field "action" (some payload)) payload in
    elim (Bool-cases (str_eq event "installation" || str_eq event "installation_repositories")) [
      | inl install ↦
          rw (install, one_event event install)
            (ground (arith, installation_event-calls deps event payload))
      | inr other ↦ elim (Bool-cases (str_eq event "pull_request")) [
        | inl pull ↦
            rw (other, pull)
              (ground (
                arith,
                other,
                code,
                decided-calls (decide_pull_request_scan payload) deps (args_of r payload),
              ))
        | inr neither ↦ rw (other, neither) (ground (arith, other))
      ]
    ]

not_iff : (a b : Bool) → a ≡ not b → (a ≡ false) ↔ (b ≡ true)
not_iff a true h = (λ _. refl, λ _. h)
not_iff a false h = ground (arith, h)

module _ (hmac : String → String → List ℕ) (parse : String → Option Json) (deps : Deps)
    (r : Request) where
  -- A delivery reaches a dependency exactly if its signature was verified (or the check is switched off), its
  -- body is JSON, and it is a created installation with an id or a pull request that was opened,
  -- synchronized, reopened or given another base. Any other delivery is answered with no call made.
  pub calls_iff : (is_empty (route_github_webhook hmac parse deps r).1 ≡ false) ↔ (
      (is_authentic hmac parse r ≡ true)
      × (payload : Json) × (parse r.raw_body ≡ some payload)
      × (asks r payload ≡ true))
  unfolding route_github_webhook parsed
  calls_iff = elim (Bool-cases (is_authentic hmac parse r)) [
    | inr forged ↦ rw forged ((λ h. absurd (ground (arith, h))), λ h. absurd (ground (arith, h.0)))
    | inl authentic ↦ elim (Option-cases (parse r.raw_body)) [
      | inl wrong ↦
          rw (authentic, wrong)
            ((λ h. absurd (ground (arith, h))), λ (a, payload, p, w). absurd (ground (arith, p)))
      | inr (payload, right) ↦
          let calls = not_iff _ _ (dispatch-calls deps r payload) in
          rw (authentic, right)
            (
              (λ h. (refl, payload, refl, calls.0 h)),
              λ (a, other, same, asked).
                  calls.1 (subst (λ q. asks r q ≡ true) (sym (eq_of_some same)) asked),
            )
    ]
  ]
