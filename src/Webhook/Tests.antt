-- ===== src/Webhook/Tests.antt =====
-- Deliveries, and the theorems of this part at concrete inputs.
use fixor.Prelude.{
  none, ℕ, ◌≡◌, refl, ◌↔◌, true, false, Option, none, some, List, [], ◌∷◌, String, if◌then◌else◌,
  drop, str_eq, codes, starts_with, trim, is_empty,
}
use fixor.Webhook.{Json, text, object, no_members, member, absent, one}
use fixor.Webhook.Actions.{decide_pull_request_scan, skip, edited_without_base_change}
use fixor.Webhook.Signature.{verify_signature, verify_signature-digest, decode_hex, prefix}
use fixor.Webhook.Route.{Request, Deps, accepted, is_authentic, dispatch, route_github_webhook}
use fixor.Webhook.Gate.{asks, calls_iff}
use fixor.Webhook.Payload.{ValidatedWebhook, valid, missing, validate_payload}

-- A stand-in for the digest.
abbrev hmac : String → String → List ℕ
hmac secret raw = 171 ∷ 1 ∷ []

abbrev opened : Json
opened = object (member "action" (text "opened") no_members)

abbrev parse : String → Option Json
parse raw = if str_eq raw "{}" then some opened else none

abbrev delivery : Request
delivery = record {
  raw_body = "{}";
  event_header = one "pull_request";
  signature_header = one " sha256=aB01";
  delivery_header = absent;
  webhook_secret = "s";
  skip_signature_verification = false;
}

abbrev deps : Deps
deps = record {
  provision = none;
  accept = some (accepted (some "run") true);
  handle = record { is_not_ok = false; duplicate_delivery = false };
}

signature_ok : verify_signature hmac "{}" (some " sha256=aB01") "s" ≡ true
unfolding verify_signature
signature_ok = refl

accepted_delivery : (route_github_webhook hmac parse deps delivery).0.status ≡ 202
unfolding route_github_webhook verify_signature dispatch decide_pull_request_scan
accepted_delivery = refl

title_edit :
    decide_pull_request_scan (object (member "action" (text "edited") no_members))
    ≡ skip (some "edited") edited_without_base_change
unfolding decide_pull_request_scan
title_edit = refl

verify_signature-digest_example :
    (h : String) × (some " sha256=aB01" ≡ some h)
    × (str_eq "s" "" ≡ false)
    × (starts_with prefix (trim (codes h)) ≡ true)
    × (is_empty (trim (drop 7 (trim (codes h)))) ≡ false)
    × (decode_hex (trim (drop 7 (trim (codes h)))) ≡ some (hmac "s" "{}"))
verify_signature-digest_example =
    verify_signature-digest hmac "{}" "s" (some " sha256=aB01") signature_ok

calls_iff_example : (is_empty (route_github_webhook hmac parse deps delivery).1 ≡ false) ↔ (
    (is_authentic hmac parse delivery ≡ true)
    × (payload : Json) × (parse delivery.raw_body ≡ some payload)
    × (asks delivery payload ≡ true))
calls_iff_example = calls_iff hmac parse deps delivery

abbrev pull : Json
pull = object (
    member "repository"
      (object (
        member "owner" (object (member "login" (text "a") no_members))
          (member "name" (text " b ") no_members)))
      (member "pull_request"
        (object (
          member "number" (Json.number 7)
            (member "head" (object (member "sha" (text "c") no_members)) no_members)))
        no_members))

abbrev validated : ValidatedWebhook
validated = record { owner = "a"; repo = "b"; pull_number = 7; head_sha = "c"; action = none }

pull-valid : validate_payload pull ≡ valid validated
unfolding validate_payload missing
pull-valid = refl
