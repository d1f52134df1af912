-- ===== src/Delivery/Accept.antt =====
-- acceptPullRequestDelivery of src/integrations/github/pr-webhook-handler.ts. HMAC and the insertion of a row
-- are arguments: `create` is none where it throws.
use fixor.Prelude.{
  ℕ, ◌⊎◌, inl, inr, Bool, true, false, Option, none, some, List, String, if◌then◌else◌, str_eq,
  trim_text, join, decimal,
}
use fixor.ScanRun.{Start}
use fixor.Webhook.{Json, number, field}
use fixor.Webhook.Signature.{verify_signature}
use fixor.Webhook.Payload.{ValidatedWebhook, ValidationResult, valid, invalid, validate_payload}
use fixor.Delivery.{
  WebhookSignatureState, unchecked, valid_signature, invalid_signature, Failure, secret_missing,
  signature_refused, malformed, unpriced_refused, duplicate_delivery, ScanRunState, new_run,
  DeliveryContext,
}

-- The options that the first half reads.
pub record Options : Type 0 where
  pub raw_body : String
  pub payload : Json
  pub signature_header : Option String
  pub webhook_secret : Option String
  pub skip_signature_verification : Bool
  pub dry_run : Bool
  pub delivery_id : Option String
  pub allow_unpriced_scan : Bool

-- ScanRunCreateResult
pub data Created : Type 0 where
  created : String → Created
  not_created : Created

-- HandlePullRequestWebhookFailure
pub record Refusal : Type 0 where
  pub dry_run : Bool
  pub signature_state : WebhookSignatureState
  pub failure : Failure

pub record Accepted : Type 0 where
  pub scan_run_id : Option String
  pub recorded : Bool
  pub run : ScanRunState
  pub ctx : DeliveryContext

pub data AcceptResult : Type 0 where
  refused : Refusal → AcceptResult
  accepted : Accepted → AcceptResult

abbrev number_of : Option Json → Option ℕ
number_of (some (number n)) = some n
number_of _ = none

-- `installation.id`, if it is a number.
abbrev pub installation_of : Json → Option ℕ
installation_of payload = number_of (field "id" (field "installation" (some payload)))

abbrev nonempty : String → Option String
nonempty s = if str_eq s "" then none else some s

-- `options.webhookSecret?.trim()`, if it is not empty.
abbrev pub secret_of : Option String → Option String
secret_of none = none
secret_of (some secret) = nonempty (trim_text secret)

module _ (hmac : String → String → List ℕ) where
  -- The state of the signature, or the refusal.
  abbrev checked : Bool → WebhookSignatureState ⊎ Failure
  checked ok = if ok then inl valid_signature else inr signature_refused

  check_secret : Options → Option String → WebhookSignatureState ⊎ Failure
  check_secret o none = inr secret_missing
  check_secret o (some secret) =
      checked (verify_signature hmac o.raw_body o.signature_header secret)

  pub check_signature : Options → WebhookSignatureState ⊎ Failure
  unfolding check_secret
  check_signature o =
      if o.skip_signature_verification
      then inl unchecked
      else check_secret o (secret_of o.webhook_secret)

abbrev pub refuse_delivery : Options → WebhookSignatureState → Failure → AcceptResult
refuse_delivery o state failure =
    refused (record { dry_run = o.dry_run; signature_state = state; failure = failure })

abbrev pub context_of :
    Options → WebhookSignatureState → Option ℕ → ValidatedWebhook → DeliveryContext
context_of o state installation v = record {
  dry_run = o.dry_run;
  signature_state = state;
  owner = v.owner;
  repo = v.repo;
  pull_number = v.pull_number;
  head_sha = v.head_sha;
  action = v.action;
  installation_id = installation;
}

-- What `createPending` is called with.
abbrev pub start_of : Options → ℕ → ℕ → ValidatedWebhook → Start
start_of o now installation v = record {
  installation_id = decimal installation;
  delivery_id = o.delivery_id;
  repo_full_name = join v.owner (join "/" v.repo);
  pull_number = v.pull_number;
  head_sha = v.head_sha;
  started_at = now;
}

abbrev pub accept_run : Option String → Bool → Bool → DeliveryContext → AcceptResult
accept_run id failed recorded ctx =
    accepted (record { scan_run_id = id; recorded = recorded; run = new_run id failed; ctx = ctx })

-- The end of the `try` around the insertion.
abbrev inserted : Options → DeliveryContext → Option Created → AcceptResult
inserted o ctx none = accept_run none true false ctx
inserted o ctx (some not_created) = refuse_delivery o ctx.signature_state duplicate_delivery
inserted o ctx (some (created id)) = accept_run (some id) false true ctx

module _ {S : Type 0} (hmac : String → String → List ℕ)
    (create : Start → S → Option Created × S) where
  unfoldable pub record_delivery :
      Options → ℕ → WebhookSignatureState → Option ℕ → ValidatedWebhook → S → AcceptResult × S
  record_delivery o now state none v s =
      if o.allow_unpriced_scan
      then (accept_run none false true (context_of o state none v), s)
      else (refuse_delivery o state unpriced_refused, s)
  record_delivery o now state (some installation) v s =
      let (result, s') = create (start_of o now installation v) s in
      (inserted o (context_of o state (some installation) v) result, s')

  unfoldable pub after_validation :
      Options → ℕ → WebhookSignatureState → ValidationResult → S → AcceptResult × S
  unfolding record_delivery
  after_validation o now state (invalid missing) s =
      (refuse_delivery o state (malformed missing), s)
  after_validation o now state (valid v) s =
      record_delivery o now state (installation_of o.payload) v s

  unfoldable pub after_signature :
      Options → ℕ → WebhookSignatureState ⊎ Failure → S → AcceptResult × S
  unfolding after_validation
  after_signature o now (inr failure) s = (refuse_delivery o invalid_signature failure, s)
  after_signature o now (inl state) s = after_validation o now state (validate_payload o.payload) s

  unfoldable pub accept_delivery : Options → ℕ → S → AcceptResult × S
  unfolding after_signature
  accept_delivery o now s = after_signature o now (check_signature hmac o) s
